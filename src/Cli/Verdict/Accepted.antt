-- ===== src/Cli/Verdict/Accepted.antt =====
-- The command line and the approval webhook together.
use reactive_policy.Common.{
  leb_ℤ, String, Option, none, some, true, false, Error, ok, ◌≡◌, refl, arith,
}
use reactive_policy.Api.{ActionAudit, ApprovalGate, ApprovalDecision, decision_eq}
use reactive_policy.Platform.{Platform}
use reactive_policy.Controller.Policy.Gates.{is_pending}
use reactive_policy.Webhook.Approval.{
  Request, Response, handle, stamp, requester_name, is_undecided, is_verdict, admit, check_verdict,
  check_gates, check_objects,
}
use reactive_policy.Cli.Verdict.{gate_to_decide, with_decision}

module _ {W F : Type 0} (p : Platform W F) (encode_error : ActionAudit → Option Error) where
  open-gate :
      (name : String) (audit : ActionAudit) (gate : ApprovalGate) (w : W)
      → (gate_to_decide p name audit w).0 ≡ ok gate
      → (audit.spec.gate ≡ some gate) × (is_pending audit.status.approval_phase ≡ true)
  unfolding gate_to_decide
  open-gate name audit gate w h = (ground arith, ground arith)

  changed-verdict :
      (new old : ApprovalDecision)
      → is_verdict new ≡ true
      → is_undecided old ≡ true
      → decision_eq new old ≡ false
  unfolding decision_eq
  changed-verdict ApprovalDecision.approved ApprovalDecision.unset v u = refl
  changed-verdict ApprovalDecision.denied ApprovalDecision.unset v u = refl
  changed-verdict new old v u = ground arith

  check_gates-patched :
      (req : Request) (sent audit : ActionAudit) (new gate : ApprovalGate) (w : W)
      → ((a : ActionAudit) → encode_error a ≡ none)
      → is_pending audit.status.approval_phase ≡ true
      → is_verdict new.decision ≡ true
      → is_undecided gate.decision ≡ true
      → leb_ℤ gate.expires_at (p.now w).0 ≡ false
      → (check_gates p encode_error req sent audit new gate w).0
        ≡ Response.patched (stamp sent new (requester_name req) (p.now (p.now w).1).0)
  unfolding check_gates check_verdict admit
  check_gates-patched req sent audit new gate w encodes pending v u live =
      let changed = changed-verdict new.decision gate.decision v u in
      ground (arith, encodes (stamp sent new (requester_name req) (p.now (p.now w).1).0))

  -- The update that decideGate sends for a gate that it may decide is let in by the approval webhook,
  -- if nobody had decided the gate and it has not expired meanwhile. What is stored is the audit that
  -- was sent, with the requester's name and the webhook's time on its verdict, whatever name and time
  -- stood there.
  pub handle-with_decision :
      (name reason : String) (decision : ApprovalDecision) (audit : ActionAudit)
      (gate : ApprovalGate) (req : Request) (w w' : W)
      → ((a : ActionAudit) → encode_error a ≡ none)
      → (gate_to_decide p name audit w).0 ≡ ok gate
      → is_verdict decision ≡ true
      → is_undecided gate.decision ≡ true
      → leb_ℤ gate.expires_at (p.now w').0 ≡ false
      → req.is_update ≡ true
      → req.object ≡ ok (with_decision p decision reason gate audit)
      → req.old_object ≡ some (ok audit)
      → (handle p encode_error req w').0
        ≡ Response.patched (
            stamp
              (with_decision p decision reason gate audit)
              (record gate { decision = decision; reason = reason })
              (requester_name req)
              (p.now (p.now w').1).0)
  unfolding with_decision handle check_objects
  handle-with_decision name reason decision audit gate req w w' encodes may v u live update new
        old =
      let (there, pending) = open-gate name audit gate w may in
      let judged =
        check_gates-patched req (with_decision p decision reason gate audit) audit
          (record gate { decision = decision; reason = reason }) gate w' encodes pending v u live in
      ground arith
