-- ===== src/Cli/Verdict.antt =====
-- The commands of pkg/cli/action.go that change an audit: approve, deny and revert.
pub mod Accepted
use reactive_policy.Common.{
  ℤ, pos, leb_ℤ, Time, String, List, [], ◌∷◌, length, Option, none, some, Bool, true, false, not,
  Error, ErrorKind, Fallible, ok, err, if◌then◌else◌,
}
use reactive_policy.Api.{ActionAudit, ApprovalGate, ApprovalDecision, ApprovalPhase}
use reactive_policy.Platform.{Platform, Arg, wrap}
use reactive_policy.Controller.Policy.Gates.{is_pending}
use reactive_policy.Webhook.Approval.{decision_text, phase_text}

module _ {W F : Type 0} (p : Platform W F) where
  abbrev refusal : String → List Arg → Error
  refusal format args = record { kind = ErrorKind.other; message = p.sprintf format args }

  abbrev check_time : String → ApprovalGate → Time → Fallible ApprovalGate
  check_time name gate now =
      if leb_ℤ gate.expires_at now
      then err (
          refusal "the gate on audit %q expired at %s; its held actions will not run"
            (Arg.text name ∷ Arg.text (p.format_time gate.expires_at) ∷ []))
      else ok gate

  abbrev check_open : String → ApprovalGate → ApprovalPhase → W → Fallible ApprovalGate × W
  check_open name gate phase w =
      if is_pending phase then (check_time name gate (p.now w).0, (p.now w).1) else (
        err (
            refusal "audit %q is not waiting for a decision; its approval phase is %q"
              (Arg.text name ∷ Arg.text (phase_text phase) ∷ [])),
        w,
      )

  -- The checks of decideGate: the gate, if it may be decided
  unfoldable pub gate_to_decide : String → ActionAudit → W → Fallible ApprovalGate × W
  gate_to_decide name audit w = elim audit.spec.gate [
    | none ↦ (
      err (refusal "audit %q has no approval gate; it ran straight through" (Arg.text name ∷ [])),
      w,
    )
    | some gate ↦ check_open name gate audit.status.approval_phase w
  ]

  -- What the client sends: decidedBy and decidedAt are as they were read.
  unfoldable pub with_decision :
      ApprovalDecision → String → ApprovalGate → ActionAudit → ActionAudit
  with_decision decision reason gate audit = record audit {
    spec = record audit.spec { gate = some (record gate { decision = decision; reason = reason }) };
  }

  abbrev verdict_report : ApprovalDecision → ActionAudit → ApprovalGate → String
  verdict_report ApprovalDecision.approved audit gate =
      p.sprintf "approved %q; the operator will run %d held action(s)\n"
        (Arg.text audit.metadata.name ∷ Arg.number (pos (length gate.pending_plugins)) ∷ [])
  verdict_report _ audit gate =
      p.sprintf "denied %q; its %d held action(s) will not run\n"
        (Arg.text audit.metadata.name ∷ Arg.number (pos (length gate.pending_plugins)) ∷ [])

  abbrev reported : ApprovalDecision → ApprovalGate → Fallible ActionAudit → Fallible String
  reported decision gate (err e) =
      err (wrap p "recording %s decision: %w" (Arg.text (decision_text decision) ∷ []) e)
  reported decision gate (ok audit) = ok (verdict_report decision audit gate)

  abbrev record_decision :
      ApprovalDecision → String → ActionAudit → Fallible ApprovalGate → W → Fallible String × W
  record_decision decision reason audit (err e) w = (err e, w)
  record_decision decision reason audit (ok gate) w =
      let (answer, w') = p.update_audit (with_decision decision reason gate audit) w in
      (reported decision gate answer, w')

  -- decideGate
  unfoldable pub decide_gate : String → String → ApprovalDecision → String → W → Fallible String × W
  unfolding gate_to_decide with_decision
  decide_gate namespace name decision reason w =
      let (answer, w1) = p.get_audit namespace name w in
      elim answer [
        | err e ↦ (err (wrap p "getting audit record %q: %w" (Arg.text name ∷ []) e), w1)
        | ok audit ↦
            let (gate, w2) = gate_to_decide name audit w1 in
            record_decision decision reason audit gate w2
      ]

  abbrev requested : Fallible ActionAudit → Fallible String
  requested (err e) = err (wrap p "requesting revert: %w" [] e)
  requested (ok audit) = ok (
      p.sprintf "requested revert of audit %q; the operator will reverse its reversible actions\n"
        (Arg.text audit.metadata.name ∷ []))

  abbrev when_reverted : Option Time → String
  when_reverted none = "<nil>"
  when_reverted (some t) = p.format_time t

  -- the command `action revert`
  unfoldable pub request_revert : String → String → W → Fallible String × W
  request_revert namespace name w =
      let (answer, w1) = p.get_audit namespace name w in
      elim answer [
        | err e ↦ (err (wrap p "getting audit record %q: %w" (Arg.text name ∷ []) e), w1)
        | ok audit ↦
            if audit.status.reverted
            then (
              ok (
                  p.sprintf "audit %q was already reverted at %s\n" (
                    Arg.text audit.metadata.name
                    ∷ Arg.text (when_reverted audit.status.reverted_at)
                    ∷ [])),
              w1,
            )
            else let (sent, w2) =
                p.update_audit
                  (record audit { spec = record audit.spec { revert_requested = true } }) w1 in
              (requested sent, w2)
      ]
