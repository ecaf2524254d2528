-- ===== src/Controller/Audit/Idle.antt =====
-- When a reconcile of an audit record runs no plugin: its answer and the state afterwards do not
-- depend on the plugins that are wired in.
use reactive_policy.Common.{
  Time, String, Option, none, some, Bool, true, false, not, ◌&&◌, ok, ◌≡◌, refl, ◌≢◌, inl, inr, ap,
  arith, Bool-cases,
}
use reactive_policy.Api.{ActionAudit, ApprovalGate, ApprovalPhase, ApprovalDecision}
use reactive_policy.Platform.{Platform}
use reactive_policy.Controller.System.{System, Wiring, ask}
use reactive_policy.Controller.Policy.Gates.{is_pending}
use reactive_policy.Controller.Audit.Gate.{wait_or_expire, on_decision, resolve_gate}
use reactive_policy.Controller.Audit.Reconcile.{sweep, advance, by_age, retain, reconcile_audit}

module _ {W F : Type 0} (p : Platform W F) (wiring wiring' : Wiring W F) where
  -- The gate of the record is not approved.
  abbrev NotApproved : Option ApprovalGate → Type 0
  NotApproved none = Unit
  NotApproved (some gate) = gate.decision ≢ ApprovalDecision.approved

  -- The record waits at a gate that is not approved, or waits at none and has no revert to do.
  pub data Idle (audit : ActionAudit) : Type 0 where
    held :
        audit.status.approval_phase ≡ ApprovalPhase.pending
        → NotApproved audit.spec.gate
        → Idle audit
    settled :
        audit.status.approval_phase ≢ ApprovalPhase.pending
        → audit.spec.revert_requested && not audit.status.reverted ≡ false
        → Idle audit

  wait_or_expire_same :
      (audit : ActionAudit) (gate : ApprovalGate) (expiry : Time) (s : System W)
      → wait_or_expire p wiring audit gate expiry s ≡ wait_or_expire p wiring' audit gate expiry s
  unfolding wait_or_expire
  wait_or_expire_same audit gate expiry s = refl

  on_decision_same :
      (audit : ActionAudit) (gate : ApprovalGate) (expiry : Time) (s : System W)
      (d : ApprovalDecision)
      → d ≢ ApprovalDecision.approved
      → on_decision p wiring audit gate expiry d s ≡ on_decision p wiring' audit gate expiry d s
  unfolding on_decision
  on_decision_same audit gate expiry s ApprovalDecision.approved h = absurd (h refl)
  on_decision_same audit gate expiry s ApprovalDecision.denied h = refl
  on_decision_same audit gate expiry s ApprovalDecision.unset h =
      wait_or_expire_same audit gate expiry s
  on_decision_same audit gate expiry s (ApprovalDecision.other t) h =
      wait_or_expire_same audit gate expiry s

  resolve_gate_same :
      (audit : ActionAudit) (expiry : Time) (s : System W) (o : Option ApprovalGate)
      → audit.spec.gate ≡ o
      → NotApproved o
      → resolve_gate p wiring audit expiry s ≡ resolve_gate p wiring' audit expiry s
  unfolding resolve_gate
  resolve_gate_same audit expiry s none e h = ground arith
  resolve_gate_same audit expiry s (some gate) e h =
      let same = on_decision_same audit gate expiry s gate.decision h in ground arith

  is_pending→≡ : (phase : ApprovalPhase) → is_pending phase ≡ true → phase ≡ ApprovalPhase.pending
  is_pending→≡ ApprovalPhase.pending h = refl
  is_pending→≡ phase h = ground arith

  not_pending : (phase : ApprovalPhase) → phase ≢ ApprovalPhase.pending → is_pending phase ≡ false
  not_pending phase h = elim (Bool-cases (is_pending phase)) [
    | inl e ↦ absurd (h (is_pending→≡ phase e))
    | inr e ↦ e
  ]

  advance_same :
      (audit : ActionAudit) (expiry : Time) (s : System W)
      → Idle audit
      → advance p wiring audit expiry s ≡ advance p wiring' audit expiry s
  unfolding advance
  advance_same audit expiry s (held pending unapproved) =
      let waits : is_pending audit.status.approval_phase ≡ true = ap is_pending pending in
      let same = resolve_gate_same audit expiry s _ refl unapproved in ground arith
  advance_same audit expiry s (settled not_held done) =
      let e = not_pending audit.status.approval_phase not_held in ground arith

  by_age_same :
      (audit : ActionAudit) (expiry : Time) (b : Bool) (s : System W)
      → Idle audit
      → by_age p wiring audit expiry b s ≡ by_age p wiring' audit expiry b s
  unfolding by_age sweep
  by_age_same audit expiry true s idle = refl
  by_age_same audit expiry false s idle = advance_same audit expiry s idle

  retain_same :
      (audit : ActionAudit) (s : System W)
      → Idle audit
      → retain p wiring audit s ≡ retain p wiring' audit s
  unfolding retain
  retain_same audit s idle = by_age_same audit _ _ _ idle

  -- A record that waits at a gate which is not approved, and one that waits at none and has no
  -- revert to do, has its reconcile run no plugin: with other plugins, another metric client and
  -- another sink, the answer and the state afterwards are the same. So held actions run only once
  -- they are approved, and expired and denied gates run nothing.
  pub reconcile_audit_idle :
      (namespace name : String) (audit : ActionAudit) (s : System W)
      → (p.get_audit namespace name s.run.outside).0 ≡ ok audit
      → Idle audit
      → reconcile_audit p wiring namespace name s ≡ reconcile_audit p wiring' namespace name s
  unfolding reconcile_audit
  reconcile_audit_idle namespace name audit s got idle =
      let same = retain_same audit (asked s) idle in ground arith
    where
      asked : System W → System W
      asked s = (ask (p.get_audit namespace name) s).1
