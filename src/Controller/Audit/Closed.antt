-- ===== src/Controller/Audit/Closed.antt =====
-- How the closing of a gate ends, on every branch.
use reactive_policy.Common.{
  Time, time_sub, String, [], subst, Bool, true, false, Error, Fallible, ok, err, is_conflict, ◌≡◌,
  refl, ◌⊎◌, inl, inr, arith, if◌then◌else◌,
}
use reactive_policy.Api.{ActionAudit, ApprovalPhase}
use reactive_policy.Metrics.{Metrics, record_gate_resolved}
use reactive_policy.Platform.{Platform, wrap}
use reactive_policy.Controller.System.{System, Answer}
use reactive_policy.Controller.Audit.Revert.{again}
use reactive_policy.Controller.Audit.Closing.{
  close_gate, record_skipped, refused, after_decided, after_skipped, gate_waited, outcome_text,
  cool_policy, start_cooldown,
}

module _ {W F : Type 0} (p : Platform W F) where
  -- The reconcile has to be made again, or failed; the gate is not counted as resolved.
  abbrev pub Unresolved : Metrics → Fallible Answer × System W → Type 0
  Unresolved m out =
      (out.1.run.metrics ≡ m) × ((out.0 ≡ ok again) ⊎ ((e : Error) × (out.0 ≡ err e)))

  -- The API server took the decided record, and the resolution is counted once, under its outcome,
  -- with the time from the record's trigger to the reading of the clock that came just before.
  abbrev pub Resolved : ApprovalPhase → Metrics → Fallible Answer × System W → Type 0
  Resolved phase m out =
      (written : ActionAudit) × (read : W) × (closed : ActionAudit) × (written.status.approval_phase
        ≡ phase)
      × ((p.update_audit_status written (p.now read).1).0 ≡ ok closed)
      × (out.1.run.metrics
          ≡ record_gate_resolved closed.metadata.namespace (outcome_text phase)
              (time_sub (p.now read).0 closed.spec.triggered_at) m)
      × ((a : Answer) × (out.0 ≡ ok a))

  record_skipped-metrics :
      (message : String) (audit : ActionAudit) (s : System W)
      → (record_skipped p message audit s).1.run.metrics ≡ s.run.metrics
  unfolding record_skipped
  record_skipped-metrics message audit s = ground arith

  start_cooldown-metrics :
      (s : System W) (audit : ActionAudit) (now : Time)
      → (cool_policy p audit now s).1.run.metrics ≡ s.run.metrics
  unfolding start_cooldown
  start_cooldown-metrics s audit now = ground arith

  -- How the closing of a gate ends: without a trace in the metrics, or resolved once.
  abbrev pub Settles : ApprovalPhase → Metrics → Fallible Answer × System W → Type 0
  Settles phase m out = Unresolved m out ⊎ Resolved phase m out

  refused-Unresolved :
      (format : String) (e : Error) (s : System W) → Unresolved s.run.metrics (refused p format e s)
  unfolding refused
  refused-Unresolved format e s = (refl, go (is_conflict e))
    where
      go :
          (b : Bool)
          → let r : Fallible Answer = if b then ok again else err (wrap p format [] e) in
            (r ≡ ok again) ⊎ ((e' : Error) × (r ≡ err e'))
      go true = inl refl
      go false = inr (_, refl)

  after_decided-Settles :
      (phase : ApprovalPhase) (expiry : Time) (r : Fallible ActionAudit) (s : System W)
      (written : ActionAudit) (read : W)
      → written.status.approval_phase ≡ phase
      → (p.update_audit_status written (p.now read).1).0 ≡ r
      → Settles phase s.run.metrics (after_decided p phase (p.now read).0 expiry r s)
  unfolding after_decided gate_waited
  after_decided-Settles phase expiry (err e) s written read h took = inl (refused-Unresolved _ e s)
  after_decided-Settles phase expiry (ok closed) s written read h took =
      inr
        (written, read, closed, h, took, start_cooldown-metrics _ closed (p.now read).0, (_, refl))

  after_skipped-Settles :
      (phase : ApprovalPhase) (reason message : String) (expiry : Time) (r : Fallible ActionAudit)
      (s : System W)
      → Settles phase s.run.metrics (after_skipped p phase reason message expiry r s)
  unfolding after_skipped
  after_skipped-Settles phase reason message expiry (err e) s = inl (refused-Unresolved _ e s)
  after_skipped-Settles phase reason message expiry (ok audit) s =
      after_decided-Settles phase expiry _ _ _ s.run.outside refl refl

  -- Closing a gate ends in one of two ways. Either the metrics are as before, and the reconcile is
  -- made again or fails; or the API server took the decision, and the gate is counted as resolved
  -- once, under the outcome of its phase, with the time from its trigger to the reading of the clock
  -- before the write. Whether the policy's cooldown could be started makes no difference.
  pub close_gate-Settles :
      (audit : ActionAudit) (phase : ApprovalPhase) (reason message : String) (expiry : Time)
      (s : System W)
      → Settles phase s.run.metrics (close_gate p audit phase reason message expiry s)
  unfolding close_gate
  close_gate-Settles audit phase reason message expiry s =
      subst (λ m. Settles phase m (close_gate p audit phase reason message expiry s))
        (record_skipped-metrics message audit s)
        (after_skipped-Settles phase reason message expiry _ _)
