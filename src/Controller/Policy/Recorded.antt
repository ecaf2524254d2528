-- ===== src/Controller/Policy/Recorded.antt =====
-- What a trigger leaves as it is before it writes the policy's status: writeAudit and writeGatedAudit
-- on a property of the outside that the plugins and the writes of the record keep.
use reactive_policy.Common.{
  ℕ, ℤ, Time, String, List, [], ◌∷◌, Option, none, some, Error, Fallible-cases, ◌≡◌, refl, inl, inr,
  arith,
}
use reactive_policy.Api.{ReactivePolicy, ActionAudit, ApprovalPhase}
use reactive_policy.Platform.{Platform}
use reactive_policy.Sink.{Sink, Event}
use reactive_policy.Action.Types.{Target, Result}
use reactive_policy.Action.Executor.{Run}
use reactive_policy.Action.Executor.Keeps.{KeptByPlugins, run_range-Keeps}
use reactive_policy.Controller.AuditWriter.{
  tell_sink, write_audit, write_gated_audit, new_audit, gate_of, with_phase, tell_sink_some,
  build_sink_events,
}
use reactive_policy.Controller.System.{System, Wiring}
use reactive_policy.Controller.Policy.Trigger.{run_targets}

-- The clock, the plugins, the sink and the writes of an audit record keep a property of the outside.
pub record KeptByPipeline {W F : Type 0} (p : Platform W F) (wiring : Wiring W F) (K : W → Type 0)
    : Type 0 where
  pub by_plugins : KeptByPlugins p wiring.plugins K
  pub kept_create : (audit : ActionAudit) (w : W) → K w → K (p.create_audit audit w).1
  pub kept_mark : (audit : ActionAudit) (w : W) → K w → K (p.update_audit_status audit w).1
  pub kept_tell :
      (sink : Sink W) (events : List Event) (w : W)
      → wiring.sink ≡ some sink
      → K w
      → K (sink.record_trigger events w).1

module _ {W F : Type 0} (p : Platform W F) (wiring : Wiring W F) (K : W → Type 0)
    (kept : KeptByPipeline p wiring K) where
  pub run_targets-Keeps :
      (policy : ReactivePolicy) (value : String) (from to : ℤ) (targets : List Target)
      (results : List Result) (e : Option Error) (s : System W)
      → K s.run.outside
      → K (run_targets p wiring policy value from to targets results e s).1.run.outside
  unfolding run_targets
  run_targets-Keeps policy value from to [] results e s h = h
  run_targets-Keeps policy value from to (target ∷ rest) results e s h =
      run_targets-Keeps policy value from to rest _ _ _
        (run_range-Keeps p wiring.plugins K kept.by_plugins policy target value from to s.run h)

  tell_sink-Keeps :
      (o : Option (Sink W)) (events : List Event) (r : Run W)
      → wiring.sink ≡ o
      → K r.outside
      → K (tell_sink p wiring.plugins o events r).1.outside
  tell_sink-Keeps none events r e h = h
  tell_sink-Keeps (some sink) events r e h = kept.kept_tell sink events r.outside e h

  pub write_audit-Keeps :
      (policy : ReactivePolicy) (at : Time) (results : List Result) (r : Run W)
      → K r.outside
      → K (write_audit p wiring.plugins wiring.sink policy at results r).1.outside
  unfolding write_audit
  write_audit-Keeps policy at results r h =
      let made = kept.kept_create (new_audit p wiring.plugins policy at results none) r.outside h in
      elim (Fallible-cases
        (p.create_audit (new_audit p wiring.plugins policy at results none) r.outside).0) [
          | inl (audit, e) ↦
              let r' : Run W = record r {
                outside =
                    (p.create_audit (new_audit p wiring.plugins policy at results none)
                      r.outside).1;
              } in
              let told = tell_sink-Keeps wiring.sink (build_sink_events audit) r' refl made in
              ground (arith, e, told)
          | inr (failure, e) ↦ ground (arith, e, made)
        ]

  tell_sink_some-Keeps :
      (results : List Result) (audit : ActionAudit) (r : Run W)
      → K r.outside
      → K (tell_sink_some p wiring.plugins wiring.sink results audit r).1.outside
  tell_sink_some-Keeps [] audit r h = h
  tell_sink_some-Keeps (res ∷ rest) audit r h = tell_sink-Keeps wiring.sink _ r refl h

  pub write_gated_audit-Keeps :
      (policy : ReactivePolicy) (at : Time) (results : List Result) (gate_idx : ℕ)
      (targets : List Target) (r : Run W)
      → K r.outside
      → K
          (write_gated_audit p wiring.plugins wiring.sink policy at results gate_idx targets
            r).1.outside
  unfolding write_gated_audit
  write_gated_audit-Keeps policy at results gate_idx targets r h =
      let asked =
        new_audit p wiring.plugins policy at results
          (some (gate_of p wiring.plugins policy at gate_idx targets)) in
      let made = kept.kept_create asked r.outside h in
      elim (Fallible-cases (p.create_audit asked r.outside).0) [
        | inr (failure, e) ↦ ground (arith, e, made)
        | inl (audit, e) ↦
            let pending = with_phase p wiring.plugins ApprovalPhase.pending audit in
            let w = (p.create_audit asked r.outside).1 in
            let marked = kept.kept_mark pending w made in
            elim (Fallible-cases (p.update_audit_status pending w).0) [
              | inr (failure, e') ↦ ground (arith, e, e', marked)
              | inl (stored, e') ↦
                  let r' : Run W = record r { outside = (p.update_audit_status pending w).1 } in
                  let told = tell_sink_some-Keeps results stored r' marked in
                  ground (arith, e, e', told)
            ]
      ]
