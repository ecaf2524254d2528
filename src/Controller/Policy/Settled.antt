-- ===== src/Controller/Policy/Settled.antt =====
-- How a trigger ends: what is written to the policy's status, and that the window starts afresh.
use reactive_policy.Common.{
  ℕ, pos, to_int32, ◌+ℤ◌, Time, Duration, String, List, [], Option, none, some, Error, Fallible, ok,
  err, Option-cases, lookup, lookup-erase, Act, pure, eq_self, length, ◌≡◌, refl, inl, inr, ◌∙◌,
}
use reactive_policy.Metrics.{record_trigger}
use reactive_policy.Api.{ReactivePolicy, ActionAudit}
use reactive_policy.Platform.{Platform}
use reactive_policy.Action.Types.{Target, Result}
use reactive_policy.Action.Executor.{gate_index}
use reactive_policy.Prometheus.Window.{forget}
use reactive_policy.Controller.Limiter.{observe_trigger}
use reactive_policy.Controller.System.{System, Answer, Wiring, tally, in_limiter}
use reactive_policy.Controller.Policy.Status.{set_condition, requeue}
use reactive_policy.Controller.Policy.Recorded.{
  KeptByPipeline, run_targets-Keeps, write_audit-Keeps, write_gated_audit-Keeps,
}
use reactive_policy.Controller.Policy.Trigger.{
  after_gated, finish_gated, finish_ungated, counted, fire, run_targets,
}

module _ {W F : Type 0} (p : Platform W F) (wiring : Wiring W F) where
  -- The policy, with nothing but its status changed, and one trigger more
  abbrev pub Triggered : ReactivePolicy → ReactivePolicy → Type 0
  Triggered policy q =
      (q.metadata ≡ policy.metadata)
      × (q.spec ≡ policy.spec)
      × (q.status.trigger_count ≡ to_int32 (policy.status.trigger_count +ℤ pos 1))

  -- The reconcile ends with the write of `written`, in a state without a window for the key, whose
  -- outside has the property.
  pub record Ends (K : W → Type 0) (key : String) (poll : Duration)
      (out : Fallible Answer × System W) (P : ReactivePolicy → Type 0) : Type 0 where
    pub written : ReactivePolicy
    pub before : System W
    pub ends : out ≡ requeue p written poll before
    pub fresh : lookup key before.window ≡ none
    pub kept : K before.run.outside
    pub good : P written

  forget-fresh : (key : String) (w : List (String × Time)) → lookup key (forget key w) ≡ none
  unfolding forget
  forget-fresh key w = lookup-erase key key w ∙ rw eq_self refl

  -- The limiter hears of the trigger if the record was written.
  abbrev observed : Option Error → ReactivePolicy → Time → Act (System W) (Unit {0})
  observed failed policy now = elim failed [
    | some e ↦ pure tt
    | none ↦ in_limiter (observe_trigger policy.metadata.namespace policy.metadata.name now)
  ]

  observed-Keeps :
      (K : W → Type 0) (failed : Option Error) (policy : ReactivePolicy) (now : Time) (s : System W)
      → K s.run.outside
      → K (observed failed policy now s).1.run.outside
  observed-Keeps K none policy now s h = h
  observed-Keeps K (some e) policy now s h = h

  ungated-Ends :
      (K : W → Type 0) (kept : KeptByPipeline p wiring K) (policy : ReactivePolicy) (key : String)
      (now : Time) (poll : Duration) (results : List Result) (s : System W)
      → K s.run.outside
      → Ends K key poll
          (finish_ungated p wiring policy key now poll results s)
          (λ (q : ReactivePolicy).
            (q.metadata ≡ policy.metadata)
            × (q.spec ≡ policy.spec)
            × (q.status.trigger_count ≡ policy.status.trigger_count)
            × (q.status.last_triggered_at ≡ some now))
  unfolding finish_ungated
  ungated-Ends K kept policy key now poll results s h = record {
    written = _;
    before = _;
    ends = refl;
    fresh = forget-fresh key _;
    kept =
        observed-Keeps K _ policy now _ (write_audit-Keeps p wiring K kept _ now results s.run h);
    good = (refl, refl, refl, refl);
  }

  after_gated-last :
      (policy : ReactivePolicy) (now : Time) (gate_idx : ℕ) (written : Fallible ActionAudit)
      (s : System W)
      → let q = (after_gated p wiring policy now gate_idx written s).0 in
        (q.metadata ≡ policy.metadata)
        × (q.spec ≡ policy.spec)
        × (q.status.trigger_count ≡ policy.status.trigger_count)
        × (q.status.last_triggered_at ≡ policy.status.last_triggered_at)
  unfolding after_gated set_condition
  after_gated-last policy now gate_idx (err e) s = (refl, refl, refl, refl)
  after_gated-last policy now gate_idx (ok audit) s = (refl, refl, refl, refl)

  after_gated-Keeps :
      (K : W → Type 0) (policy : ReactivePolicy) (now : Time) (gate_idx : ℕ)
      (written : Fallible ActionAudit) (s : System W)
      → K s.run.outside
      → K (after_gated p wiring policy now gate_idx written s).1.run.outside
  unfolding after_gated
  after_gated-Keeps K policy now gate_idx (err e) s h = h
  after_gated-Keeps K policy now gate_idx (ok audit) s h = h

  gated-Ends :
      (K : W → Type 0) (kept : KeptByPipeline p wiring K) (policy : ReactivePolicy) (key : String)
      (now : Time) (poll : Duration) (targets : List Target) (gate_idx : ℕ) (results : List Result)
      (s : System W)
      → K s.run.outside
      → Ends K key poll
          (finish_gated p wiring policy key now poll targets gate_idx results s)
          (λ (q : ReactivePolicy).
            (q.metadata ≡ policy.metadata)
            × (q.spec ≡ policy.spec)
            × (q.status.trigger_count ≡ policy.status.trigger_count)
            × (q.status.last_triggered_at ≡ policy.status.last_triggered_at))
  unfolding finish_gated
  gated-Ends K kept policy key now poll targets gate_idx results s h = record {
    written = _;
    before = _;
    ends = refl;
    fresh = forget-fresh key _;
    kept =
        after_gated-Keeps K policy now gate_idx _ _
          (write_gated_audit-Keeps p wiring K kept policy now results gate_idx targets s.run h);
    good = after_gated-last policy now gate_idx _ _;
  }

  Ends-imp :
      (K : W → Type 0) (key : String) (poll : Duration) (out out' : Fallible Answer × System W)
      (P Q : ReactivePolicy → Type 0)
      → out' ≡ out
      → ((q : ReactivePolicy) → P q → Q q)
      → Ends K key poll out P
      → Ends K key poll out' Q
  Ends-imp K key poll out out' P Q e f h = record {
    written = h.written;
    before = h.before;
    ends = e ∙ h.ends;
    fresh = h.fresh;
    kept = h.kept;
    good = f h.written h.good;
  }

  abbrev piece :
      ReactivePolicy → List Target → ℕ → System W → (List Result × Option Error) × System W
  piece policy targets to s =
      run_targets p wiring policy policy.status.current_metric_value (pos 0) (pos to) targets []
        none s

  abbrev tallied : ReactivePolicy → System W → System W
  tallied policy s = (tally (record_trigger policy.metadata.namespace) s).1

  -- A trigger whose targets are resolved ends with a write of the policy's status, with metadata and
  -- spec as they were and one trigger more on its count, after the window for the policy was dropped,
  -- so that the next trigger needs a whole duration again. If the pipeline ran through, the time of
  -- the last trigger, from which the cooldown counts, is that of this reconcile; if it stopped at an
  -- approval gate, it is as it was. The status is not written before: a property of the outside that
  -- the clock, the plugins, the sink and the writes of an audit record keep still holds at the write.
  pub fire-Ends :
      (K : W → Type 0) (policy : ReactivePolicy) (key : String) (now : Time) (poll : Duration)
      (targets : List Target) (s : System W)
      → KeptByPipeline p wiring K
      → K s.run.outside
      → Ends K key poll (fire p wiring policy key now poll targets s) (λ (q : ReactivePolicy).
        Triggered policy q
        × (gate_index policy ≡ none → q.status.last_triggered_at ≡ some now)
        × ((g : ℕ)
            → gate_index policy ≡ some g
            → q.status.last_triggered_at ≡ policy.status.last_triggered_at))
  unfolding fire
  fire-Ends K policy key now poll targets s kept h = elim (Option-cases (gate_index policy)) [
    | inl e ↦
        let out = piece policy targets (length policy.spec.actions) s in
        let whole : fire p wiring policy key now poll targets s
            ≡ finish_ungated p wiring (counted p wiring policy) key now poll out.0.0
                (tallied policy out.1) =
          rw (fire, e) refl in
        Ends-imp K key poll _ _ _ _ whole (λ q (m, sp, n, t). ((m, sp, n), (λ _. t), λ g e'. cc))
          (ungated-Ends K kept _ key now poll _ _
            (run_targets-Keeps p wiring K kept policy _ _ _ targets [] none s h))
    | inr (g, e) ↦
        let out = piece policy targets g s in
        let whole : fire p wiring policy key now poll targets s
            ≡ finish_gated p wiring (counted p wiring policy) key now poll targets g out.0.0
                (tallied policy out.1) =
          rw (fire, e) refl in
        Ends-imp K key poll _ _ _ _ whole (λ q (m, sp, n, t). ((m, sp, n), (λ e'. cc), λ g e'. t))
          (gated-Ends K kept _ key now poll targets g _ _
            (run_targets-Keeps p wiring K kept policy _ _ _ targets [] none s h))
  ]
