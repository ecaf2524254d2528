-- ===== src/Controller/Policy/Fires.antt =====
-- When a reconcile of a policy triggers its pipeline: only past every gate.
use reactive_policy.Common.{
  ℕ, leb_ℤ, leb_ℤ→le, ◌≤ℤ◌, Time, Duration, String, Bool, true, false, ◌&&◌, both, Fallible, ok,
  err, Assoc, refl, Fallible-cases, count_if, ◌≡◌, ◌⊎◌, inl, inr, arith, Bool-cases,
}
use reactive_policy.Api.{ReactivePolicy, ConditionStatus}
use reactive_policy.Metrics.{Collector, Update, Metrics, record_evaluation, record_query_error}
use reactive_policy.Platform.{Platform}
use reactive_policy.Action.Types.{Plugin}
use reactive_policy.Prometheus.{parse_threshold, compare}
use reactive_policy.Prometheus.Window.{observe}
use reactive_policy.Controller.System.{System, Answer, Wiring}
use reactive_policy.Controller.Policy.Status.{set_condition, requeue}
use reactive_policy.Controller.Policy.Confined.{with_plugins}
use reactive_policy.Controller.Policy.Evaluate.{
  decide, judge, answered, evaluate, side_condition, evaluating, valued, watched, evaluation_result,
}

abbrev is_trigger : Update → Bool
is_trigger (Update.inc Collector.triggered_policies_total labels) = true
is_trigger u = false

-- How often the trigger counter was incremented.
unfoldable pub triggers : Metrics → ℕ
triggers m = count_if is_trigger m.updates

module _ {W F : Type 0} (p : Platform W F) (wiring : Wiring W F) where
  abbrev pub count : Fallible Answer × System W → ℕ
  count out = triggers out.1.run.metrics

  pub requeue-count :
      (policy : ReactivePolicy) (delay : Duration) (s : System W)
      → count (requeue p policy delay s) ≡ triggers s.run.metrics
  unfolding requeue
  requeue-count policy delay s = ground arith

  -- A step that does not trigger: it leaves the trigger counter as it was, and does the same with
  -- other plugins, so that it runs none.
  abbrev pub Still :
      Assoc (Plugin W) → (Wiring W F → Fallible Answer × System W) → System W → Type 0
  Still others step s =
      (count (step wiring) ≡ triggers s.run.metrics)
      × (step wiring ≡ step (with_plugins p wiring others))

  -- The value is past the threshold, and has been for the duration.
  abbrev Sustained : ReactivePolicy → String → Time → Bool → System W → Type 0
  Sustained policy key now crossed s =
      (crossed ≡ true) × (policy.spec.observe.duration ≤ℤ (observe key crossed now s.window).0)

  decide-count :
      (others : Assoc (Plugin W)) (policy : ReactivePolicy) (key : String) (poll : Duration)
      (now : Time) (crossed : Bool) (s : System W)
      → Still others (λ wi. decide p wi policy key poll now crossed s) s
        ⊎ Sustained policy key now crossed s
  unfolding decide
  decide-count others policy key poll now crossed s =
      let out = observe key crossed now s.window in
      elim (Bool-cases (crossed && leb_ℤ policy.spec.observe.duration out.0)) [
        | inl e ↦
            let parts = both crossed _ e in
            inr (parts.0, leb_ℤ→le policy.spec.observe.duration out.0 parts.1)
        | inr e ↦
            let same =
              requeue-count (side_condition p crossed policy) poll (record s { window = out.1 }) in
            inl (ground arith, ground arith)
      ]

  -- The value was judged: the threshold is a number, the value is past it, and has been for the
  -- duration.
  abbrev Judged : ReactivePolicy → String → Time → F → System W → Type 0
  Judged policy key now value s =
      (threshold : F) × (parse_threshold p policy.spec.observe.threshold ≡ ok threshold)
      × (compare p value threshold policy.spec.observe.operator ≡ true)
      × (policy.spec.observe.duration ≤ℤ (observe key true now s.window).0)

  Sustained-Judged :
      (policy : ReactivePolicy) (key : String) (now : Time) (value threshold : F) (s : System W)
      → parse_threshold p policy.spec.observe.threshold ≡ ok threshold
      → Sustained policy key now (compare p value threshold policy.spec.observe.operator) s
      → Judged policy key now value s
  Sustained-Judged policy key now value threshold s e (past, long) =
      (threshold, e, past, rw past at long)

  judge-count :
      (others : Assoc (Plugin W)) (policy : ReactivePolicy) (key : String) (poll : Duration)
      (now : Time) (value : F) (s : System W)
      → Still others (λ wi. judge p wi policy key poll now value s) s
        ⊎ Judged policy key now value s
  unfolding judge set_condition triggers record_evaluation
  judge-count others policy key poll now value s =
      let policy' = valued p (p.format_float value) (
        set_condition p "MetricSourceReachable" ConditionStatus.cond_true "QuerySucceeded"
          "metric query succeeded" policy) in
      elim (Fallible-cases (parse_threshold p policy.spec.observe.threshold)) [
        | inl (threshold, e) ↦
            let crossed = compare p value threshold policy.spec.observe.operator in
            let s' = record s {
              run = record s.run {
                metrics =
                    record_evaluation policy.metadata.name policy.metadata.namespace
                      (evaluation_result p crossed) s.run.metrics;
              };
            } in
            elim (decide-count others (evaluating p policy') key poll now crossed s') [
              | inl same ↦ inl (rw (judge, e) same)
              | inr sustained ↦ inr (Sustained-Judged policy key now value threshold s e sustained)
            ]
        | inr (e, bad) ↦ inl (rw (judge, bad) (requeue-count _ poll _, refl))
      ]

  -- The answer is a value, and the value triggers.
  abbrev Answered : ReactivePolicy → String → Time → Fallible F → System W → Type 0
  Answered policy key now (err e) s = ⊥
  Answered policy key now (ok value) s = Judged policy key now value s

  answered-count :
      (others : Assoc (Plugin W)) (policy : ReactivePolicy) (key : String) (poll : Duration)
      (now : Time) (r : Fallible F) (s : System W)
      → Still others (λ wi. answered p wi policy key poll now r s) s ⊎ Answered policy key now r s
  unfolding answered triggers record_evaluation record_query_error
  answered-count others policy key poll now (ok value) s =
      judge-count others policy key poll now value s
  answered-count others policy key poll now (err e) s = inl (requeue-count _ poll _, refl)

  -- The metric source can be asked, and its answer triggers.
  abbrev pub Evaluated : ReactivePolicy → String → Time → System W → Type 0
  Evaluated policy key now s =
      (query : String → W → Fallible F × W) × (wiring.prometheus policy.spec.observe.endpoint
        ≡ ok query)
      × Answered policy key now (query policy.spec.observe.query s.run.outside).0 s

  Answered-watched :
      (policy : ReactivePolicy) (key : String) (now : Time) (r : Fallible F) (w : W) (s : System W)
      → Answered
          (set_condition p "RateLimited" ConditionStatus.cond_false "WithinLimit"
            "policy is within its trigger rate limit"
            (watched p policy now))
          key
          now
          r
          (record s { run = record s.run { outside = w } })
      → Answered policy key now r s
  unfolding set_condition
  Answered-watched policy key now (ok value) w s h = h
  Answered-watched policy key now (err e) w s h = absurd h

  pub evaluate-count :
      (others : Assoc (Plugin W)) (policy : ReactivePolicy) (key : String) (poll : Duration)
      (now : Time) (s : System W)
      → Still others (λ wi. evaluate p wi policy key poll now s) s ⊎ Evaluated policy key now s
  unfolding evaluate set_condition triggers record_evaluation
  evaluate-count others policy key poll now s =
      elim (Fallible-cases (wiring.prometheus policy.spec.observe.endpoint)) [
        | inr (e, bad) ↦ inl (rw (evaluate, bad) (requeue-count _ poll _, refl))
        | inl (query, e) ↦
            let out = query policy.spec.observe.query s.run.outside in
            elim (answered-count others
              (set_condition p "RateLimited" ConditionStatus.cond_false "WithinLimit"
                "policy is within its trigger rate limit" (watched p policy now))
              key poll now out.0 (record s { run = record s.run { outside = out.1 } })) [
                | inl same ↦ inl (rw (evaluate, e) same)
                | inr answer ↦ inr (query, e, Answered-watched policy key now out.0 out.1 s answer)
              ]
      ]
