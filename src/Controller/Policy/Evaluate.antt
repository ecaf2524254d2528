-- ===== src/Controller/Policy/Evaluate.antt =====
-- The evaluation at the end of Reconcile in reactivepolicy_controller.go: the metric is queried,
-- compared with the threshold, and a sustained crossing triggers the pipeline.
use reactive_policy.Common.{
  leb_ℤ, Time, Duration, String, [], ◌∷◌, some, Bool, true, false, Fallible, ok, err, Act, ◌>>=◌,
  ◌>>◌, ◌&&◌,
}
use reactive_policy.Api.{ReactivePolicy, ConditionStatus, PolicyState, ComparisonOperator}
use reactive_policy.Metrics.{EvaluationResult, record_evaluation, record_query_error}
use reactive_policy.Platform.{Platform, wrap}
use reactive_policy.Platform
use reactive_policy.Prometheus.{parse_threshold, compare}
use reactive_policy.Prometheus.Window.{forget, observe}
use reactive_policy.Controller.System.{System, Answer, Wiring, ask, tally, in_window}
use reactive_policy.Controller.Policy.Status.{set_condition, requeue, with_state}
use reactive_policy.Controller.Policy.Trigger.{trigger}

abbrev pub operator_text : ComparisonOperator → String
operator_text ComparisonOperator.greater_than = "GreaterThan"
operator_text ComparisonOperator.greater_than_or_equal = "GreaterThanOrEqual"
operator_text ComparisonOperator.less_than = "LessThan"
operator_text ComparisonOperator.less_than_or_equal = "LessThanOrEqual"
operator_text ComparisonOperator.equal = "Equal"
operator_text ComparisonOperator.not_equal = "NotEqual"
operator_text (ComparisonOperator.other s) = s

module _ {W F : Type 0} (p : Platform W F) where
  abbrev pub ready : String → String → ReactivePolicy → ReactivePolicy
  ready reason message policy =
      set_condition p "Ready" ConditionStatus.cond_true reason message policy

  abbrev pub evaluating : ReactivePolicy → ReactivePolicy
  evaluating policy = ready "Evaluating" "policy is being evaluated" policy

  -- The condition that says on which side of the threshold the value is.
  abbrev pub side_condition : Bool → ReactivePolicy → ReactivePolicy
  side_condition true policy =
      set_condition p "ThresholdCrossed" ConditionStatus.cond_true "ThresholdCrossed"
        (p.sprintf "value %s %s threshold %s" (
          Platform.Arg.text policy.status.current_metric_value
          ∷ Platform.Arg.text (operator_text policy.spec.observe.operator)
          ∷ Platform.Arg.text policy.spec.observe.threshold
          ∷ []))
        policy
  side_condition false policy =
      set_condition p "ThresholdCrossed" ConditionStatus.cond_false "WithinThreshold"
        "metric value is within the configured threshold" policy

  abbrev pub evaluation_result : Bool → EvaluationResult
  evaluation_result true = EvaluationResult.crossed
  evaluation_result false = EvaluationResult.within

  abbrev pub watched : ReactivePolicy → Time → ReactivePolicy
  watched policy now = record policy {
    status = record policy.status { state = PolicyState.watching; last_evaluated_at = some now };
  }

  abbrev pub valued : String → ReactivePolicy → ReactivePolicy
  valued text policy = record policy {
    status = record policy.status { current_metric_value = text };
  }

module _ {W F : Type 0} (p : Platform W F) (wiring : Wiring W F) where
  -- The end of Reconcile: the window, and the trigger once the condition is sustained.
  unfoldable pub decide :
      ReactivePolicy → String → Duration → Time → Bool → Act (System W) (Fallible Answer)
  decide policy key poll now crossed s =
      let out = observe key crossed now s.window in
      let s' = record s { window = out.1 } in
      let sustained = crossed && leb_ℤ policy.spec.observe.duration out.0 in
      let policy' = side_condition p crossed policy in
      elim sustained [
        | true ↦ trigger p wiring policy' key now poll s'
        | false ↦ requeue p policy' poll s'
      ]

  -- From a successful query on: the threshold, and the comparison.
  unfoldable pub judge :
      ReactivePolicy → String → Duration → Time → F → Act (System W) (Fallible Answer)
  judge policy key poll now value =
      let policy' = valued p (p.format_float value) (
        set_condition p "MetricSourceReachable" ConditionStatus.cond_true "QuerySucceeded"
          "metric query succeeded" policy) in
      elim (parse_threshold p policy.spec.observe.threshold) [
        | err e ↦ (do
          tally (
              record_evaluation policy.metadata.name policy.metadata.namespace
                EvaluationResult.error)
          requeue p
              (set_condition p "Ready" ConditionStatus.cond_false "InvalidThreshold" e.message
                (with_state PolicyState.invalid policy'))
              poll)
        | ok threshold ↦
            let crossed = compare p value threshold policy.spec.observe.operator in
            (do
              tally (
                  record_evaluation policy.metadata.name policy.metadata.namespace
                    (evaluation_result p crossed))
              decide (evaluating p policy') key poll now crossed)
      ]

  -- The two answers of a query.
  unfoldable pub answered :
      ReactivePolicy → String → Duration → Time → Fallible F → Act (System W) (Fallible Answer)
  answered policy key poll now (ok value) = judge policy key poll now value
  answered policy key poll now (err e) = do
    tally record_query_error
    tally (record_evaluation policy.metadata.name policy.metadata.namespace EvaluationResult.error)
    in_window (forget key)
    requeue p
        (evaluating p (
          set_condition p "MetricSourceReachable" ConditionStatus.cond_false "QueryFailed" e.message
            policy))
        poll

  -- The metric source is asked.
  unfoldable pub evaluate :
      ReactivePolicy → String → Duration → Time → Act (System W) (Fallible Answer)
  evaluate policy key poll now =
      let policy' =
        set_condition p "RateLimited" ConditionStatus.cond_false "WithinLimit"
          "policy is within its trigger rate limit" (watched p policy now) in
      elim (wiring.prometheus policy.spec.observe.endpoint) [
        | err e ↦ (do
          tally (
              record_evaluation policy.metadata.name policy.metadata.namespace
                EvaluationResult.error)
          requeue p
              (evaluating p (
                set_condition p "MetricSourceReachable" ConditionStatus.cond_false "ClientError"
                  e.message policy'))
              poll)
        | ok query ↦ (do
          answer ← ask (query policy.spec.observe.query)
          answered policy' key poll now answer)
      ]
