-- ===== src/Action/Executor.antt =====
-- internal/action/executor.go. The executor works on the outside state and the metrics; log lines
-- are left out.
pub mod Aimed
pub mod Results
pub mod Rollback
pub mod Held
pub mod Reach
pub mod Keeps
use reactive_policy.Common.{
  ℕ, suc, ℤ, pos, pos_part, ltb_ℤ, leb_ℤ, Time, time_sub, String, List, [], ◌∷◌, ◌++◌, Option, none,
  some, Bool, true, false, Assoc, insert, Error, ErrorKind, Act, ◌>>=◌, ◌>>◌, pure, if◌then◌else◌,
  length, take, drop, str_eq, ◌-◌,
}
use reactive_policy.Api.{ReactivePolicy, ResultStatus, status_is_unset}
use reactive_policy.Api.Policy.{Action}
use reactive_policy.Api.{FailurePolicy}
use reactive_policy.Metrics.{Metrics, record_action, observe_action_duration}
use reactive_policy.Platform.{Platform, wrap}
use reactive_policy.Platform
use reactive_policy.Action.Types.{Target, Value, Details, Result, ExecuteInput, Plugin}
use reactive_policy.Action.Registry.{lookup_plugin}

-- The state that a pipeline runs on.
pub record Run (W : Type 0) : Type 0 where
  pub outside : W
  pub metrics : Metrics

module _ {W : Type 0} where
  -- A call of something outside.
  abbrev pub call : {A : Type 0} → (W → A × W) → Act (Run W) A
  call m s = ((m s.outside).0, record s { outside = (m s.outside).1 })

  abbrev pub count : (Metrics → Metrics) → Act (Run W) (Unit {0})
  count f s = (tt, record s { metrics = f s.metrics })

abbrev pub status_text : ResultStatus → String
status_text ResultStatus.unset = ""
status_text ResultStatus.succeeded = "Succeeded"
status_text ResultStatus.failed = "Failed"
status_text ResultStatus.skipped = "Skipped"
status_text (ResultStatus.other s) = s

abbrev pub err_invalid_params : Error
err_invalid_params = record { kind = ErrorKind.invalid_params; message = "invalid params" }

abbrev pub is_succeeded : ResultStatus → Bool
is_succeeded ResultStatus.succeeded = true
is_succeeded _ = false

-- annotate
unfoldable pub annotate : Result → String → Value → Result
annotate res key value = record res { details = insert key value res.details }

-- The first gated action of a list, counted from `i`.
abbrev pub gate_from : ℕ → List Action → Option ℕ
gate_from i [] = none
gate_from i (act ∷ rest) = if act.requires_approval then some i else gate_from (suc i) rest

-- GateIndex; `none` is -1
unfoldable pub gate_index : ReactivePolicy → Option ℕ
gate_index policy = gate_from 0 policy.spec.actions

module _ {W F : Type 0} (p : Platform W F) (plugins : Assoc (Plugin W)) where
  -- templateData
  unfoldable pub template_data : ReactivePolicy → Target → String → Time → Details
  template_data policy target metric_value ts =
      ("PolicyName", Value.text policy.metadata.name)
      ∷ ("Namespace", Value.text policy.metadata.namespace)
      ∷ ("MetricValue", Value.text metric_value)
      ∷ ("Timestamp", Value.text (p.format_time ts))
      ∷ ("Target", Value.target target)
      ∷ []

  -- What runOne fills in after Execute returned: the plugin's name, the time, the target, and the
  -- status and message that the error stands for.
  abbrev fill_status : Option Error → Result → Result
  fill_status none res =
      if status_is_unset res.status then record res { status = ResultStatus.succeeded } else res
  fill_status (some e) res =
      let res' =
        if status_is_unset res.status then record res { status = ResultStatus.failed } else res in
      if str_eq res'.message "" then record res' { message = e.message } else res'

  abbrev named : Plugin W → Result → Result
  named plugin res =
      if str_eq res.plugin_name "" then record res { plugin_name = plugin.name } else res

  abbrev stamped : Result → Act (Run W) Result
  stamped res = elim res.timestamp [
    | some t ↦ pure res
    | none ↦ (do t ← call p.now; pure (record res { timestamp = some t }))
  ]

  unfoldable pub normalize : Plugin W → Target → Result × Option Error → Act (Run W) Result
  normalize plugin target (res, e) = do
    res' ← stamped (named plugin res)
    pure (fill_status e (record res' { target = target }))

  abbrev unregistered : Action → Target → Time → Result
  unregistered act target t = record {
    action_id = "";
    plugin_name = act.plugin;
    target = target;
    timestamp = some t;
    status = ResultStatus.failed;
    message = "plugin not registered";
    details = [];
  }

  abbrev pub input_of : ReactivePolicy → Action → Target → String → Time → Details → ExecuteInput
  input_of policy act target metric_value ts tmpl = record {
    target = target;
    params = act.params;
    policy_name = policy.metadata.name;
    namespace = policy.metadata.namespace;
    metric_value = metric_value;
    timestamp = ts;
    template_data = tmpl;
  }

  -- runOne
  unfoldable pub run_one :
      ReactivePolicy
      → Action
      → Target
      → String
      → Time
      → Details
      → Act (Run W) (Result × Option Error)
  run_one policy act target metric_value ts tmpl = elim (lookup_plugin plugins act.plugin) [
    | none ↦ (do
      count (record_action act.plugin target.kind (status_text ResultStatus.failed))
      t ← call p.now
      pure (
        unregistered act target t,
        some (wrap p "plugin %q: %w" (Platform.Arg.text act.plugin ∷ []) err_invalid_params),
      ))
    | some plugin ↦ (do
      start ← call p.now
      out ← call (plugin.execute (input_of policy act target metric_value ts tmpl))
      finish ← call p.now
      count (observe_action_duration plugin.name (time_sub finish start))
      res ← normalize plugin target out
      count (record_action plugin.name target.kind (status_text res.status))
      pure (res, out.1))
  ]

  -- One result of a rollback: reversed if it succeeded and its plugin is there.
  unfoldable pub roll_back_one : Result → Act (Run W) Result
  roll_back_one res =
      if is_succeeded res.status
      then elim (lookup_plugin plugins res.plugin_name) [
        | none ↦ pure res
        | some plugin ↦ (do
          e ← call (plugin.reverse res)
          pure (elim e [
            | some failure ↦ annotate res "rollbackError" (Value.text failure.message)
            | none ↦ annotate res "reversed" (Value.bool true)
          ]))
      ]
      else pure res

  -- rollback, from the last result to the first: the loop treats the tail before the head.
  unfoldable pub rollback : List Result → Act (Run W) (List Result)
  rollback [] = pure []
  rollback (res ∷ rest) = do rest' ← rollback rest; res' ← roll_back_one res; pure (res' ∷ rest')

  abbrev failure_error : String → ℕ → Action → Error → Error
  failure_error format i act e =
      wrap p format (Platform.Arg.number (pos i) ∷ Platform.Arg.text act.plugin ∷ []) e

  -- What follows a failed action in RunRange, by its onFailure; an empty one means stop.
  unfoldable pub on_failed :
      FailurePolicy
      → ℕ
      → Action
      → Error
      → List Result
      → Act (Run W) (List Result × Option Error)
      → Act (Run W) (List Result × Option Error)
  on_failed FailurePolicy.continue i act e results go_on = go_on
  on_failed FailurePolicy.rollback i act e results go_on = do
    rolled ← rollback results
    pure (
      rolled,
      some (failure_error "action %d (%s) failed, rolled back preceding actions: %w" i act e),
    )
  on_failed _ i act e results go_on =
      pure (results, some (failure_error "action %d (%s) failed, pipeline stopped: %w" i act e))

  unfoldable pub after_one :
      Option Error
      → ℕ
      → Action
      → List Result
      → Act (Run W) (List Result × Option Error)
      → Act (Run W) (List Result × Option Error)
  unfolding on_failed
  after_one none i act results go_on = go_on
  after_one (some e) i act results go_on = on_failed act.on_failure i act e results go_on

  -- The loop of RunRange over the actions that are left, the first of them at position `i`.
  unfoldable pub run_loop :
      ReactivePolicy
      → Target
      → String
      → Time
      → Details
      → ℕ
      → List Action
      → List Result
      → Act (Run W) (List Result × Option Error)
  run_loop policy target metric_value ts tmpl i [] results = pure (results, none)
  run_loop policy target metric_value ts tmpl i (act ∷ rest) results = do
    out ← run_one policy act target metric_value ts tmpl
    let results' = results ++ out.0 ∷ []
    let go_on = run_loop policy target metric_value ts tmpl (suc i) rest results'
    after_one out.1 i act results' go_on

  -- RunRange: the actions [from, to) against one target.
  unfoldable pub run_range :
      ReactivePolicy → Target → String → ℤ → ℤ → Act (Run W) (List Result × Option Error)
  run_range policy target metric_value from to =
      let n = length policy.spec.actions in
      let from' = if ltb_ℤ from (pos 0) then pos 0 else from in
      let to' = if ltb_ℤ (pos n) to then pos n else to in
      if leb_ℤ to' from' then pure ([], none) else do
        ts ← call p.now
        run_loop policy target metric_value ts (template_data policy target metric_value ts)
            (pos_part from')
            (take (pos_part to' - pos_part from') (drop (pos_part from') policy.spec.actions)) []

  -- Run: the whole pipeline.
  unfoldable pub run : ReactivePolicy → Target → String → Act (Run W) (List Result × Option Error)
  run policy target metric_value =
      run_range policy target metric_value (pos 0) (pos (length policy.spec.actions))
