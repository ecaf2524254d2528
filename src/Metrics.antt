-- ===== src/Metrics.antt =====
-- internal/metrics/metrics.go: the operator's own counters and the set of watched policies. The
-- Prometheus collectors belong to a library, so the state is the list of the updates that the code
-- makes to them, the newest first, and the tracker's map.
pub mod Tracker
use reactive_policy.Common.{
  ℕ, Duration, String, List, [], ◌∷◌, none, some, Assoc, lookup, insert, if◌then◌else◌, str_eq,
  length, keep_if, not,
}

pub data Collector : Type 0 where
  evaluations_total actions_total action_duration_seconds active_policies : Collector
  triggered_policies_total rate_limited_total prometheus_query_errors_total : Collector
  plugin_validation_errors_total approval_gates_opened_total approval_decisions_total : Collector
  approval_wait_seconds approval_gates_pending : Collector

-- One call on a collector with its label values. A histogram's sample is kept in nanoseconds.
pub data Update : Type 0 where
  inc dec : Collector → List String → Update
  set : Collector → List String → ℕ → Update
  observe : Collector → List String → Duration → Update

pub record Metrics : Type 0 where
  pub updates : List Update
  pub tracked : Assoc (List String)

abbrev update : Update → Metrics → Metrics
update u m = record m { updates = u ∷ m.updates }

pub data EvaluationResult : Type 0 where
  crossed within error : EvaluationResult

abbrev result_label : EvaluationResult → String
result_label crossed = "crossed"
result_label within = "within"
result_label error = "error"

unfoldable pub record_evaluation : String → String → EvaluationResult → Metrics → Metrics
record_evaluation policy namespace result m =
    update (inc evaluations_total (policy ∷ namespace ∷ result_label result ∷ [])) m

unfoldable pub record_action : String → String → String → Metrics → Metrics
record_action plugin target_kind result m =
    let kind = if str_eq target_kind "" then "none" else target_kind in
    update (inc actions_total (plugin ∷ kind ∷ result ∷ [])) m

unfoldable pub observe_action_duration : String → Duration → Metrics → Metrics
observe_action_duration plugin elapsed m =
    update (observe action_duration_seconds (plugin ∷ []) elapsed) m

unfoldable pub record_trigger : String → Metrics → Metrics
record_trigger namespace m = update (inc triggered_policies_total (namespace ∷ [])) m

unfoldable pub record_rate_limited : String → Metrics → Metrics
record_rate_limited namespace m = update (inc rate_limited_total (namespace ∷ [])) m

unfoldable pub record_query_error : Metrics → Metrics
record_query_error m = update (inc prometheus_query_errors_total []) m

unfoldable pub record_gate_opened : String → Metrics → Metrics
record_gate_opened namespace m =
    update (inc approval_gates_pending (namespace ∷ []))
      (update (inc approval_gates_opened_total (namespace ∷ [])) m)

unfoldable pub record_gate_resolved : String → String → Duration → Metrics → Metrics
record_gate_resolved namespace outcome waited m =
    update (dec approval_gates_pending (namespace ∷ [])) (
      update (observe approval_wait_seconds (outcome ∷ []) waited)
        (update (inc approval_decisions_total (namespace ∷ outcome ∷ [])) m))

unfoldable pub record_validation_error : String → Metrics → Metrics
record_validation_error plugin m = update (inc plugin_validation_errors_total (plugin ∷ [])) m

abbrev pub names_in : String → Metrics → List String
names_in namespace m = elim (lookup namespace m.tracked) [ none ↦ [] | some names ↦ names ]

abbrev pub drop_name : String → List String → List String
drop_name name names = keep_if (λ n. not (str_eq n name)) names

abbrev pub set_tracked : String → List String → Metrics → Metrics
set_tracked namespace names m =
    update (set active_policies (namespace ∷ []) (length names))
      (record m { tracked = insert namespace names m.tracked })

-- tracked[namespace][name] = struct{}{}; the inner map is a list without repetition.
unfoldable pub track_policy : String → String → Metrics → Metrics
track_policy namespace name m =
    set_tracked namespace (name ∷ drop_name name (names_in namespace m)) m

unfoldable pub untrack_policy : String → String → Metrics → Metrics
untrack_policy namespace name m = elim (lookup namespace m.tracked) [
  | none ↦ m
  | some names ↦ set_tracked namespace (drop_name name names) m
]
