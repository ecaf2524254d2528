-- ===== src/Cli/DryRun.antt =====
-- dryRun of pkg/cli/policy.go: what a policy would do now, without doing it.
pub mod Faithful
use reactive_policy.Common.{
  ℕ, suc, ℤ, pos, Duration, String, List, [], ◌∷◌, ◌++◌, Option, none, some, Bool, true, false,
  ◌&&◌, Assoc, Error, Fallible, ok, err, if◌then◌else◌,
}
use reactive_policy.Api.{ReactivePolicy, ComparisonOperator, FailurePolicy}
use reactive_policy.Api.Policy.{Action}
use reactive_policy.Platform.{Platform, Arg}
use reactive_policy.Action.Types.{Plugin}
use reactive_policy.Action.Registry.{lookup_plugin}
use reactive_policy.Prometheus.{parse_threshold, compare}

pub record DryRunAction : Type 0 where
  pub index : ℕ
  pub plugin : String
  pub reversible : Bool
  pub on_failure : FailurePolicy
  pub is_valid : Bool
  pub problem : String

-- The required duration is kept as it is; the report prints it.
pub record DryRunReport : Type 0 where
  pub policy : String
  pub namespace : String
  pub metric_value : String
  pub threshold : String
  pub operator : ComparisonOperator
  pub crossed : Bool
  pub duration_required : Duration
  pub query_error : String
  pub actions : List DryRunAction
  pub would_trigger : Bool

abbrev pub or_stop : FailurePolicy → FailurePolicy
or_stop FailurePolicy.unset = FailurePolicy.stop
or_stop policy = policy

module _ {W F : Type 0} (p : Platform W F) (plugins : Assoc (Plugin W)) where
  abbrev entry_for : ℕ → Action → Option (Plugin W) → DryRunAction
  entry_for i act none = record {
    index = i;
    plugin = act.plugin;
    reversible = false;
    on_failure = or_stop act.on_failure;
    is_valid = false;
    problem = "plugin not registered";
  }
  entry_for i act (some plugin) = record {
    index = i;
    plugin = act.plugin;
    reversible = plugin.is_reversible;
    on_failure = or_stop act.on_failure;
    is_valid = elim (plugin.validate act.params) [ none ↦ true | some e ↦ false ];
    problem = elim (plugin.validate act.params) [ none ↦ "" | some e ↦ e.message ];
  }

  -- the loop over the actions, from index `i`
  unfoldable pub dry_run_actions : ℕ → List Action → List DryRunAction
  dry_run_actions i [] = []
  dry_run_actions i (act ∷ rest) =
      entry_for i act (lookup_plugin plugins act.plugin) ∷ dry_run_actions (suc i) rest

  abbrev pub actions_valid : List DryRunAction → Bool
  actions_valid [] = true
  actions_valid (entry ∷ rest) = entry.is_valid && actions_valid rest

  -- The report before the metric source was asked
  abbrev pub opened : ReactivePolicy → DryRunReport
  opened policy = record {
    policy = policy.metadata.name;
    namespace = policy.metadata.namespace;
    metric_value = "";
    threshold = policy.spec.observe.threshold;
    operator = policy.spec.observe.operator;
    crossed = false;
    duration_required = policy.spec.observe.duration;
    query_error = "";
    actions = dry_run_actions 0 policy.spec.actions;
    would_trigger = false;
  }

  abbrev on_threshold : DryRunReport → F → Fallible F → DryRunReport
  on_threshold report value (err e) = record report {
    query_error = p.sprintf "invalid threshold: %v" (Arg.text e.message ∷ []);
  }
  on_threshold report value (ok threshold) =
      let crossed = compare p value threshold report.operator in
      record report { crossed = crossed; would_trigger = crossed && actions_valid report.actions }

  abbrev on_value : DryRunReport → Fallible F → DryRunReport
  on_value report (err e) = record report { query_error = e.message }
  on_value report (ok value) =
      on_threshold (record report { metric_value = p.format_float value }) value
        (parse_threshold p report.threshold)

  -- dryRun
  unfoldable pub dry_run :
      (String → Fallible (String → W → Fallible F × W)) → ReactivePolicy → W → DryRunReport × W
  unfolding dry_run_actions lookup_plugin parse_threshold compare
  dry_run prometheus policy w = elim (prometheus policy.spec.observe.endpoint) [
    | err e ↦ (record (opened policy) { query_error = e.message }, w)
    | ok query ↦
        let (answer, w') = query policy.spec.observe.query w in
        (on_value (opened policy) answer, w')
  ]
