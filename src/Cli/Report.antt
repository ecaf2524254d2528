-- ===== src/Cli/Report.antt =====
-- The reports of pkg/cli: describePolicy and printDryRun of policy.go, and `plugin list` of plugin.go.
use reactive_policy.Common.{
  ℕ, suc, ℤ, pos, ltb_ℤ, Time, Duration, String, List, [], ◌∷◌, ◌++◌, length, Option, none, some,
  Fallible, ok, err, Assoc, Bool, str_eq, if◌then◌else◌,
}
use reactive_policy.Api.{ReactivePolicy}
use reactive_policy.Api.Meta.{Condition}
use reactive_policy.Api.Policy.{Action}
use reactive_policy.Platform.{Platform, Arg, wrap}
use reactive_policy.Action.Types.{Plugin}
use reactive_policy.Cli.DryRun.{DryRunReport, DryRunAction, or_stop}
use reactive_policy.Action.Permissions.{text_lt, all_plugins}
use reactive_policy.Cli.Audits.{namespace_of}
use reactive_policy.Controller.Policy.Evaluate.{operator_text}
use reactive_policy.Cli.Print.{
  state_text, source_text, failure_text, bool_text, condition_text, or_none, Colour, colorize, age,
}

-- pluginInfo
pub record PluginInfo : Type 0 where
  pub name : String
  pub reversible : Bool
  pub permissions : ℕ
  pub description : String

abbrev info_of : {W : Type 0} → Plugin W → PluginInfo
info_of plugin = record {
  name = plugin.name;
  reversible = plugin.is_reversible;
  permissions = length plugin.required_permissions;
  description = plugin.description;
}

-- `sort.Slice` by the name
unfoldable pub insert_info : PluginInfo → List PluginInfo → List PluginInfo
insert_info info [] = info ∷ []
insert_info info (other ∷ rest) =
    if text_lt other.name info.name then other ∷ insert_info info rest else info ∷ other ∷ rest

-- The loop over the plugins and the sort
unfoldable pub plugin_infos : {W : Type 0} → List (Plugin W) → List PluginInfo
unfolding insert_info
plugin_infos [] = []
plugin_infos (plugin ∷ rest) = insert_info (info_of plugin) (plugin_infos rest)

-- `plugin list`
unfoldable pub plugin_list : {W : Type 0} → Assoc (Plugin W) → List PluginInfo
unfolding plugin_infos all_plugins
plugin_list plugins = plugin_infos (all_plugins plugins)

-- The policy that `policy get` and `policy describe` show
unfoldable pub policy_to_show :
    {W F : Type 0} → Platform W F → String → String → W → Fallible ReactivePolicy × W
unfolding namespace_of
policy_to_show p given name w =
    let (answer, w') = p.get_policy (namespace_of given) name w in
    elim answer [
      | err e ↦ (err (wrap p "getting policy %q: %w" (Arg.text name ∷ []) e), w')
      | ok policy ↦ (ok policy, w')
    ]

module _ {W F : Type 0} (p : Platform W F) (human : Duration → String)
    (paint : Option (Colour → String → String)) where
  abbrev dry_run_status : DryRunAction → String
  dry_run_status a = if a.is_valid then "ok" else p.sprintf "INVALID: %s" (Arg.text a.problem ∷ [])

  abbrev dry_run_rows : List DryRunAction → List String
  dry_run_rows [] = []
  dry_run_rows (a ∷ rest) =
      p.sprintf "  %d. %s (reversible=%t, onFailure=%s) [%s]\n" (
        Arg.number (pos a.index)
        ∷ Arg.text a.plugin
        ∷ Arg.text (bool_text a.reversible)
        ∷ Arg.text (failure_text a.on_failure)
        ∷ Arg.text (dry_run_status a)
        ∷ [])
      ∷ dry_run_rows rest

  abbrev metric_lines : DryRunReport → List String
  metric_lines r =
      if str_eq r.query_error ""
      then p.sprintf "Metric:    %s (threshold: %s %s)\n" (
          Arg.text r.metric_value ∷ Arg.text (operator_text r.operator) ∷ Arg.text r.threshold ∷ [])
        ∷ p.sprintf "Crossed:   %t (must hold for %s before a real trigger)\n"
            (Arg.text (bool_text r.crossed) ∷ Arg.duration r.duration_required ∷ [])
        ∷ []
      else p.sprintf "Metric:    error: %s\n" (Arg.text r.query_error ∷ []) ∷ []

  -- printDryRun
  unfoldable pub print_dry_run : DryRunReport → List String
  print_dry_run r =
      p.sprintf "Policy:    %s/%s\n" (Arg.text r.namespace ∷ Arg.text r.policy ∷ [])
        ∷ metric_lines r
      ++ "Actions that would run:" ∷ dry_run_rows r.actions
      ++ p.sprintf "Would trigger now: %t\n" (Arg.text (bool_text r.would_trigger) ∷ []) ∷ []

  abbrev plugin_rows : List PluginInfo → List String
  plugin_rows [] = []
  plugin_rows (info ∷ rest) =
      p.sprintf "%s\t%t\t%d\t%s\n" (
        Arg.text info.name
        ∷ Arg.text (bool_text info.reversible)
        ∷ Arg.number (pos info.permissions)
        ∷ Arg.text info.description
        ∷ [])
      ∷ plugin_rows rest

  -- printPluginTable
  unfoldable pub print_plugin_table : List PluginInfo → List String
  print_plugin_table infos = "NAME\tREVERSIBLE\tPERMISSIONS\tDESCRIPTION" ∷ plugin_rows infos

  abbrev line : String → List Arg → List String
  line format args = p.sprintf format args ∷ []

  abbrev when_fired : Option Time → W → List String × W
  when_fired none w = ([], w)
  when_fired (some t) w =
      let (old, w') = age p human paint t w in
      (line "Last fired:  %s ago\n" (Arg.text old ∷ []), w')

  abbrev poll_line : Duration → List String
  poll_line d = if ltb_ℤ (pos 0) d then line "  Poll:      %s\n" (Arg.duration d ∷ []) else []

  abbrev cap_line : Option ℤ → List String
  cap_line none = []
  cap_line (some n) = line "Max/hour:    %d\n" (Arg.number n ∷ [])

  abbrev action_lines : ℕ → List Action → List String
  action_lines i [] = []
  action_lines i (a ∷ rest) =
      p.sprintf "  %d. %s (onFailure=%s)\n" (
        Arg.number (pos i)
        ∷ Arg.text a.plugin
        ∷ Arg.text (failure_text (or_stop a.on_failure))
        ∷ [])
      ∷ action_lines (suc i) rest

  abbrev condition_rows : List Condition → List String
  condition_rows [] = []
  condition_rows (c ∷ rest) =
      p.sprintf "  %s\t%s\t%s\t%s\n" (
        Arg.text c.condition_type
        ∷ Arg.text (condition_text c.status)
        ∷ Arg.text c.reason
        ∷ Arg.text c.message
        ∷ [])
      ∷ condition_rows rest

  abbrev condition_lines : List Condition → List String
  condition_lines [] = []
  condition_lines (c ∷ rest) =
      "Conditions:" ∷ "  TYPE\tSTATUS\tREASON\tMESSAGE" ∷ condition_rows (c ∷ rest)

  abbrev status_lines : ReactivePolicy → List String
  status_lines policy =
      line "Name:        %s\n" (Arg.text policy.metadata.name ∷ [])
      ++ line "Namespace:   %s\n" (Arg.text policy.metadata.namespace ∷ [])
      ++ line "State:       %s\n"
          (Arg.text (colorize p human paint (state_text policy.status.state)) ∷ [])
      ++ line "Value:       %s\n" (Arg.text (or_none policy.status.current_metric_value) ∷ [])
      ++ line "Triggers:    %d\n" (Arg.number policy.status.trigger_count ∷ [])

  abbrev spec_lines : ReactivePolicy → List String
  spec_lines policy =
      "Observe:" ∷ line "  Source:    %s\n" (Arg.text (source_text policy.spec.observe.source) ∷ [])
      ++ line "  Endpoint:  %s\n" (Arg.text policy.spec.observe.endpoint ∷ [])
      ++ line "  Query:     %s\n" (Arg.text policy.spec.observe.query ∷ [])
      ++ line "  Condition: value %s %s for %s\n" (
          Arg.text (operator_text policy.spec.observe.operator)
          ∷ Arg.text policy.spec.observe.threshold
          ∷ Arg.duration policy.spec.observe.duration
          ∷ [])
      ++ poll_line policy.spec.observe.poll_interval
      ++ line "Cooldown:    %s\n" (Arg.duration policy.spec.cooldown ∷ [])
      ++ cap_line policy.spec.max_triggers_per_hour
      ++ "Actions:" ∷ action_lines 0 policy.spec.actions
      ++ condition_lines policy.status.conditions

  -- describePolicy
  unfoldable pub describe_policy : ReactivePolicy → W → List String × W
  unfolding colorize age
  describe_policy policy w =
      let (fired, w') = when_fired policy.status.last_triggered_at w in
      (status_lines policy ++ fired ++ spec_lines policy, w')
