-- ===== src/Examples/Plugins.antt =====
-- The plugins at work in the lab.
use reactive_policy.Common.{
  pos, String, List, [], ◌∷◌, Option, none, some, true, false, not, ◌||◌, ◌&&◌, lookup, All, ok,
  ◌≡◌, refl, ap, arith, if◌then◌else◌, str_eq,
}
use reactive_policy.Api.{ResultStatus}
use reactive_policy.Action.Types.{Plugin, PolicyRule, Value, Fields}
use reactive_policy.Action.Values.{member, delete_member}
use reactive_policy.Action.Permissions.{required, aggregate_permissions}
use reactive_policy.Action.Permissions.Grants.{some_grants, aggregate_permissions-grants}
use reactive_policy.Plugins.Kit.{unmarshal, NetworkPolicy, PolicyType, Protocol, text_of, ◌>>=◌}
use reactive_policy.Plugins.Steps.{Holds}
use reactive_policy.Plugins.BuiltIn.{built_in}
use reactive_policy.Plugins.Needs.{built_in-IsPlainRule}
use reactive_policy.Plugins.Contract.{FulfilsContract, built_in-FulfilsContract}
use reactive_policy.Plugins.MeshShift.Weights.{
  BackendChange, MeshParams, apply_weight, apply_rules, rules_path,
}
use reactive_policy.Plugins.MeshShift.Drained.{RuleAt, apply_weight-RuleAt}
use reactive_policy.Plugins.MeshShift.Refs.{RuleHasWeights}
use reactive_policy.Plugins.MeshShift.RoundTrip.{IsLens}
use reactive_policy.Plugins.MeshShift.Shift.{change_items, mesh_shift, validate_mesh, route_target}
use reactive_policy.Plugins.MeshShift.Undo.{reverse_mesh-execute}
use reactive_policy.Plugins.Isolate.Policy.{
  IsolateParams, desired_policy, network_isolate, is_empty, isolates_ingress, isolates_egress,
  allow_dns,
}
use reactive_policy.Plugins.Isolate.Traffic.{allows, is_dns, desired_policy-allows}
use reactive_policy.Plugins.Annotate.{k8s_annotate, or_empty}
use reactive_policy.Plugins.Annotate.Undo.{reverse-execute}
use reactive_policy.Plugins.Suspend.{argocd_suspend, sync_policy, reason_annotation}
use reactive_policy.Plugins.Suspend.Resume.{IsSyncLens}
use reactive_policy.Plugins.Suspend.Undo.{reverse_suspend-execute}
use reactive_policy.Plugins.Slack.{notify_slack}
use reactive_policy.Operator.{plugin_role}
use reactive_policy.Operator.Permitted.{plugin_role-grants}
use reactive_policy.Examples.Lab.{
  read_items, automated_of, manual, app_input, Lab, lab_platform, lab_kit, lab_client, codecs,
  rules, route, Thing, lab, lab_input,
}

lens : IsLens lab_kit rules_path
lens = record {
  read_back = λ o o' xs h. ground arith;
  set_twice = λ o o' xs ys h. ground arith;
  set_same = λ o xs h. ground arith;
}

weighed : All (RuleHasWeights "api") rules
unfolding member
weighed = ((λ h. tt, (λ h. tt, tt)), ((λ h. tt, tt), tt))

items-read : (cs : List BackendChange) → read_items (change_items cs) ≡ cs
unfolding member
items-read [] = refl
items-read (c ∷ cs) = ap (λ rest. c ∷ rest) (items-read cs)

json : (cs : List BackendChange) → codecs.changes (Value.array (change_items cs)) ≡ ok cs
unfolding member
json cs = ap ok (items-read cs)

route_holds : Holds lab_platform lab_client (route_target "route" "shop") (λ (w : Lab). w.thing)
route_holds = record {
  now_at = λ w. refl;
  got = λ w. refl;
  updated = λ obj w. refl;
  stored = λ obj w. refl;
}

abbrev shifter : Plugin Lab
shifter = mesh_shift lab_platform lab_kit codecs.mesh_params codecs.changes (some lab_client)

abbrev drain_params : MeshParams
drain_params = record {
  route_name = "route";
  route_namespace = "";
  backend = "api";
  weight_param = none;
}

parsed : unmarshal lab_platform lab_kit codecs.mesh_params lab_input.params ≡ ok drain_params
unfolding unmarshal
parsed = refl

acceptable :
    validate_mesh lab_platform lab_kit codecs.mesh_params codecs.changes
      (some lab_client)
      lab_input.params
    ≡ none
unfolding validate_mesh
acceptable = refl

shifted : (shifter.execute lab_input lab).0.0.status ≡ ResultStatus.succeeded
unfolding mesh_shift apply_weight member ◌>>=◌
shifted = refl

reverse_mesh-execute_example :
    let out = shifter.execute lab_input lab in
    let back = shifter.reverse out.0.0 out.1 in (back.0 ≡ none) × (back.1.thing ≡ lab.thing)
reverse_mesh-execute_example =
    reverse_mesh-execute lab_platform lab_kit codecs.mesh_params codecs.changes lab_client lab_input
      drain_params (λ (w : Lab). w.thing) route_holds lens json rules lab refl weighed parsed
      acceptable shifted

abbrev changes : List BackendChange
changes =
    record { rule = pos 0; ref = pos 1; old_weight = pos 3; had = true }
    ∷ record { rule = pos 1; ref = pos 0; old_weight = pos 0; had = false }
    ∷ []

abbrev drained : Thing
drained = elim (apply_weight lab_kit route "api" (pos 0)) [ ok (m, cs, o) ↦ o | _ ↦ route ]

drains : apply_weight lab_kit route "api" (pos 0) ≡ ok (true, changes, drained)
unfolding apply_weight member
drains = refl

apply_weight-RuleAt_example :
    (rules' : List Value) × (lab_kit.nested_slice rules_path drained ≡ ok (some rules'))
    × All (RuleAt lab_kit.float_to_int64 "api" (pos 0)) rules'
    × (apply_weight lab_kit drained "api" (pos 0)
        ≡ ok ((apply_rules lab_kit.float_to_int64 "api" (pos 0) 0 rules').0, [], drained))
apply_weight-RuleAt_example =
    apply_weight-RuleAt lab_kit lens route drained rules "api" (pos 0) true changes refl drains

built_in-FulfilsContract_example :
    All FulfilsContract (built_in lab_platform lab_kit codecs (some lab_client))
built_in-FulfilsContract_example =
    built_in-FulfilsContract lab_platform lab_kit (some lab_client) codecs

abbrev both_ways : IsolateParams
both_ways = record { pod_selector = []; direction_param = ""; allow_dns_param = none }

desired_policy-allows_example :
    let np = desired_policy lab_input both_ways (("app", "web") ∷ []) in
    (allows np PolicyType.ingress Protocol.tcp 80
      ≡ not (isolates_ingress both_ways) && isolates_egress both_ways)
    × (allows np PolicyType.egress Protocol.tcp 80
        ≡ not (isolates_egress both_ways) || (allow_dns both_ways && is_dns Protocol.tcp 80))
desired_policy-allows_example =
    desired_policy-allows lab_input both_ways (("app", "web") ∷ []) Protocol.tcp 80

-- No policy of the cluster takes in every pod.
abbrev Narrow : Lab → Type 0
Narrow w = All (λ (np : NetworkPolicy). is_empty np.pod_selector ≡ false) w.policies

holds : Holds lab_platform lab_client lab_input.target (λ (w : Lab). w.thing)
holds = record {
  now_at = λ w. refl;
  got = λ w. refl;
  updated = λ obj w. refl;
  stored = λ obj w. refl;
}

abbrev annotator : Plugin Lab
annotator = k8s_annotate lab_platform lab_kit codecs.annotate_params (some lab_client)

annotated : (annotator.execute lab_input lab).0.0.status ≡ ResultStatus.succeeded
unfolding k8s_annotate ◌>>=◌
annotated = refl

note_named :
    str_eq (text_of (lookup "key" (annotator.execute lab_input lab).0.0.details)) "" ≡ false
unfolding k8s_annotate lookup ◌>>=◌
note_named = refl

reverse-execute_example :
    let out = annotator.execute lab_input lab in
    let key = text_of (lookup "key" out.0.0.details) in
    let back = annotator.reverse out.0.0 out.1 in
    (back.0 ≡ none)
    × ((name : String)
        → lookup name (or_empty back.1.thing.annotated)
          ≡ (if str_eq key name then none else lookup name (or_empty lab.thing.annotated)))
reverse-execute_example =
    reverse-execute lab_platform lab_kit codecs.annotate_params lab_client lab_input
      (λ (w : Lab). w.thing) holds (λ m obj. refl) lab annotated note_named

aggregate_permissions-grants_example :
    let plugins = built_in lab_platform lab_kit codecs (some lab_client) in
    some_grants (aggregate_permissions plugins) "" "secrets" "get"
    ≡ some_grants (required plugins) "" "secrets" "get"
aggregate_permissions-grants_example =
    aggregate_permissions-grants (built_in lab_platform lab_kit codecs (some lab_client)) ""
      "secrets" "get" (built_in-IsPlainRule lab_platform lab_kit codecs (some lab_client))

in_lab :
    (policy : Option Value) (found : Fields)
    → automated_of policy ≡ some found
    → (fields : Fields) × (policy ≡ some (Value.object fields))
in_lab (some (Value.object fields)) found h = (fields, refl)
in_lab none found h = ground arith
in_lab (some _) found h = ground arith

sync_lens : IsSyncLens lab_kit
sync_lens = record {
  in_object =
      λ obj found h. let (fields, e) = in_lab obj.policy found (ground arith) in (fields, ap ok e);
  still_there = λ obj found h.
      let (fields, e) = in_lab obj.policy found (ground arith) in
      (Value.object (delete_member "automated" fields), ap (λ v. ok (manual v)) e);
  settable = λ obj left value h. (record obj { policy = some value }, refl);
  policy_back = λ obj obj' value h. ground arith;
  annotations_back = λ m obj. refl;
  apart_annotate = λ m obj. refl;
  apart_set = λ obj obj' value h. ground arith;
  apart_remove = λ obj. refl;
}

abbrev suspender : Plugin Lab
suspender = argocd_suspend lab_platform lab_kit codecs.reason (some lab_client)

app_holds : Holds lab_platform lab_client app_input.target (λ (w : Lab). w.thing)
app_holds = record {
  now_at = λ w. refl;
  got = λ w. refl;
  updated = λ obj w. refl;
  stored = λ obj w. refl;
}

stopped : (suspender.execute app_input lab).0.0.status ≡ ResultStatus.succeeded
unfolding argocd_suspend member ◌>>=◌
stopped = refl

reverse_suspend-execute_example :
    let out = suspender.execute app_input lab in
    let back = suspender.reverse out.0.0 out.1 in
    (back.0 ≡ none)
    × (lab_kit.nested_field_copy sync_policy back.1.thing
        ≡ lab_kit.nested_field_copy sync_policy lab.thing)
    × ((name : String)
        → lookup name (or_empty back.1.thing.annotated) ≡ (
            if str_eq reason_annotation name
            then none
            else lookup name (or_empty lab.thing.annotated)))
reverse_suspend-execute_example =
    reverse_suspend-execute lab_platform lab_kit codecs.reason lab_client app_input
      (λ (w : Lab). w.thing) app_holds sync_lens lab stopped

abbrev needed : List PolicyRule
needed = required (built_in lab_platform lab_kit codecs (some lab_client))

asks_for_secrets : some_grants needed "" "secrets" "get" ≡ true
unfolding mesh_shift network_isolate k8s_annotate argocd_suspend notify_slack
asks_for_secrets = refl

plugin_role-grants_example : some_grants plugin_role "" "secrets" "get" ≡ true
plugin_role-grants_example =
    plugin_role-grants "" "secrets" "get" lab_platform lab_kit codecs (some lab_client)
      asks_for_secrets
