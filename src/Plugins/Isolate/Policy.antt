-- ===== src/Plugins/Isolate/Policy.antt =====
-- The plugin `network.isolate` of plugins/network-isolate/plugin.go, and its params.go.
use reactive_policy.Common.{
  ℕ, String, List, [], ◌∷◌, ◌++◌, Option, none, some, Bool, true, false, ◌||◌, ◌&&◌, Assoc, lookup,
  Error, Fallible, ok, err, is_not_found, str_eq, if◌then◌else◌,
}
use Prim.Native.String.{◌++◌ as join}
use reactive_policy.Api.{ResultStatus, RawParams}
use reactive_policy.Platform.{Platform, Arg, wrap}
use reactive_policy.Action.Types.{Target, Value, Result, ExecuteInput, Plugin}
use reactive_policy.Plugins.Kit.{
  Client, Kit, Attempt, ◌>>=◌, lift, checked, text_of, or_else, permanent, invalid_params,
  client_from, execute_with, unmarshal, get_object, NetworkPolicy, PolicyType, Protocol,
}

-- params
pub record IsolateParams : Type 0 where
  pub pod_selector : Assoc String
  pub direction_param : String
  pub allow_dns_param : Option Bool

abbrev pub direction : IsolateParams → String
direction params = or_else params.direction_param "both"

abbrev pub allow_dns : IsolateParams → Bool
allow_dns params = elim params.allow_dns_param [ none ↦ true | some b ↦ b ]

abbrev pub isolates_ingress : IsolateParams → Bool
isolates_ingress params = str_eq (direction params) "ingress" || str_eq (direction params) "both"

abbrev pub isolates_egress : IsolateParams → Bool
isolates_egress params = str_eq (direction params) "egress" || str_eq (direction params) "both"

abbrev pub dns_port : ℕ
dns_port = 53

-- dnsPorts
abbrev pub dns_ports : List (Protocol × ℕ)
dns_ports = (Protocol.udp, dns_port) ∷ (Protocol.tcp, dns_port) ∷ []

-- desiredPolicy
unfoldable pub desired_policy : ExecuteInput → IsolateParams → Assoc String → NetworkPolicy
desired_policy input params selector = record {
  name = join "rp-isolate-" input.target.name;
  namespace = input.target.namespace;
  labels = ("app.kubernetes.io/managed-by", "reactive-policy") ∷ [];
  annotations =
      ("reactive-policy.io/policy", input.policy_name)
      ∷ ("reactive-policy.io/isolated-target", input.target.name)
      ∷ [];
  pod_selector = selector;
  policy_types =
      (if isolates_ingress params then PolicyType.ingress ∷ [] else [])
      ++ (if isolates_egress params then PolicyType.egress ∷ [] else []);
  ingress_rules = [];
  egress_rules =
      if isolates_egress params && allow_dns params then record { ports = dns_ports } ∷ [] else [];
}

abbrev pub is_empty : Assoc String → Bool
is_empty [] = true
is_empty (pair ∷ rest) = false

-- A map at a path that is nonempty and not empty
abbrev nonempty : Fallible (Option (Assoc String)) → Option (Assoc String)
nonempty (ok (some [])) = none
nonempty (ok (some (pair ∷ rest))) = some (pair ∷ rest)
nonempty _ = none

-- What an existing policy becomes
unfoldable pub overwrite : NetworkPolicy → NetworkPolicy → NetworkPolicy
overwrite existing desired = record existing {
  labels = desired.labels;
  annotations = desired.annotations;
  pod_selector = desired.pod_selector;
  policy_types = desired.policy_types;
  ingress_rules = desired.ingress_rules;
  egress_rules = desired.egress_rules;
}

module _ {W O : Type 0} where
  abbrev pub upsert : Client W O → NetworkPolicy → Fallible NetworkPolicy → W → Option Error × W
  upsert c np (ok existing) w = c.update_network_policy (overwrite existing np) w
  upsert c np (err e) w = if is_not_found e then c.create_network_policy np w else (some e, w)

  -- applyPolicy
  unfoldable pub apply_policy : Client W O → NetworkPolicy → W → Option Error × W
  unfolding overwrite
  apply_policy c np w =
      let (answer, w') = c.get_network_policy np.namespace np.name w in upsert c np answer w'

module _ {O : Type 0} (k : Kit O) where
  -- deriveSelector
  unfoldable pub derive_selector : O → Assoc String
  derive_selector obj =
      elim (nonempty (k.nested_string_map ("spec" ∷ "selector" ∷ "matchLabels" ∷ []) obj)) [
        | some labels ↦ labels
        | none ↦ elim (nonempty (k.nested_string_map ("spec" ∷ "selector" ∷ []) obj)) [
          | some labels ↦ labels
          | none ↦ k.labels obj
        ]
      ]

module _ {W F O : Type 0} (p : Platform W F) (k : Kit O) (decode : String → Fallible IsolateParams)
    (context : Option (Client W O)) where
  -- plugin.Validate
  unfoldable pub validate_isolate : RawParams → Option Error
  unfolding unmarshal
  validate_isolate raw = elim (unmarshal p k decode raw) [
    | err e ↦ some e
    | ok params ↦
        if isolates_ingress params || isolates_egress params
        then none
        else some (invalid_params p "%w: direction must be one of ingress, egress, both" [])
  ]

  -- The pod selector: the one of the params, or the target's
  unfoldable pub choose_selector : Client W O → Target → Assoc String → Attempt W (Assoc String)
  unfolding get_object derive_selector
  choose_selector c target (pair ∷ rest) = lift (ok (pair ∷ rest))
  choose_selector c target [] = do
    obj ← get_object p c "%w: %s/%s" "getting target %s/%s: %w" target
    lift (ok (derive_selector k obj))

  abbrev pub isolate_with :
      Client W O → ExecuteInput → IsolateParams → Result → Assoc String → Attempt W Result
  isolate_with c input params res [] = lift (
      err (
        permanent p "%w: cannot derive a pod selector for %s %q; set params.podSelector"
          (Arg.text input.target.kind ∷ Arg.text input.target.name ∷ [])))
  isolate_with c input params res (pair ∷ rest) =
      let np = desired_policy input params (pair ∷ rest) in
      checked (apply_policy c np) (
        wrap p "isolating %s/%s: %w"
          (Arg.text input.target.namespace ∷ Arg.text input.target.name ∷ []))
      >>= λ _. lift (
          ok (record res {
            status = ResultStatus.succeeded;
            message = p.sprintf "isolated %s %s with NetworkPolicy %s (%s)" (
                Arg.text input.target.kind
                ∷ Arg.text input.target.name
                ∷ Arg.text np.name
                ∷ Arg.text (direction params)
                ∷ []);
            details =
                ("networkPolicyName", Value.text np.name)
                ∷ ("namespace", Value.text np.namespace)
                ∷ ("direction", Value.text (direction params))
                ∷ [];
          }))

  -- plugin.Execute
  unfoldable pub isolate_body : ExecuteInput → Result → Attempt W Result
  unfolding unmarshal choose_selector desired_policy apply_policy
  isolate_body input res = do
    params ← lift (unmarshal p k decode input.params)
    c ← client_from p context
    selector ← choose_selector c input.target params.pod_selector
    isolate_with c input params res selector

  abbrev deleted : String → String → Option Error → Option Error
  deleted namespace name none = none
  deleted namespace name (some e) =
      if is_not_found e
      then none
      else some
          (wrap p "removing NetworkPolicy %s/%s: %w" (Arg.text namespace ∷ Arg.text name ∷ []) e)

  -- plugin.Reverse
  unfoldable pub reverse_isolate : Result → W → Option Error × W
  unfolding lookup
  reverse_isolate prev w =
      let name = text_of (lookup "networkPolicyName" prev.details) in
      if str_eq name ""
      then (some (invalid_params p "%w: result has no NetworkPolicy name to reverse" []), w)
      else elim context [
        | none ↦ (some (permanent p "%w: no Kubernetes client available" []), w)
        | some c ↦
            let namespace =
              or_else (text_of (lookup "namespace" prev.details)) prev.target.namespace in
            let (answer, w') = c.delete_network_policy namespace name w in
            (deleted namespace name answer, w')
      ]

  unfoldable pub network_isolate : Plugin W
  unfolding validate_isolate isolate_body execute_with reverse_isolate
  network_isolate = record {
    name = "network.isolate";
    description = "Quarantines the target workload's pods with a restrictive NetworkPolicy.";
    validate = validate_isolate;
    execute = execute_with p "network.isolate" isolate_body;
    reverse = reverse_isolate;
    is_reversible = true;
    required_permissions =
        record {
          api_groups = "networking.k8s.io" ∷ [];
          resources = "networkpolicies" ∷ [];
          verbs = "get" ∷ "list" ∷ "create" ∷ "update" ∷ "patch" ∷ "delete" ∷ [];
        }
        ∷ record { api_groups = "*" ∷ []; resources = "*" ∷ []; verbs = "get" ∷ [] }
        ∷ [];
  }
