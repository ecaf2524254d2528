-- ===== src/Plugins/MeshShift/Shift.antt =====
-- The plugin `mesh.shift` of plugins/mesh-shift/plugin.go. The decoding of its params and of the
-- decoded changes is encoding/json's.
use reactive_policy.Common.{
  pos, ltb_ℤ, String, List, [], ◌∷◌, Option, none, some, Bool, true, false, ◌||◌, Error, Fallible,
  ok, err, str_eq, if◌then◌else◌, lookup,
}
use reactive_policy.Api.{ResultStatus, RawParams}
use reactive_policy.Platform.{Platform, Arg, wrap}
use reactive_policy.Action.Types.{Target, Value, Items, Fields, Result, ExecuteInput, Plugin}
use reactive_policy.Plugins.Kit.{
  Client, Kit, Attempt, ◌>>=◌, lift, checked, text_of, or_else, permanent, invalid_params,
  client_from, execute_with, is_gone, unmarshal, get_object,
}
use reactive_policy.Plugins.MeshShift.Weights.{
  MeshParams, BackendChange, weight, max_weight, apply_weight, restore_weights,
}

abbrev pub plugin_name : String
plugin_name = "mesh.shift"

abbrev pub route_version : String
route_version = "gateway.networking.k8s.io/v1"

abbrev pub route_kind : String
route_kind = "HTTPRoute"

abbrev pub route_target : String → String → Target
route_target name namespace = record {
  api_version = route_version;
  kind = route_kind;
  name = name;
  namespace = namespace;
}

-- A change as its JSON tags name it, and the list of them.
abbrev pub change_value : BackendChange → Value
change_value change = Value.object (
    Fields.field "rule" (Value.number change.rule) (
      Fields.field "ref" (Value.number change.ref) (
        Fields.field "weight" (Value.number change.old_weight)
          (Fields.field "had" (Value.bool change.had) Fields.end))))

abbrev pub change_items : List BackendChange → Items
change_items [] = Items.nil
change_items (change ∷ rest) = Items.cons (change_value change) (change_items rest)

module _ {W F O : Type 0} (p : Platform W F) (k : Kit O) (decode : String → Fallible MeshParams)
    (decode_changes : Value → Fallible (List BackendChange)) (context : Option (Client W O)) where
  -- plugin.Validate
  unfoldable pub validate_mesh : RawParams → Option Error
  unfolding unmarshal
  validate_mesh raw = elim (unmarshal p k decode raw) [
    | err e ↦ some e
    | ok params ↦
        if str_eq params.route_name ""
        then some (invalid_params p "%w: routeRef.name is required" [])
        else if str_eq params.backend ""
        then some (invalid_params p "%w: backend is required" [])
        else if ltb_ℤ (weight params) (pos 0) || ltb_ℤ max_weight (weight params)
        then some
            (invalid_params p "%w: weight must be between 0 and %d" (Arg.number max_weight ∷ []))
        else none
  ]

  -- getRoute
  unfoldable pub get_route : Client W O → String → String → Attempt W O
  unfolding get_object
  get_route c name namespace =
      get_object p c "%w: HTTPRoute %s/%s" "getting HTTPRoute %s/%s: %w"
        (route_target name namespace)

  abbrev route_args : MeshParams → String → List Arg
  route_args params namespace = Arg.text namespace ∷ Arg.text params.route_name ∷ []

  abbrev weight_args : MeshParams → List Arg
  weight_args params = Arg.text params.backend ∷ Arg.number (weight params) ∷ []

  -- What Execute does once applyWeight answered.
  abbrev pub after_apply :
      Client W O → MeshParams → String → Result → Bool × List BackendChange × O → Attempt W Result
  after_apply c params namespace res (false, changes, route) = lift (
      err (
        permanent p "%w: backend %q not found in HTTPRoute %s/%s"
          (Arg.text params.backend ∷ route_args params namespace)))
  after_apply c params namespace res (true, [], route) = lift (
      ok (record res {
        status = ResultStatus.skipped;
        message = p.sprintf "backend %q already at weight %d" (weight_args params);
      }))
  after_apply c params namespace res (true, change ∷ changes, route) =
      checked (c.update route) (wrap p "updating HTTPRoute %s/%s: %w" (route_args params namespace))
      >>= λ _. lift (
          ok (record res {
            status = ResultStatus.succeeded;
            message = p.sprintf "shifted backend %q to weight %d on HTTPRoute %s" (
                Arg.text params.backend
                ∷ Arg.number (weight params)
                ∷ Arg.text params.route_name
                ∷ []);
            details =
                ("routeName", Value.text params.route_name)
                ∷ ("routeNamespace", Value.text namespace)
                ∷ ("backend", Value.text params.backend)
                ∷ ("weight", Value.number (weight params))
                ∷ ("previous", Value.array (change_items (change ∷ changes)))
                ∷ [];
          }))

  abbrev pub applied : O → MeshParams → String → Fallible (Bool × List BackendChange × O)
  applied route params namespace = elim (apply_weight k route params.backend (weight params)) [
    | err e ↦ err (wrap p "adjusting HTTPRoute %s/%s: %w" (route_args params namespace) e)
    | ok out ↦ ok out
  ]

  -- plugin.Execute
  unfoldable pub shift_body : ExecuteInput → Result → Attempt W Result
  unfolding unmarshal get_route apply_weight
  shift_body input res = do
    params ← lift (unmarshal p k decode input.params)
    c ← client_from p context
    let namespace = or_else params.route_namespace input.target.namespace
    route ← get_route c params.route_name namespace
    out ← lift (applied route params namespace)
    after_apply c params namespace res out

  abbrev pub decoded : Option Value → Fallible (List BackendChange)
  decoded none = ok []
  decoded (some Value.null) = ok []
  decoded (some value) = decode_changes value

  abbrev pub recorded_changes : Result → Fallible (List BackendChange)
  recorded_changes prev = elim (decoded (lookup "previous" prev.details)) [
    | err e ↦ err (invalid_params p "%w: decoding previous weights: %w" (Arg.text e.message ∷ []))
    | ok [] ↦ err (invalid_params p "%w: result has no previous weights to restore" [])
    | ok (change ∷ changes) ↦ ok (change ∷ changes)
  ]

  abbrev pub recorded_name : Result → Fallible String
  recorded_name prev =
      let name = text_of (lookup "routeName" prev.details) in
      if str_eq name ""
      then err (invalid_params p "%w: result has no HTTPRoute name to reverse" [])
      else ok name

  abbrev pub put_back :
      Client W O → String → String → List BackendChange → Fallible O → W → Option Error × W
  put_back c name namespace changes (err e) w = (some e, w)
  put_back c name namespace changes (ok route) w = elim (restore_weights k route changes) [
    | err e ↦ (
      some (
          wrap p "restoring HTTPRoute %s/%s weights: %w" (Arg.text namespace ∷ Arg.text name ∷ [])
            e),
      w,
    )
    | ok route' ↦ c.update route' w
  ]

  -- A route that is gone has nothing to restore.
  unfoldable pub restore_on :
      Client W O → String → String → List BackendChange → W → Option Error × W
  unfolding get_route restore_weights
  restore_on c name namespace changes w =
      let (answer, w') = get_route c name namespace w in
      if is_gone answer then (none, w') else put_back c name namespace changes answer w'

  -- plugin.Reverse
  unfoldable pub reverse_mesh : Result → W → Option Error × W
  unfolding restore_on lookup
  reverse_mesh prev w = elim (recorded_changes prev) [
    | err e ↦ (some e, w)
    | ok changes ↦ elim (recorded_name prev) [
      | err e ↦ (some e, w)
      | ok name ↦ elim context [
        | none ↦ (some (permanent p "%w: no Kubernetes client available" []), w)
        | some c ↦
            restore_on c name
              (or_else (text_of (lookup "routeNamespace" prev.details)) prev.target.namespace)
              changes w
      ]
    ]
  ]

  unfoldable pub mesh_shift : Plugin W
  unfolding validate_mesh shift_body execute_with reverse_mesh
  mesh_shift = record {
    name = plugin_name;
    description = "Drains traffic from a backend by setting its weight on a Gateway API HTTPRoute.";
    validate = validate_mesh;
    execute = execute_with p plugin_name shift_body;
    reverse = reverse_mesh;
    is_reversible = true;
    required_permissions =
        record {
          api_groups = "gateway.networking.k8s.io" ∷ [];
          resources = "httproutes" ∷ [];
          verbs = "get" ∷ "list" ∷ "update" ∷ "patch" ∷ [];
        }
        ∷ [];
  }
