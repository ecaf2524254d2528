-- ===== src/Plugins/MeshShift/Undo.antt =====
-- plugins/mesh-shift: what Reverse leaves after an Execute.
use reactive_policy.Common.{
  String, List, [], ◌∷◌, Option, none, some, Bool, true, false, lookup, Error, Fallible, ok, str_eq,
  ◌≡◌, refl, sym, ap, ◌∙◌, subst, inl, inr, Bool-cases, Fallible-cases, arith, All,
}
use reactive_policy.Api.{ResultStatus}
use reactive_policy.Platform.{Platform}
use reactive_policy.Action.Types.{Value, Result, ExecuteInput}
use reactive_policy.Plugins.Kit.{Client, Kit, lift, ◌>>=◌, or_else, started, unmarshal}
use reactive_policy.Plugins.MeshShift.Weights.{
  MeshParams, BackendChange, weight, apply_weight, restore_weights, rules_path,
}
use reactive_policy.Plugins.MeshShift.Refs.{RuleHasWeights}
use reactive_policy.Plugins.MeshShift.RoundTrip.{IsLens, restore_weights-apply_weight}
use reactive_policy.Plugins.MeshShift.Shift.{
  mesh_shift, validate_mesh, shift_body, reverse_mesh, restore_on, after_apply, applied, get_route,
  route_target, change_items, recorded_changes, recorded_name, put_back, plugin_name,
}
use reactive_policy.Plugins.Steps.{Holds, >>=-step, execute_with-succeeded, get_object-at}

-- The namespace that Execute takes, and that Reverse takes from the result
or_else-or_else : (a b : String) → or_else (or_else a b) b ≡ or_else a b
or_else-or_else a b = elim (Bool-cases (str_eq a "")) [
  | inl empty ↦ elim (Bool-cases (str_eq b "")) [ inl e ↦ ground arith | inr e ↦ ground arith ]
  | inr given ↦ ground arith
]

module _ {W F O : Type 0} (p : Platform W F) (k : Kit O) (decode : String → Fallible MeshParams)
    (decode_changes : Value → Fallible (List BackendChange)) (c : Client W O) (input : ExecuteInput)
    (params : MeshParams) (at : W → O)
    (holds : Holds p c
      (route_target params.route_name (or_else params.route_namespace input.target.namespace))
      at)
    (lens : IsLens k rules_path)
    (json : (cs : List BackendChange)
      → decode_changes (Value.array (change_items cs)) ≡ ok cs) where
  abbrev namespace : String
  namespace = or_else params.route_namespace input.target.namespace

  -- An Execute that moved the backend's weights, on the route `route`
  abbrev Shifted : O → Result → W → Type 0
  Shifted route done w' =
      (change : BackendChange) × (changes : List BackendChange) × (apply_weight k route
          params.backend (weight params)
        ≡ ok (true, change ∷ changes, at w'))
      × (lookup "previous" done.details ≡ some (Value.array (change_items (change ∷ changes))))
      × (lookup "routeName" done.details ≡ some (Value.text params.route_name))
      × (lookup "routeNamespace" done.details ≡ some (Value.text namespace))
      × (done.target ≡ input.target)

  after_apply-Shifted :
      (route : O) (out : Bool × List BackendChange × O) (res done : Result) (w w' : W)
      → apply_weight k route params.backend (weight params) ≡ ok out
      → res.target ≡ input.target
      → after_apply p k decode decode_changes (some c) c params namespace res out w ≡ (ok done, w')
      → done.status ≡ ResultStatus.succeeded
      → Shifted route done w'
  unfolding ◌>>=◌ lookup
  after_apply-Shifted route (false, changes, left) res done w w' e same h s = ground arith
  after_apply-Shifted route (true, [], left) res done w w' e same h s = ground arith
  after_apply-Shifted route (true, change ∷ changes, left) res done w w' e same h s = (
    change,
    changes,
    ground (arith, holds.updated left w, holds.stored left w),
    ground (arith, holds.updated left w),
    ground (arith, holds.updated left w),
    ground (arith, holds.updated left w),
    ground (arith, holds.updated left w),
  )

  shift_body-applied :
      (res : Result) (w : W)
      → unmarshal p k decode input.params ≡ ok params
      → shift_body p k decode decode_changes (some c) input res w
        ≡ (lift (applied p k decode decode_changes (some c) (at w) params namespace)
              >>= after_apply p k decode decode_changes (some c) c params namespace res)
            w
  unfolding shift_body get_route
  shift_body-applied res w e =
      >>=-step _ _ w w params (ap (λ r. (r, w)) e)
      ∙ >>=-step _ _ w w c refl
      ∙ >>=-step _ _ w w (at w)
          (get_object-at p c (route_target params.route_name namespace) at holds _ _ w)

  shift_body-Shifted :
      (res done : Result) (w w' : W)
      → unmarshal p k decode input.params ≡ ok params
      → res.target ≡ input.target
      → shift_body p k decode decode_changes (some c) input res w ≡ (ok done, w')
      → done.status ≡ ResultStatus.succeeded
      → Shifted (at w) done w'
  unfolding ◌>>=◌
  shift_body-Shifted res done w w' e same h s =
      let staged = sym (shift_body-applied res w e) ∙ h in
      elim (Fallible-cases (apply_weight k (at w) params.backend (weight params))) [
        | inl (out, there) ↦
            after_apply-Shifted (at w) out res done w w' there same (ground (arith, staged)) s
        | inr (failure, there) ↦ ground (arith, staged)
      ]

  validate_mesh-named :
      unmarshal p k decode input.params ≡ ok params
      → validate_mesh p k decode decode_changes (some c) input.params ≡ none
      → str_eq params.route_name "" ≡ false
  unfolding validate_mesh
  validate_mesh-named e valid = ground arith

  restore_on-at :
      (changes : List BackendChange) (w : W) (before : O)
      → restore_weights k (at w) changes ≡ ok before
      → let out =
          restore_on p k decode decode_changes (some c) c params.route_name namespace changes w in
        (out.0 ≡ none) × (at out.1 ≡ before)
  unfolding restore_on get_route
  restore_on-at changes w before back =
      let same =
        get_object-at p c (route_target params.route_name namespace) at holds "%w: HTTPRoute %s/%s"
          "getting HTTPRoute %s/%s: %w" w in
      let written : put_back p k decode decode_changes (some c) c params.route_name namespace
            changes (ok (at w)) w
          ≡ c.update before w =
        ground (arith, back) in
      (rw (same, written) (holds.updated before w), rw (same, written) (holds.stored before w))

  reverse_mesh-at :
      (done : Result) (change : BackendChange) (changes : List BackendChange) (w : W)
      → lookup "previous" done.details ≡ some (Value.array (change_items (change ∷ changes)))
      → lookup "routeName" done.details ≡ some (Value.text params.route_name)
      → lookup "routeNamespace" done.details ≡ some (Value.text namespace)
      → done.target ≡ input.target
      → str_eq params.route_name "" ≡ false
      → reverse_mesh p k decode decode_changes (some c) done w
        ≡ restore_on p k decode decode_changes
            (some c)
            c
            params.route_name
            namespace
            (change ∷ changes)
            w
  unfolding reverse_mesh
  reverse_mesh-at done change changes w previous name place target named =
      let recorded : recorded_changes p k decode decode_changes (some c) done
          ≡ ok (change ∷ changes) =
        ground (arith, json (change ∷ changes)) in
      let called : recorded_name p k decode decode_changes (some c) done ≡ ok params.route_name =
        ground arith in
      rw (reverse_mesh, recorded, called, place)
        (ap
            (λ t.
              restore_on p k decode decode_changes (some c) c params.route_name
                (or_else namespace t.namespace) (change ∷ changes) w)
            target
          ∙ ap
              (λ n.
                restore_on p k decode decode_changes (some c) c params.route_name n
                  (change ∷ changes) w)
              (or_else-or_else params.route_namespace input.target.namespace))

  Undone : Result → W → W → Type 0
  Undone done w w1 =
      let back = reverse_mesh p k decode decode_changes (some c) done w1 in
      (back.0 ≡ none) × (at back.1 ≡ at w)

  module _ (rules : List Value) (w : W) (read : k.nested_slice rules_path (at w) ≡ ok (some rules))
      (weighed : All (RuleHasWeights params.backend) rules)
      (parsed : unmarshal p k decode input.params ≡ ok params)
      (valid : validate_mesh p k decode decode_changes (some c) input.params ≡ none) where
    Shifted-Undone : (done : Result) (w1 : W) → Shifted (at w) done w1 → Undone done w w1
    unfolding Undone
    Shifted-Undone done w1 (change, changes, moved, previous, name, place, target) =
        let back =
          restore_weights-apply_weight k lens (at w) (at w1) rules params.backend (weight params)
            true (change ∷ changes) read weighed moved in
        let same =
          reverse_mesh-at done change changes w1 previous name place target
            (validate_mesh-named parsed valid) in
        let (fine, written) = restore_on-at (change ∷ changes) w1 (at w) back in
        (
          ap (λ (r : Option Error × W). r.0) same ∙ fine,
          ap (λ (r : Option Error × W). at r.1) same ∙ written,
        )

    -- On a cluster that keeps what it is told, for params that Validate accepts, and a route on which
    -- the weights of the backend are integers or absent: after an Execute that shifted the backend,
    -- Reverse succeeds and the route is the one that was there before Execute, whole.
    pub reverse_mesh-execute :
        ((mesh_shift p k decode decode_changes (some c)).execute input w).0.0.status
          ≡ ResultStatus.succeeded
        → let plugin = mesh_shift p k decode decode_changes (some c) in
          let out = plugin.execute input w in
          let back = plugin.reverse out.0.0 out.1 in (back.0 ≡ none) × (at back.1 ≡ at w)
    unfolding mesh_shift Undone
    reverse_mesh-execute h =
        let (done, w1, body, all, s) =
          execute_with-succeeded p plugin_name (shift_body p k decode decode_changes (some c)) input
            w h in
        let how =
          shift_body-Shifted (started plugin_name input.target (p.now w).0) done (p.now w).1 w1
            parsed refl body s in
        subst (λ (out : (Result × Option Error) × W). Undone out.0.0 w out.1) (sym all)
          (Shifted-Undone done w1 (subst (λ o. Shifted o done w1) (holds.now_at w) how))
