-- ===== src/Webhook/Policy/Admission.antt =====
-- The validating webhook lets a policy in exactly when it is valid.
use reactive_policy.Common.{
  ℕ, suc, ◌≤◌, List, [], ◌∷◌, ◌++◌, Option, none, some, Bool, true, false, not, ◌&&◌, ◌||◌, Assoc,
  All, count_if, Option-cases, ◌≡◌, refl, inl, inr, ◌↔◌, ap, arith, if◌then◌else◌,
}
use reactive_policy.Api.{ReactivePolicy}
use reactive_policy.Api.Policy.{Action}
use reactive_policy.Metrics.{Metrics}
use reactive_policy.Platform.{Platform}
use reactive_policy.Action.Types.{Plugin}
use reactive_policy.Action.Registry.{lookup_plugin}
use reactive_policy.Webhook.Policy.{
  Step, when, irreversible_error, check_second_gate, check_plugin, validate_each, validate_actions,
  validate,
}
use reactive_policy.Webhook.Policy.Validity.{
  IsValid, Usable, when-nil, append-nil-parts, both_nil, observe-Valid, Valid-observe,
  timings-Valid, Valid-timings,
}

-- How many more actions may hold for approval.
abbrev gates_left : Option ℕ → ℕ
gates_left none = 1
gates_left (some first) = 0

abbrev holds : Action → Bool
holds act = act.requires_approval

waived : (a b : Bool) → not a && not b ≡ false → a || b ≡ true
waived true b h = refl
waived false true h = refl
waived false false h = ground arith

not_waived : (a b : Bool) → a || b ≡ true → not a && not b ≡ false
not_waived true b h = refl
not_waived false true h = refl
not_waived false false h = ground arith

module _ {W F : Type 0} (p : Platform W F) (plugins : Assoc (Plugin W)) (allow : Bool) where
  plugin-Usable :
      (path : List Step) (act : Action) (m : Metrics)
      → (check_plugin p plugins allow path act m).0 ≡ []
      → Usable plugins allow act
  unfolding check_plugin
  plugin-Usable path act m h = elim (Option-cases (lookup_plugin plugins act.plugin)) [
    | inl e ↦ ground arith
    | inr (plugin, e) ↦ elim (Option-cases (plugin.validate act.params)) [
      | inl ok ↦ record {
        plugin = plugin;
        there = e;
        takes = ok;
        reversible =
            waived plugin.is_reversible allow
              (when-nil _ (irreversible_error p path act.plugin) (ground arith));
      }
      | inr (failure, bad) ↦ ground arith
    ]
  ]

  Usable-plugin :
      (path : List Step) (act : Action) (m : Metrics)
      → Usable plugins allow act
      → (check_plugin p plugins allow path act m).0 ≡ []
  unfolding check_plugin
  Usable-plugin path act m u =
      rw (check_plugin, u.there)
        (rw u.takes (
          ap (λ b. when b (irreversible_error p path act.plugin))
            (not_waived u.plugin.is_reversible allow u.reversible)))

  gate_room :
      (path : List Step) (i : ℕ) (held : Bool) (gated : Option ℕ) (n : ℕ)
      → (check_second_gate p path i held gated).0 ≡ []
      → n ≤ gates_left (check_second_gate p path i held gated).1
      → (if held then suc n else n) ≤ gates_left gated
  unfolding check_second_gate
  gate_room path i false gated n h room = room
  gate_room path i true none n h room = omega (arith, room)
  gate_room path i true (some first) n h room = ground arith

  room_gate :
      (path : List Step) (i : ℕ) (held : Bool) (gated : Option ℕ) (n : ℕ)
      → (if held then suc n else n) ≤ gates_left gated
      → ((check_second_gate p path i held gated).0 ≡ [])
        × (n ≤ gates_left (check_second_gate p path i held gated).1)
  unfolding check_second_gate
  room_gate path i false gated n room = (refl, room)
  room_gate path i true none n room = (refl, omega (arith, room))
  room_gate path i true (some first) n room = ground arith

  each-Valid :
      (path : List Step) (i : ℕ) (gated : Option ℕ) (actions : List Action) (m : Metrics)
      → (validate_each p plugins allow path i gated actions m).0 ≡ []
      → (count_if holds actions ≤ gates_left gated) × All (Usable plugins allow) actions
  unfolding validate_each
  each-Valid path i gated [] m h = (omega arith, tt)
  each-Valid path i gated (act ∷ rest) m h =
      let here = path ++ Step.index i ∷ [] in
      let first = append-nil-parts _ _ h in
      let others = append-nil-parts _ _ first.1 in
      let ih = each-Valid path (suc i) _ rest _ others.1 in
      (
        gate_room here i act.requires_approval gated _ first.0 ih.0,
        (plugin-Usable here act m others.0, ih.1),
      )

  Valid-each :
      (path : List Step) (i : ℕ) (gated : Option ℕ) (actions : List Action) (m : Metrics)
      → count_if holds actions ≤ gates_left gated
      → All (Usable plugins allow) actions
      → (validate_each p plugins allow path i gated actions m).0 ≡ []
  unfolding validate_each
  Valid-each path i gated [] m room usable = refl
  Valid-each path i gated (act ∷ rest) m room (u, us) =
      let here = path ++ Step.index i ∷ [] in
      let gate = room_gate here i act.requires_approval gated _ room in
      both_nil _ _ gate.0
        (both_nil _ _ (Usable-plugin here act m u) (Valid-each path (suc i) _ rest _ gate.1 us))

module _ {W F : Type 0} (p : Platform W F) (plugins : Assoc (Plugin W)) where
  validate-IsValid :
      (policy : ReactivePolicy) (m : Metrics)
      → (validate p plugins policy m).0 ≡ []
      → IsValid plugins policy
  unfolding validate validate_actions
  validate-IsValid policy m h =
      let first = append-nil-parts _ _ h in
      let rest = append-nil-parts _ _ first.1 in
      let observed = observe-Valid p _ policy.spec.observe first.0 in
      let timed = timings-Valid p _ policy.spec rest.0 in
      let acts =
        each-Valid p plugins policy.spec.allow_irreversible _ 0 none policy.spec.actions m rest.1 in
      record {
        source = observed.0;
        duration = observed.1.0;
        poll_interval = observed.1.1;
        cooldown = timed.0;
        approval_timeout = timed.1;
        one_gate = acts.0;
        usable = acts.1;
      }

  IsValid-validate :
      (policy : ReactivePolicy) (m : Metrics)
      → IsValid plugins policy
      → (validate p plugins policy m).0 ≡ []
  unfolding validate validate_actions
  IsValid-validate policy m v =
      both_nil _ _ (Valid-observe p _ policy.spec.observe v.source v.duration v.poll_interval) (
        both_nil _ _ (Valid-timings p _ policy.spec v.cooldown v.approval_timeout) (
          Valid-each p plugins policy.spec.allow_irreversible _ 0 none policy.spec.actions m
            v.one_gate v.usable))

  -- The webhook finds no error exactly when the metric source is supported; the crossing duration is
  -- in its range; the poll interval, the cooldown and the approval timeout are in theirs or left to
  -- their defaults; at most one action holds for approval; and every action's plugin is registered,
  -- takes the parameters, and is reversible unless the policy waives it.
  pub validate↔IsValid :
      (policy : ReactivePolicy) (m : Metrics)
      → ((validate p plugins policy m).0 ≡ []) ↔ IsValid plugins policy
  validate↔IsValid policy m = (validate-IsValid policy m, IsValid-validate policy m)
