-- ===== src/Plugins/MeshShift/Drained.antt =====
-- applyWeight of plugins/mesh-shift/plugin.go: the weights that it leaves.
use reactive_policy.Common.{
  ℕ, suc, ℤ, String, List, [], ◌∷◌, ◌++◌, Option, none, some, Bool, true, ok, str_eq, if◌then◌else◌,
  ◌≡◌, refl, ap, sym, ◌∙◌, arith, All, subst, inl, inr, Bool-cases, Fallible-cases, eq_self,
}
use reactive_policy.Action.Types.{Value, Items, Fields}
use reactive_policy.Action.Values.{member, put_member, member-put_member, put_member_self}
use reactive_policy.Plugins.Kit.{Kit, text_of}
use reactive_policy.Plugins.MeshShift.Weights.{
  BackendChange, weight_or, eq_ℤ, default_weight, on_weight, to_int64_of, apply_ref, apply_refs,
  on_refs, apply_rule, apply_rules, rules_path, put_rules, apply_weight,
}
use reactive_policy.Plugins.MeshShift.RoundTrip.{IsLens}

both_nil : (xs ys : List BackendChange) → xs ++ ys ≡ [] → (xs ≡ []) × (ys ≡ [])
both_nil [] ys h = (refl, h)
both_nil (x ∷ xs) ys h = ground arith

module _ (to_int : ℕ → ℤ) (backend : String) (w : ℤ) where
  -- A ref of the backend has the weight, where an absent one counts as the default.
  abbrev pub RefAt : Value → Type 0
  RefAt (Value.object ref) =
      str_eq (text_of (member "name" ref)) backend ≡ true
      → eq_ℤ (weight_or default_weight (to_int64_of to_int (member "weight" ref))) w ≡ true
  RefAt _ = Unit

  abbrev pub RefsAt : Items → Type 0
  RefsAt Items.nil = Unit
  RefsAt (Items.cons ref rest) = RefAt ref × RefsAt rest

  abbrev pub ListAt : Option Value → Type 0
  ListAt (some (Value.array refs)) = RefsAt refs
  ListAt _ = Unit

  abbrev pub RuleAt : Value → Type 0
  RuleAt (Value.object rule) = ListAt (member "backendRefs" rule)
  RuleAt _ = Unit

  eq_ℤ_self : (n : ℤ) → eq_ℤ n n ≡ true
  eq_ℤ_self n = ground arith

  member-weighed :
      (ref : Fields)
      → member "weight" (put_member "weight" (Value.number w) ref) ≡ some (Value.number w)
  member-weighed ref =
      member-put_member "weight" "weight" (Value.number w) ref
      ∙ ap (λ b. if b then some (Value.number w) else member "weight" ref) (eq_self "weight")

  on_weight-RefAt :
      (ri bi : ℕ) (ref : Fields) (old : Option ℤ)
      → to_int64_of to_int (member "weight" ref) ≡ old
      → RefAt (on_weight ri bi w ref old).2
  unfolding to_int64_of
  on_weight-RefAt ri bi ref old e = elim (Bool-cases (eq_ℤ (weight_or default_weight old) w)) [
    | inl same ↦ rw same (λ h. rw e same)
    | inr other ↦ rw other (λ h. rw (member-weighed ref) (eq_ℤ_self w))
  ]

  apply_ref-RefAt : (ri bi : ℕ) (v : Value) → RefAt (apply_ref to_int backend w ri bi v).2
  unfolding apply_ref
  apply_ref-RefAt ri bi (Value.object ref) =
      elim (Bool-cases (str_eq (text_of (member "name" ref)) backend)) [
        | inl named ↦ rw named (on_weight-RefAt ri bi ref _ refl)
        | inr other ↦ rw other (λ h. ground arith)
      ]
  apply_ref-RefAt ri bi _ = tt

  apply_refs-RefsAt : (ri bi : ℕ) (refs : Items) → RefsAt (apply_refs to_int backend w ri bi refs).2
  unfolding apply_refs
  apply_refs-RefsAt ri bi Items.nil = tt
  apply_refs-RefsAt ri bi (Items.cons ref rest) =
      (apply_ref-RefAt ri bi ref, apply_refs-RefsAt ri (suc bi) rest)

  on_refs-RuleAt :
      (ri : ℕ) (rule : Fields) (refs : Option Value)
      → member "backendRefs" rule ≡ refs
      → RuleAt (on_refs to_int backend w ri rule refs).2
  on_refs-RuleAt ri rule (some (Value.array refs)) e =
      let out = apply_refs to_int backend w ri 0 refs in
      rw (member-put_member "backendRefs" "backendRefs" (Value.array out.2) rule)
        (apply_refs-RefsAt ri 0 refs)
  on_refs-RuleAt ri rule none e = rw e tt
  on_refs-RuleAt ri rule (some _) e = rw e tt

  apply_rule-RuleAt : (ri : ℕ) (v : Value) → RuleAt (apply_rule to_int backend w ri v).2
  unfolding apply_rule
  apply_rule-RuleAt ri (Value.object rule) = on_refs-RuleAt ri rule (member "backendRefs" rule) refl
  apply_rule-RuleAt ri _ = tt

  apply_rules-RuleAt :
      (ri : ℕ) (rules : List Value) → All RuleAt (apply_rules to_int backend w ri rules).2
  unfolding apply_rules
  apply_rules-RuleAt ri [] = tt
  apply_rules-RuleAt ri (v ∷ rest) = (apply_rule-RuleAt ri v, apply_rules-RuleAt (suc ri) rest)

  -- Where nothing changed, the value is as it was.
  apply_ref_kept :
      (ri bi : ℕ) (v : Value)
      → let out = apply_ref to_int backend w ri bi v in out.1 ≡ [] → out.2 ≡ v
  unfolding apply_ref
  apply_ref_kept ri bi (Value.object ref) h = ground arith
  apply_ref_kept ri bi _ h = refl

  apply_refs_kept :
      (ri bi : ℕ) (refs : Items)
      → let out = apply_refs to_int backend w ri bi refs in out.1 ≡ [] → out.2 ≡ refs
  unfolding apply_refs
  apply_refs_kept ri bi Items.nil h = refl
  apply_refs_kept ri bi (Items.cons ref rest) h =
      let (first, later) = both_nil _ _ h in
      ap (λ v. Items.cons v (apply_refs to_int backend w ri (suc bi) rest).2)
        (apply_ref_kept ri bi ref first)
      ∙ ap (Items.cons ref) (apply_refs_kept ri (suc bi) rest later)

  on_refs_kept :
      (ri : ℕ) (rule : Fields) (refs : Option Value)
      → member "backendRefs" rule ≡ refs
      → let out = on_refs to_int backend w ri rule refs in out.1 ≡ [] → out.2 ≡ Value.object rule
  on_refs_kept ri rule (some (Value.array refs)) e h =
      ap (λ r. Value.object (put_member "backendRefs" (Value.array r) rule))
        (apply_refs_kept ri 0 refs h)
      ∙ ap Value.object (put_member_self "backendRefs" (Value.array refs) rule e)
  on_refs_kept ri rule _ e h = refl

  apply_rule_kept :
      (ri : ℕ) (v : Value) → let out = apply_rule to_int backend w ri v in out.1 ≡ [] → out.2 ≡ v
  unfolding apply_rule
  apply_rule_kept ri (Value.object rule) h = on_refs_kept ri rule (member "backendRefs" rule) refl h
  apply_rule_kept ri _ h = refl

  apply_rules_kept :
      (ri : ℕ) (rules : List Value)
      → let out = apply_rules to_int backend w ri rules in out.1 ≡ [] → out.2 ≡ rules
  unfolding apply_rules
  apply_rules_kept ri [] h = refl
  apply_rules_kept ri (v ∷ rest) h =
      let (first, later) = both_nil _ _ h in
      ap (λ r. r ∷ (apply_rules to_int backend w (suc ri) rest).2) (apply_rule_kept ri v first)
      ∙ ap (λ t. v ∷ t) (apply_rules_kept (suc ri) rest later)

  -- Where every ref is at the weight, nothing changes.
  apply_ref_idle : (ri bi : ℕ) (v : Value) → RefAt v → (apply_ref to_int backend w ri bi v).1 ≡ []
  unfolding apply_ref
  apply_ref_idle ri bi (Value.object ref) h =
      elim (Bool-cases (str_eq (text_of (member "name" ref)) backend)) [
        | inl named ↦ rw (named, h named) refl
        | inr other ↦ rw other refl
      ]
  apply_ref_idle ri bi _ h = refl

  apply_refs_idle :
      (ri bi : ℕ) (refs : Items) → RefsAt refs → (apply_refs to_int backend w ri bi refs).1 ≡ []
  unfolding apply_refs
  apply_refs_idle ri bi Items.nil h = refl
  apply_refs_idle ri bi (Items.cons ref rest) (h, hs) =
      rw (apply_ref_idle ri bi ref h) (apply_refs_idle ri (suc bi) rest hs)

  on_refs_idle :
      (ri : ℕ) (rule : Fields) (refs : Option Value)
      → ListAt refs
      → (on_refs to_int backend w ri rule refs).1 ≡ []
  on_refs_idle ri rule (some (Value.array refs)) h = apply_refs_idle ri 0 refs h
  on_refs_idle ri rule _ h = refl

  apply_rules_idle :
      (ri : ℕ) (rules : List Value)
      → All RuleAt rules
      → (apply_rules to_int backend w ri rules).1 ≡ []
  unfolding apply_rules apply_rule
  apply_rules_idle ri [] h = refl
  apply_rules_idle ri (Value.object rule ∷ rest) (h, hs) =
      rw (on_refs_idle ri rule (member "backendRefs" rule) h) (apply_rules_idle (suc ri) rest hs)
  apply_rules_idle ri (_ ∷ rest) (h, hs) = apply_rules_idle (suc ri) rest hs

module _ {O : Type 0} (k : Kit O) (lens : IsLens k rules_path) where
  put_rules-RuleAt :
      (to_int : ℕ → ℤ) (backend : String) (w : ℤ) (route route' : O) (rules : List Value)
      (matched : Bool) (changes : List BackendChange) (out : Bool × List BackendChange × List Value)
      → k.nested_slice rules_path route ≡ ok (some rules)
      → All (RuleAt to_int backend w) out.2
      → (out.1 ≡ [] → out.2 ≡ rules)
      → put_rules k route out ≡ ok (matched, changes, route')
      → (rules' : List Value) × (k.nested_slice rules_path route' ≡ ok (some rules'))
        × All (RuleAt to_int backend w) rules'
  put_rules-RuleAt to_int backend w route route' rules matched changes (m, [], left) e h same done =
      let there : route ≡ route' = ground arith in
      (
        rules,
        ap (k.nested_slice rules_path) (sym there) ∙ e,
        subst (All (RuleAt to_int backend w)) (same refl) h,
      )
  put_rules-RuleAt to_int backend w route route' rules matched changes (m, c ∷ cs, left) e h same
        done =
      elim (Fallible-cases (k.set_nested_slice rules_path left route)) [
        | inl (o, set) ↦
            let there : o ≡ route' = ground arith in
            (left, ap (k.nested_slice rules_path) (sym there) ∙ lens.read_back route o left set, h)
        | inr (failure, set) ↦ ground arith
      ]

  apply_weight_idle :
      (route : O) (rules : List Value) (backend : String) (w : ℤ)
      → k.nested_slice rules_path route ≡ ok (some rules)
      → All (RuleAt k.float_to_int64 backend w) rules
      → apply_weight k route backend w
        ≡ ok ((apply_rules k.float_to_int64 backend w 0 rules).0, [], route)
  unfolding apply_weight
  apply_weight_idle route rules backend w e h =
      let out = apply_rules k.float_to_int64 backend w 0 rules in
      rw (apply_weight, e)
        (ap (λ (cs : List BackendChange). put_rules k route (out.0, cs, out.2))
          (apply_rules_idle k.float_to_int64 backend w 0 rules h))

  -- On the route that applyWeight leaves, every ref of the backend in every rule is at the weight
  -- asked for, where a ref without a weight counts as weighing 1; so applyWeight on that route changes
  -- nothing and reports no change.
  pub apply_weight-RuleAt :
      (route route' : O) (rules : List Value) (backend : String) (w : ℤ) (matched : Bool)
      (changes : List BackendChange)
      → k.nested_slice rules_path route ≡ ok (some rules)
      → apply_weight k route backend w ≡ ok (matched, changes, route')
      → (rules' : List Value) × (k.nested_slice rules_path route' ≡ ok (some rules'))
        × All (RuleAt k.float_to_int64 backend w) rules'
        × (apply_weight k route' backend w
            ≡ ok ((apply_rules k.float_to_int64 backend w 0 rules').0, [], route'))
  unfolding apply_weight
  apply_weight-RuleAt route route' rules backend w matched changes e done =
      let (rules', read, weighed) =
        put_rules-RuleAt k.float_to_int64 backend w route route' rules matched changes
          (apply_rules k.float_to_int64 backend w 0 rules) e
          (apply_rules-RuleAt k.float_to_int64 backend w 0 rules)
          (apply_rules_kept k.float_to_int64 backend w 0 rules) (rw (apply_weight, e) at done) in
      (rules', read, weighed, apply_weight_idle route' rules' backend w read weighed)
