-- ===== src/Plugins/MeshShift/RoundTrip.antt =====
-- restoreWeights undoes applyWeight.
use reactive_policy.Common.{
  ℕ, suc, ℤ, pos, String, List, [], ◌∷◌, ◌++◌, Option, none, some, Bool, ok, if◌then◌else◌, ◌≡◌,
  refl, ap, sym, ◌∙◌, arith, length, length-append, All, Fallible-cases, inl, inr, append_assoc,
  eq_self,
}
use reactive_policy.Action.Types.{Value, Items, Fields}
use reactive_policy.Action.Values.{
  member, put_member, member-put_member, put_member_self, put_member_twice,
}
use reactive_policy.Plugins.Kit.{Kit}
use reactive_policy.Plugins.MeshShift.Weights.{
  BackendChange, apply_refs, apply_rule, apply_rules, apply_weight, restore_refs, restore_rule,
  restore_one, restore_all, restore_weights, rules_path, put_refs, write_rule, rule_at, on_refs,
  put_rules,
}
use reactive_policy.Plugins.MeshShift.Refs.{
  AreRefs, RuleHasWeights, or_refs, restored, get_elem?-append, set_rule-append, restore_all-append,
  apply_refs-restored, apply_refs-InRule,
}

with_refs : Fields → Items → Value
with_refs rule refs = Value.object (put_member "backendRefs" (Value.array refs) rule)

member-with_refs :
    (rule : Fields) (refs : Value)
    → member "backendRefs" (put_member "backendRefs" refs rule) ≡ some refs
member-with_refs rule refs =
    member-put_member "backendRefs" "backendRefs" refs rule
    ∙ ap (λ b. if b then some refs else member "backendRefs" rule) (eq_self "backendRefs")

write_rule-with_refs :
    (xs ys : List Value) (rule : Fields) (refs : Items) (out : Option Items)
    → write_rule
        (pos (length xs))
        (xs ++ with_refs rule refs ∷ ys)
        (put_refs (put_member "backendRefs" (Value.array refs) rule) out)
      ≡ xs ++ with_refs rule (or_refs refs out) ∷ ys
unfolding with_refs
write_rule-with_refs xs ys rule refs none = refl
write_rule-with_refs xs ys rule refs (some refs') = rw (set_rule-append, put_member_twice)

restore_rule-with_refs :
    (c : BackendChange) (rule : Fields) (refs : Items)
    → restore_rule c (some (with_refs rule refs))
      ≡ put_refs
          (put_member "backendRefs" (Value.array refs) rule)
          (restore_refs c (some (Value.array refs)))
unfolding restore_rule with_refs
restore_rule-with_refs c rule refs =
    ap (λ m. put_refs (put_member "backendRefs" (Value.array refs) rule) (restore_refs c m))
      (member-with_refs rule (Value.array refs))

-- One change of a rule that has refs.
restore_one-with_refs :
    (c : BackendChange) (xs ys : List Value) (rule : Fields) (refs : Items)
    → c.rule ≡ pos (length xs)
    → restore_one c (xs ++ with_refs rule refs ∷ ys)
      ≡ xs ++ with_refs rule (or_refs refs (restore_refs c (some (Value.array refs)))) ∷ ys
unfolding restore_one
restore_one-with_refs c xs ys rule refs e =
    let rules = xs ++ with_refs rule refs ∷ ys in
    ap (λ i. write_rule i rules (restore_rule c (rule_at i rules))) e
    ∙ rw (get_elem?-append, restore_rule-with_refs) (write_rule-with_refs xs ys rule refs _)

restore_all-with_refs :
    (cs : List BackendChange) (xs ys : List Value) (rule : Fields) (refs : Items)
    → All (λ (c : BackendChange). c.rule ≡ pos (length xs)) cs
    → restore_all cs (xs ++ with_refs rule refs ∷ ys) ≡ xs ++ with_refs rule (restored cs refs) ∷ ys
unfolding restore_all
restore_all-with_refs [] xs ys rule refs h = refl
restore_all-with_refs (c ∷ cs) xs ys rule refs (h, hs) =
    ap (restore_all cs) (restore_one-with_refs c xs ys rule refs h)
    ∙ restore_all-with_refs cs xs ys rule _ hs

module _ (to_int : ℕ → ℤ) (w : ℤ) where
  on_refs-restored :
      (backend : String) (xs ys : List Value) (ri : ℕ) (rule : Fields) (refs : Option Value)
      → length xs ≡ ri
      → member "backendRefs" rule ≡ refs
      → AreRefs backend refs
      → let out = on_refs to_int backend w ri rule refs in
        restore_all out.1 (xs ++ out.2 ∷ ys) ≡ xs ++ Value.object rule ∷ ys
  unfolding restore_all with_refs
  on_refs-restored backend xs ys ri rule (some (Value.array refs)) e m h =
      let out = apply_refs to_int backend w ri 0 refs in
      restore_all-with_refs out.1 xs ys rule out.2
        (rw e (apply_refs-InRule to_int w backend ri 0 refs))
      ∙ ap (λ r. xs ++ with_refs rule r ∷ ys)
          (apply_refs-restored to_int w backend ri 0 [] refs refl h)
      ∙ ap (λ r. xs ++ Value.object r ∷ ys)
          (put_member_self "backendRefs" (Value.array refs) rule m)
  on_refs-restored backend xs ys ri rule _ e m h = refl

  apply_rule-restored :
      (backend : String) (xs ys : List Value) (ri : ℕ) (v : Value)
      → length xs ≡ ri
      → RuleHasWeights backend v
      → let out = apply_rule to_int backend w ri v in
        restore_all out.1 (xs ++ out.2 ∷ ys) ≡ xs ++ v ∷ ys
  unfolding apply_rule restore_all
  apply_rule-restored backend xs ys ri (Value.object rule) e h =
      on_refs-restored backend xs ys ri rule (member "backendRefs" rule) e refl h
  apply_rule-restored backend xs ys ri _ e h = refl

  apply_rules-restored :
      (backend : String) (xs : List Value) (ri : ℕ) (rules : List Value)
      → length xs ≡ ri
      → All (RuleHasWeights backend) rules
      → let out = apply_rules to_int backend w ri rules in
        restore_all out.1 (xs ++ out.2) ≡ xs ++ rules
  unfolding apply_rules restore_all
  apply_rules-restored backend xs ri [] e h = refl
  apply_rules-restored backend xs ri (v ∷ rest) e (h, hs) =
      let (m, changes, v') = apply_rule to_int backend w ri v in
      let (more, later, rest') = apply_rules to_int backend w (suc ri) rest in
      restore_all-append changes later _
      ∙ ap (restore_all later) (apply_rule-restored backend xs rest' ri v e h)
      ∙ ap (restore_all later) (sym (append_assoc xs (v ∷ []) rest'))
      ∙ apply_rules-restored backend (xs ++ v ∷ []) (suc ri) rest
          (omega (arith, e, length-append xs (v ∷ []))) hs
      ∙ append_assoc xs (v ∷ []) rest

-- What the package `unstructured` documents of reading and setting a slice at a path: what is set is
-- read, a later set replaces an earlier one, and setting what was read changes nothing.
pub record IsLens {O : Type 0} (k : Kit O) (path : List String) : Type 0 where
  pub read_back :
      (o o' : O) (xs : List Value)
      → k.set_nested_slice path xs o ≡ ok o'
      → k.nested_slice path o' ≡ ok (some xs)
  pub set_twice :
      (o o' : O) (xs ys : List Value)
      → k.set_nested_slice path xs o ≡ ok o'
      → k.set_nested_slice path ys o' ≡ k.set_nested_slice path ys o
  pub set_same :
      (o : O) (xs : List Value)
      → k.nested_slice path o ≡ ok (some xs)
      → k.set_nested_slice path xs o ≡ ok o

module _ {O : Type 0} (k : Kit O) (lens : IsLens k rules_path) where
  restore_weights-read :
      (route : O) (rules : List Value) (changes : List BackendChange)
      → k.nested_slice rules_path route ≡ ok (some rules)
      → restore_weights k route changes
        ≡ k.set_nested_slice rules_path (restore_all changes rules) route
  unfolding restore_weights restore_all
  restore_weights-read route rules changes e = rw (restore_weights, e)

  put_rules-restored :
      (route route' : O) (rules : List Value) (matched : Bool) (changes : List BackendChange)
      (out : Bool × List BackendChange × List Value)
      → k.nested_slice rules_path route ≡ ok (some rules)
      → restore_all out.1 out.2 ≡ rules
      → put_rules k route out ≡ ok (matched, changes, route')
      → restore_weights k route' changes ≡ ok route
  unfolding restore_all
  put_rules-restored route route' rules matched changes (m, [], rules') e h done =
      let there : route ≡ route' = ground arith in
      let none_left : [] ≡ changes = ground arith in
      rw (← there, ← none_left)
        (restore_weights-read route rules [] e ∙ lens.set_same route rules e)
  put_rules-restored route route' rules matched changes (m, c ∷ cs, rules') e h done =
      elim (Fallible-cases (k.set_nested_slice rules_path rules' route)) [
        | inl (o, set) ↦
            let there : o ≡ route' = ground arith in
            let all : c ∷ cs ≡ changes = ground arith in
            rw (← there, ← all)
              (restore_weights-read o rules' (c ∷ cs) (lens.read_back route o rules' set)
                ∙ rw h (lens.set_twice route o rules' rules set ∙ lens.set_same route rules e))
        | inr (failure, set) ↦ ground arith
      ]

  -- If the weights of the backend's refs are integers or absent, restoring the changes that
  -- applyWeight reports, on the route that it leaves, gives the route as it was before: every rule
  -- and ref is at its place, and a weight that was absent is absent again.
  pub restore_weights-apply_weight :
      (route route' : O) (rules : List Value) (backend : String) (w : ℤ) (matched : Bool)
      (changes : List BackendChange)
      → k.nested_slice rules_path route ≡ ok (some rules)
      → All (RuleHasWeights backend) rules
      → apply_weight k route backend w ≡ ok (matched, changes, route')
      → restore_weights k route' changes ≡ ok route
  unfolding apply_weight
  restore_weights-apply_weight route route' rules backend w matched changes e h done =
      put_rules-restored route route' rules matched changes
        (apply_rules k.float_to_int64 backend w 0 rules) e
        (apply_rules-restored k.float_to_int64 w backend [] 0 rules refl h)
        (rw (apply_weight, e) at done)
