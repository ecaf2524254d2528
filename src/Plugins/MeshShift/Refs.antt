-- ===== src/Plugins/MeshShift/Refs.antt =====
-- The weights that restoreWeights puts back: the refs of one rule.
use reactive_policy.Common.{
  ℕ, suc, ℤ, pos, String, List, [], ◌∷◌, ◌++◌, Option, none, some, true, str_eq, ◌≡◌, refl, ap, sym,
  ◌∙◌, arith, length, length-append, get_elem?, All, All-append, Bool-cases, inl, inr,
}
use reactive_policy.Action.Types.{Value, Items, Fields}
use reactive_policy.Action.Values.{
  member, put_member, item, set_item, put_member-put_member, delete_member-put_member,
}
use reactive_policy.Plugins.Kit.{text_of}
use reactive_policy.Plugins.MeshShift.Weights.{
  BackendChange, apply_ref, apply_refs, to_int64_of, restore_ref, restore_refs, restore_all,
  set_rule, weight_or, had_weight, eq_ℤ, default_weight, on_weight,
}

-- A weight that is an integer, or is not there.
abbrev pub IsWeight : Option Value → Type 0
IsWeight none = Unit
IsWeight (some (Value.number n)) = Unit
IsWeight (some _) = ⊥

abbrev pub RefHasWeight : String → Value → Type 0
RefHasWeight backend (Value.object ref) =
    str_eq (text_of (member "name" ref)) backend ≡ true → IsWeight (member "weight" ref)
RefHasWeight backend _ = Unit

abbrev pub RefsHaveWeights : String → Items → Type 0
RefsHaveWeights backend Items.nil = Unit
RefsHaveWeights backend (Items.cons ref rest) =
    RefHasWeight backend ref × RefsHaveWeights backend rest

abbrev pub AreRefs : String → Option Value → Type 0
AreRefs backend (some (Value.array refs)) = RefsHaveWeights backend refs
AreRefs backend _ = Unit

abbrev pub RuleHasWeights : String → Value → Type 0
RuleHasWeights backend (Value.object rule) = AreRefs backend (member "backendRefs" rule)
RuleHasWeights backend _ = Unit

-- The refs behind a prefix.
abbrev onto : List Value → Items → Items
onto [] refs = refs
onto (x ∷ xs) refs = Items.cons x (onto xs refs)

onto-append :
    (xs : List Value) (x : Value) (refs : Items)
    → onto (xs ++ x ∷ []) refs ≡ onto xs (Items.cons x refs)
onto-append [] x refs = refl
onto-append (y ∷ xs) x refs = ap (Items.cons y) (onto-append xs x refs)

item-onto :
    (xs : List Value) (x : Value) (refs : Items)
    → item (length xs) (onto xs (Items.cons x refs)) ≡ some x
item-onto [] x refs = refl
item-onto (y ∷ xs) x refs = item-onto xs x refs

set_item-onto :
    (xs : List Value) (x y : Value) (refs : Items)
    → set_item (length xs) y (onto xs (Items.cons x refs)) ≡ onto xs (Items.cons y refs)
set_item-onto [] x y refs = refl
set_item-onto (z ∷ xs) x y refs = ap (Items.cons z) (set_item-onto xs x y refs)

pub get_elem?-append :
    (xs : List Value) (x : Value) (ys : List Value) → get_elem? (xs ++ x ∷ ys) (length xs) ≡ some x
get_elem?-append [] x ys = refl
get_elem?-append (y ∷ xs) x ys = get_elem?-append xs x ys

pub set_rule-append :
    (xs : List Value) (x y : Value) (ys : List Value)
    → set_rule (length xs) y (xs ++ x ∷ ys) ≡ xs ++ y ∷ ys
set_rule-append [] x y ys = refl
set_rule-append (z ∷ xs) x y ys = ap (λ t. z ∷ t) (set_rule-append xs x y ys)

-- What a change does to the refs of its rule, and what a list of changes does.
abbrev pub or_refs : Items → Option Items → Items
or_refs refs none = refs
or_refs refs (some refs') = refs'

abbrev pub restored : List BackendChange → Items → Items
restored [] refs = refs
restored (c ∷ cs) refs = restored cs (or_refs refs (restore_refs c (some (Value.array refs))))

restored-append :
    (xs ys : List BackendChange) (refs : Items)
    → restored (xs ++ ys) refs ≡ restored ys (restored xs refs)
restored-append [] ys refs = refl
restored-append (x ∷ xs) ys refs = restored-append xs ys _

pub restore_all-append :
    (xs ys : List BackendChange) (rules : List Value)
    → restore_all (xs ++ ys) rules ≡ restore_all ys (restore_all xs rules)
unfolding restore_all
restore_all-append [] ys rules = refl
restore_all-append (x ∷ xs) ys rules = restore_all-append xs ys _

module _ (to_int : ℕ → ℤ) (w : ℤ) where
  change_at : ℕ → ℕ → Option Value → BackendChange
  change_at ri bi old = record {
    rule = pos ri;
    ref = pos bi;
    old_weight = weight_or (pos 0) (to_int64_of to_int old);
    had = had_weight (to_int64_of to_int old);
  }

  restore_ref-put_member :
      (ri bi : ℕ) (ref : Fields) (old : Option Value)
      → member "weight" ref ≡ old
      → IsWeight old
      → restore_ref (change_at ri bi old) (put_member "weight" (Value.number w) ref) ≡ ref
  unfolding change_at restore_ref to_int64_of
  restore_ref-put_member ri bi ref none e h =
      delete_member-put_member "weight" (Value.number w) ref e
  restore_ref-put_member ri bi ref (some (Value.number n)) e h =
      put_member-put_member "weight" (Value.number w) (Value.number n) ref e
  restore_ref-put_member ri bi ref (some _) e h = absurd h

  restored-change :
      (ri : ℕ) (xs : List Value) (ref : Fields) (refs : Items) (old : Option Value)
      → member "weight" ref ≡ old
      → IsWeight old
      → restored
          (change_at ri (length xs) old ∷ [])
          (onto xs (Items.cons (Value.object (put_member "weight" (Value.number w) ref)) refs))
        ≡ onto xs (Items.cons (Value.object ref) refs)
  unfolding change_at restore_refs
  restored-change ri xs ref refs old e h =
      rw item-onto (rw set_item-onto (rw (restore_ref-put_member ri (length xs) ref old e h)))

  on_weight-restored :
      (ri : ℕ) (xs : List Value) (ref : Fields) (refs : Items) (old : Option Value)
      → member "weight" ref ≡ old
      → IsWeight old
      → let out = on_weight ri (length xs) w ref (to_int64_of to_int old) in
        restored out.1 (onto xs (Items.cons out.2 refs))
        ≡ onto xs (Items.cons (Value.object ref) refs)
  unfolding change_at
  on_weight-restored ri xs ref refs old e h =
      elim (Bool-cases (eq_ℤ (weight_or default_weight (to_int64_of to_int old)) w)) [
        | inl same ↦ rw same
        | inr moved ↦ rw moved (restored-change ri xs ref refs old e h)
      ]

  apply_ref-restored :
      (backend : String) (ri bi : ℕ) (xs : List Value) (v : Value) (refs : Items)
      → length xs ≡ bi
      → RefHasWeight backend v
      → let out = apply_ref to_int backend w ri bi v in
        restored out.1 (onto xs (Items.cons out.2 refs)) ≡ onto xs (Items.cons v refs)
  unfolding apply_ref
  apply_ref-restored backend ri bi xs (Value.object ref) refs e h =
      elim (Bool-cases (str_eq (text_of (member "name" ref)) backend)) [
        | inl same ↦
            rw (same, ← e) (on_weight-restored ri xs ref refs (member "weight" ref) refl (h same))
        | inr other ↦ rw other
      ]
  apply_ref-restored backend ri bi xs _ refs e h = refl

  pub apply_refs-restored :
      (backend : String) (ri bi : ℕ) (xs : List Value) (refs : Items)
      → length xs ≡ bi
      → RefsHaveWeights backend refs
      → let out = apply_refs to_int backend w ri bi refs in
        restored out.1 (onto xs out.2) ≡ onto xs refs
  unfolding apply_refs
  apply_refs-restored backend ri bi xs Items.nil e h = refl
  apply_refs-restored backend ri bi xs (Items.cons v rest) e (h, hs) =
      let (m, changes, v') = apply_ref to_int backend w ri bi v in
      let (more, later, rest') = apply_refs to_int backend w ri (suc bi) rest in
      restored-append changes later _
      ∙ ap (restored later) (apply_ref-restored backend ri bi xs v rest' e h)
      ∙ ap (restored later) (sym (onto-append xs v rest'))
      ∙ apply_refs-restored backend ri (suc bi) (xs ++ v ∷ []) rest
          (omega (arith, e, length-append xs (v ∷ []))) hs
      ∙ onto-append xs v rest

  -- Every change that a loop over the refs makes names its rule.
  abbrev pub InRule : ℕ → List BackendChange → Type 0
  InRule ri changes = All (λ (c : BackendChange). c.rule ≡ pos ri) changes

  apply_ref-InRule :
      (backend : String) (ri bi : ℕ) (v : Value) → InRule ri (apply_ref to_int backend w ri bi v).1
  unfolding apply_ref
  apply_ref-InRule backend ri bi (Value.object ref) =
      elim (Bool-cases (str_eq (text_of (member "name" ref)) backend)) [
        | inl same ↦
            rw same
              (elim (Bool-cases
                (eq_ℤ (weight_or default_weight (to_int64_of to_int (member "weight" ref))) w)) [
                  | inl there ↦ rw there tt
                  | inr moved ↦ rw moved (refl, tt)
                ])
        | inr other ↦ rw other tt
      ]
  apply_ref-InRule backend ri bi _ = tt

  pub apply_refs-InRule :
      (backend : String) (ri bi : ℕ) (refs : Items)
      → InRule ri (apply_refs to_int backend w ri bi refs).1
  unfolding apply_refs
  apply_refs-InRule backend ri bi Items.nil = tt
  apply_refs-InRule backend ri bi (Items.cons v rest) =
      All-append _ _ _ (apply_ref-InRule backend ri bi v)
        (apply_refs-InRule backend ri (suc bi) rest)
