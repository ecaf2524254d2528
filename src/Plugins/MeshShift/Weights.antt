-- ===== src/Plugins/MeshShift/Weights.antt =====
-- applyWeight, restoreWeights and toInt64 of plugins/mesh-shift/plugin.go, and its params.go. Both
-- work on a copy of the route's rules, in place; here the loops return the list that they leave.
use reactive_policy.Common.{
  ℕ, zero, suc, ℤ, pos, negsuc, leb_ℤ, String, List, [], ◌∷◌, ◌++◌, Option, none, some, Bool, true,
  false, ◌||◌, ◌&&◌, Fallible, ok, err, str_eq, if◌then◌else◌, get_elem?,
}
use reactive_policy.Action.Types.{Value, Items, Fields}
use reactive_policy.Action.Values.{member, put_member, delete_member, item, set_item}
use reactive_policy.Plugins.Kit.{Kit, text_of}

-- params
pub record MeshParams : Type 0 where
  pub route_name : String
  pub route_namespace : String
  pub backend : String
  pub weight_param : Option ℤ

abbrev pub max_weight : ℤ
max_weight = pos 1000000

abbrev pub default_weight : ℤ
default_weight = pos 1

-- params.weight
abbrev pub weight : MeshParams → ℤ
weight params = elim params.weight_param [ none ↦ pos 0 | some w ↦ w ]

pub record BackendChange : Type 0 where
  pub rule : ℤ
  pub ref : ℤ
  pub old_weight : ℤ
  pub had : Bool

abbrev pub eq_ℤ : ℤ → ℤ → Bool
eq_ℤ a b = leb_ℤ a b && leb_ℤ b a

abbrev pub had_weight : Option ℤ → Bool
had_weight none = false
had_weight (some n) = true

abbrev pub weight_or : ℤ → Option ℤ → ℤ
weight_or other none = other
weight_or other (some n) = n

abbrev pub on_weight : ℕ → ℕ → ℤ → Fields → Option ℤ → Bool × List BackendChange × Value
on_weight ri bi w ref old =
    if eq_ℤ (weight_or default_weight old) w then (true, [], Value.object ref) else (
      true,
      record {
        rule = pos ri;
        ref = pos bi;
        old_weight = weight_or (pos 0) old;
        had = had_weight old;
      }
          ∷ [],
      Value.object (put_member "weight" (Value.number w) ref),
    )

module _ (float_to_int64 : ℕ → ℤ) where
  -- toInt64 of m[key]; `none` is false
  unfoldable pub to_int64_of : Option Value → Option ℤ
  to_int64_of (some (Value.number n)) = some n
  to_int64_of (some (Value.float bits)) = some (float_to_int64 bits)
  to_int64_of _ = none

  -- What the loop over the refs does to one ref: did it match, what changed, and the ref.
  unfoldable pub apply_ref : String → ℤ → ℕ → ℕ → Value → Bool × List BackendChange × Value
  unfolding to_int64_of
  apply_ref backend w ri bi (Value.object ref) =
      if str_eq (text_of (member "name" ref)) backend
      then on_weight ri bi w ref (to_int64_of (member "weight" ref))
      else (false, [], Value.object ref)
  apply_ref backend w ri bi other = (false, [], other)

  -- the loop over refs, from index `bi`
  unfoldable pub apply_refs : String → ℤ → ℕ → ℕ → Items → Bool × List BackendChange × Items
  unfolding apply_ref
  apply_refs backend w ri bi Items.nil = (false, [], Items.nil)
  apply_refs backend w ri bi (Items.cons ref rest) =
      let (matched, changes, ref') = apply_ref backend w ri bi ref in
      let (more, later, rest') = apply_refs backend w ri (suc bi) rest in
      (matched || more, changes ++ later, Items.cons ref' rest')

  abbrev pub on_refs : String → ℤ → ℕ → Fields → Option Value → Bool × List BackendChange × Value
  on_refs backend w ri rule (some (Value.array refs)) =
      let (matched, changes, refs') = apply_refs backend w ri 0 refs in
      (matched, changes, Value.object (put_member "backendRefs" (Value.array refs') rule))
  on_refs backend w ri rule _ = (false, [], Value.object rule)

  unfoldable pub apply_rule : String → ℤ → ℕ → Value → Bool × List BackendChange × Value
  unfolding apply_refs
  apply_rule backend w ri (Value.object rule) =
      on_refs backend w ri rule (member "backendRefs" rule)
  apply_rule backend w ri other = (false, [], other)

  -- the loop over rules, from index `ri`
  unfoldable pub apply_rules : String → ℤ → ℕ → List Value → Bool × List BackendChange × List Value
  unfolding apply_rule
  apply_rules backend w ri [] = (false, [], [])
  apply_rules backend w ri (rule ∷ rest) =
      let (matched, changes, rule') = apply_rule backend w ri rule in
      let (more, later, rest') = apply_rules backend w (suc ri) rest in
      (matched || more, changes ++ later, rule' ∷ rest')

abbrev pub rules_path : List String
rules_path = "spec" ∷ "rules" ∷ []

-- v[i] for a Go int; `none` is out of range
abbrev item_at : ℤ → Items → Option Value
item_at (pos i) refs = item i refs
item_at (negsuc i) refs = none

abbrev set_item_at : ℤ → Value → Items → Items
set_item_at (pos i) value refs = set_item i value refs
set_item_at (negsuc i) value refs = refs

abbrev pub set_rule : ℕ → Value → List Value → List Value
set_rule i value [] = []
set_rule zero value (rule ∷ rest) = value ∷ rest
set_rule (suc i) value (rule ∷ rest) = rule ∷ set_rule i value rest

abbrev pub rule_at : ℤ → List Value → Option Value
rule_at (pos i) rules = get_elem? rules i
rule_at (negsuc i) rules = none

-- `rules[ch.Rule] = rule`, or `continue`
abbrev pub write_rule : ℤ → List Value → Option Value → List Value
write_rule (pos i) rules (some rule) = set_rule i rule rules
write_rule _ rules _ = rules

unfoldable pub restore_ref : BackendChange → Fields → Fields
restore_ref change ref =
    if change.had
    then put_member "weight" (Value.number change.old_weight) ref
    else delete_member "weight" ref

abbrev restore_in : BackendChange → Items → Option Value → Option Items
restore_in change refs (some (Value.object ref)) =
    some (set_item_at change.ref (Value.object (restore_ref change ref)) refs)
restore_in change refs _ = none

-- `none` is a `continue`
unfoldable pub restore_refs : BackendChange → Option Value → Option Items
unfolding restore_ref
restore_refs change (some (Value.array refs)) = restore_in change refs (item_at change.ref refs)
restore_refs change _ = none

abbrev pub put_refs : Fields → Option Items → Option Value
put_refs rule none = none
put_refs rule (some refs) = some (Value.object (put_member "backendRefs" (Value.array refs) rule))

unfoldable pub restore_rule : BackendChange → Option Value → Option Value
unfolding restore_refs
restore_rule change (some (Value.object rule)) =
    put_refs rule (restore_refs change (member "backendRefs" rule))
restore_rule change _ = none

unfoldable pub restore_one : BackendChange → List Value → List Value
unfolding restore_rule
restore_one change rules =
    write_rule change.rule rules (restore_rule change (rule_at change.rule rules))

unfoldable pub restore_all : List BackendChange → List Value → List Value
unfolding restore_one
restore_all [] rules = rules
restore_all (change ∷ rest) rules = restore_all rest (restore_one change rules)

abbrev pub put_rules :
    {O : Type 0}
    → Kit O
    → O
    → Bool × List BackendChange × List Value
    → Fallible (Bool × List BackendChange × O)
put_rules k route (matched, [], rules) = ok (matched, [], route)
put_rules k route (matched, change ∷ changes, rules) =
    elim (k.set_nested_slice rules_path rules route) [
      | err e ↦ err e
      | ok route' ↦ ok (matched, change ∷ changes, route')
    ]

module _ {O : Type 0} (k : Kit O) where
  -- applyWeight; its callers read `matched` only if there is no error
  unfoldable pub apply_weight : O → String → ℤ → Fallible (Bool × List BackendChange × O)
  unfolding apply_rules
  apply_weight route backend w = elim (k.nested_slice rules_path route) [
    | err e ↦ err e
    | ok none ↦ ok (false, [], route)
    | ok (some rules) ↦ put_rules k route (apply_rules k.float_to_int64 backend w 0 rules)
  ]

  -- restoreWeights
  unfoldable pub restore_weights : O → List BackendChange → Fallible O
  unfolding restore_all
  restore_weights route changes = elim (k.nested_slice rules_path route) [
    | err e ↦ err e
    | ok none ↦ ok route
    | ok (some rules) ↦ k.set_nested_slice rules_path (restore_all changes rules) route
  ]
