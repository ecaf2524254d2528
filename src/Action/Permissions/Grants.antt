-- ===== src/Action/Permissions/Grants.antt =====
-- The merged rules grant what the plugins' rules grant.
use reactive_policy.Common.{
  String, List, [], ◌∷◌, Option, none, some, Bool, false, ◌||◌, ◌&&◌, Assoc, lookup, insert, str_eq,
  eq_iff, ◌≡◌, refl, sym, ap, ◌∙◌, subst, arith, All, Bool-cases, inl, inr,
}
use reactive_policy.Action.Types.{PolicyRule, Plugin}
use reactive_policy.Action.Permissions.{
  contains, dedupe_sort, bucket_key, RuleBucket, with_verbs, add_rule, add_rules, rules_of,
  insert_rule, sort_rules, required, aggregate_permissions,
}
use reactive_policy.Action.Permissions.Sorting.{
  contains-sort_texts, contains-dedupe_sort, contains-add_verbs,
}
use reactive_policy.Action.Permissions.Keys.{PlainNames, bucket_key_inj, PlainNames-dedupe_sort}

-- A rule grants a verb on a resource of a group.
abbrev pub grants : PolicyRule → String → String → String → Bool
grants rule group resource verb =
    contains group rule.api_groups && contains resource rule.resources && contains verb rule.verbs

abbrev pub some_grants : List PolicyRule → String → String → String → Bool
some_grants [] group resource verb = false
some_grants (rule ∷ rest) group resource verb =
    grants rule group resource verb || some_grants rest group resource verb

abbrev pub IsPlainRule : PolicyRule → Type 0
IsPlainRule rule = PlainNames rule.api_groups × PlainNames rule.resources

abbrev bucket_grants : RuleBucket → String → String → String → Bool
bucket_grants bucket group resource verb =
    contains group bucket.groups && contains resource bucket.resources && contains verb bucket.verbs

-- Every bucket stands under its own key.
abbrev IsKept : String × RuleBucket → Type 0
IsKept (key, bucket) =
    (key ≡ bucket_key bucket.groups bucket.resources)
    × PlainNames bucket.groups
    × PlainNames bucket.resources

lookup-IsKept :
    (key : String) (old : RuleBucket) (bs : Assoc RuleBucket)
    → All IsKept bs
    → lookup key bs ≡ some old
    → IsKept (key, old)
unfolding lookup
lookup-IsKept key old [] h e = ground arith
lookup-IsKept key old ((here, b) ∷ bs) (h, hs) e = elim (Bool-cases (str_eq here key)) [
  | inl same ↦
      subst (λ k. IsKept (k, old)) ((eq_iff here key).0 same)
        (let whole : b ≡ old = ground arith in subst (λ r. IsKept (here, r)) whole h)
  | inr other ↦ lookup-IsKept key old bs hs (rw other at e)
]

insert-IsKept :
    (key : String) (bucket : RuleBucket) (bs : Assoc RuleBucket)
    → IsKept (key, bucket)
    → All IsKept bs
    → All IsKept (insert key bucket bs)
unfolding insert
insert-IsKept key bucket [] k h = (k, tt)
insert-IsKept key bucket ((here, b) ∷ bs) k (h, hs) = elim (Bool-cases (str_eq here key)) [
  | inl same ↦ rw (All, same) (k, hs)
  | inr other ↦ rw (All, other) (h, insert-IsKept key bucket bs k hs)
]

key_of : PolicyRule → String
key_of rule = bucket_key (dedupe_sort rule.api_groups) (dedupe_sort rule.resources)

bucket_of : PolicyRule → Assoc RuleBucket → RuleBucket
bucket_of rule bs =
    with_verbs (dedupe_sort rule.api_groups) (dedupe_sort rule.resources) rule.verbs
      (lookup (key_of rule) bs)

with_verbs-IsKept :
    (key : String) (gs rs verbs : List String) (found : Option RuleBucket)
    → key ≡ bucket_key gs rs
    → PlainNames gs
    → PlainNames rs
    → ((old : RuleBucket) → found ≡ some old → IsKept (key, old))
    → IsKept (key, with_verbs gs rs verbs found)
with_verbs-IsKept key gs rs verbs none e hg hr old = (e, hg, hr)
with_verbs-IsKept key gs rs verbs (some bucket) e hg hr old = old bucket refl

bucket_of-IsKept :
    (rule : PolicyRule) (bs : Assoc RuleBucket)
    → IsPlainRule rule
    → All IsKept bs
    → IsKept (key_of rule, bucket_of rule bs)
unfolding key_of bucket_of
bucket_of-IsKept rule bs (hg, hr) h =
    with_verbs-IsKept (key_of rule) _ _ rule.verbs (lookup (key_of rule) bs) refl
      (PlainNames-dedupe_sort rule.api_groups hg) (PlainNames-dedupe_sort rule.resources hr)
      (λ old e. lookup-IsKept (key_of rule) old bs h e)

add_rule-IsKept :
    (rule : PolicyRule) (bs : Assoc RuleBucket)
    → IsPlainRule rule
    → All IsKept bs
    → All IsKept (add_rule rule bs)
unfolding add_rule key_of bucket_of
add_rule-IsKept rule bs plain h =
    insert-IsKept (key_of rule) (bucket_of rule bs) bs (bucket_of-IsKept rule bs plain h) h

module _ (group resource verb : String) where
  abbrev bs_grant : Assoc RuleBucket → Bool
  bs_grant [] = false
  bs_grant ((key, bucket) ∷ rest) = bucket_grants bucket group resource verb || bs_grant rest

  -- A write under a key whose bucket grants less
  bs_grant-insert :
      (key : String) (bucket : RuleBucket) (more : Bool) (bs : Assoc RuleBucket)
      → ((old : RuleBucket)
          → lookup key bs ≡ some old
          → bucket_grants bucket group resource verb
            ≡ bucket_grants old group resource verb || more)
      → (lookup key bs ≡ none → bucket_grants bucket group resource verb ≡ more)
      → bs_grant (insert key bucket bs) ≡ bs_grant bs || more
  unfolding lookup insert
  bs_grant-insert key bucket more [] old new = rw (new refl) (ground arith)
  bs_grant-insert key bucket more ((here, b) ∷ bs) old new = elim (Bool-cases (str_eq here key)) [
    | inl same ↦ ground (arith, old b (rw same))
    | inr other ↦ ground (
      arith,
      bs_grant-insert key bucket more bs (λ o e. old o (rw other e)) (λ e. new (rw other e)),
    )
  ]

  with_verbs-grants :
      (rule : PolicyRule) (gs rs : List String) (old : RuleBucket)
      → gs ≡ dedupe_sort rule.api_groups
      → rs ≡ dedupe_sort rule.resources
      → old.groups ≡ gs
      → old.resources ≡ rs
      → bucket_grants (with_verbs gs rs rule.verbs (some old)) group resource verb
        ≡ bucket_grants old group resource verb || grants rule group resource verb
  with_verbs-grants rule gs rs old hg hr og or = ground (
    arith,
    contains-add_verbs verb old.verbs rule.verbs,
    contains-dedupe_sort group rule.api_groups,
    contains-dedupe_sort resource rule.resources,
    ap (contains group) (og ∙ hg),
    ap (contains resource) (or ∙ hr),
  )

  fresh-grants :
      (rule : PolicyRule)
      → bucket_grants
          (with_verbs (dedupe_sort rule.api_groups) (dedupe_sort rule.resources) rule.verbs none)
          group
          resource
          verb
        ≡ grants rule group resource verb
  fresh-grants rule = rw (contains-add_verbs, contains-dedupe_sort, contains-dedupe_sort)

  add_rule-grants :
      (rule : PolicyRule) (bs : Assoc RuleBucket)
      → IsPlainRule rule
      → All IsKept bs
      → bs_grant (add_rule rule bs) ≡ bs_grant bs || grants rule group resource verb
  unfolding add_rule key_of bucket_of
  add_rule-grants rule bs (hg, hr) h =
      let gs = dedupe_sort rule.api_groups in
      let rs = dedupe_sort rule.resources in
      bs_grant-insert (key_of rule) (bucket_of rule bs) (grants rule group resource verb) bs
        (λ old e.
          let (k, og, or) = lookup-IsKept (key_of rule) old bs h e in
          let (same_groups, same_resources) =
            bucket_key_inj old.groups old.resources gs rs og or
              (PlainNames-dedupe_sort rule.api_groups hg) (PlainNames-dedupe_sort rule.resources hr)
              (sym k) in
          ap (λ found. bucket_grants (with_verbs gs rs rule.verbs found) group resource verb) e
          ∙ with_verbs-grants rule gs rs old refl refl same_groups same_resources)
        (λ e.
          ap (λ found. bucket_grants (with_verbs gs rs rule.verbs found) group resource verb) e
          ∙ fresh-grants rule)

  add_rules-grants :
      (rules : List PolicyRule) (bs : Assoc RuleBucket)
      → All IsPlainRule rules
      → All IsKept bs
      → bs_grant (add_rules rules bs) ≡ bs_grant bs || some_grants rules group resource verb
  unfolding add_rules
  add_rules-grants [] bs plain h = ground arith
  add_rules-grants (rule ∷ rest) bs (plain, more) h = ground (
    arith,
    add_rules-grants rest (add_rule rule bs) more (add_rule-IsKept rule bs plain h),
    add_rule-grants rule bs plain h,
  )

  rules_of-grants :
      (bs : Assoc RuleBucket) → some_grants (rules_of bs) group resource verb ≡ bs_grant bs
  unfolding rules_of
  rules_of-grants [] = refl
  rules_of-grants ((key, bucket) ∷ bs) = rw (contains-sort_texts, rules_of-grants bs)

  insert_rule-grants :
      (rule : PolicyRule) (rules : List PolicyRule)
      → some_grants (insert_rule rule rules) group resource verb
        ≡ grants rule group resource verb || some_grants rules group resource verb
  unfolding insert_rule
  insert_rule-grants rule [] = refl
  insert_rule-grants rule (here ∷ rest) = ground (arith, insert_rule-grants rule rest)

  sort_rules-grants :
      (rules : List PolicyRule)
      → some_grants (sort_rules rules) group resource verb ≡ some_grants rules group resource verb
  unfolding sort_rules
  sort_rules-grants [] = refl
  sort_rules-grants (rule ∷ rest) =
      ground (arith, insert_rule-grants rule (sort_rules rest), sort_rules-grants rest)

-- The merged rules grant a verb on a resource of a group exactly if some rule of some plugin does:
-- nothing that a plugin needs is lost, and nothing that none needs is added. It holds for rules that
-- name at least one group and one resource, where no name has the unit separator or a bar in it.
pub aggregate_permissions-grants :
    {W : Type 0} (plugins : List (Plugin W)) (group resource verb : String)
    → All IsPlainRule (required plugins)
    → some_grants (aggregate_permissions plugins) group resource verb
      ≡ some_grants (required plugins) group resource verb
unfolding aggregate_permissions
aggregate_permissions-grants plugins group resource verb plain =
    sort_rules-grants group resource verb (rules_of (add_rules (required plugins) []))
    ∙ rules_of-grants group resource verb (add_rules (required plugins) [])
    ∙ add_rules-grants group resource verb (required plugins) [] plain tt
