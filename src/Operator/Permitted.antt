-- ===== src/Operator/Permitted.antt =====
-- cmd/main.go: the operator's role has what the built-in plugins ask for.
use reactive_policy.Common.{
  String, List, [], ◌∷◌, Bool, true, false, ◌≡◌, refl, subst, arith, Option, ◌||◌, ◌&&◌, eq_iff,
  str_eq, Bool-cases, inl, inr,
}
use reactive_policy.Platform.{Platform}
use reactive_policy.Action.Types.{PolicyRule}
use reactive_policy.Action.Permissions.{required, contains}
use reactive_policy.Action.Permissions.Grants.{some_grants, grants}
use reactive_policy.Plugins.Kit.{Client, Kit}
use reactive_policy.Plugins.BuiltIn.{Codecs, built_in}
use reactive_policy.Plugins.MeshShift.Shift.{mesh_shift}
use reactive_policy.Plugins.Isolate.Policy.{network_isolate}
use reactive_policy.Plugins.Annotate.{k8s_annotate}
use reactive_policy.Plugins.Suspend.{argocd_suspend}
use reactive_policy.Plugins.Slack.{notify_slack}
use reactive_policy.Operator.{plugin_role}

abbrev is_subset : List String → List String → Bool
is_subset [] ys = true
is_subset (x ∷ xs) ys = contains x ys && is_subset xs ys

contains-is_subset :
    (s : String) (xs ys : List String)
    → is_subset xs ys ≡ true
    → contains s xs ≡ true
    → contains s ys ≡ true
contains-is_subset s [] ys h k = ground arith
contains-is_subset s (x ∷ xs) ys h k = elim (Bool-cases (str_eq x s)) [
  | inl same ↦ subst (λ t. contains t ys ≡ true) ((eq_iff x s).0 same) (ground arith)
  | inr other ↦ contains-is_subset s xs ys (ground arith) (ground arith)
]

abbrev is_within : PolicyRule → PolicyRule → Bool
is_within a b =
    is_subset a.api_groups b.api_groups
    && (is_subset a.resources b.resources && is_subset a.verbs b.verbs)

abbrev is_covered : List PolicyRule → PolicyRule → Bool
is_covered [] rule = false
is_covered (other ∷ rest) rule = is_within rule other || is_covered rest rule

abbrev all_covered : List PolicyRule → List PolicyRule → Bool
all_covered role [] = true
all_covered role (rule ∷ rest) = is_covered role rule && all_covered role rest

module _ (group resource verb : String) where
  grants-is_within :
      (a b : PolicyRule)
      → is_within a b ≡ true
      → grants a group resource verb ≡ true
      → grants b group resource verb ≡ true
  grants-is_within a b h k = ground (
    arith,
    contains-is_subset group a.api_groups b.api_groups,
    contains-is_subset resource a.resources b.resources,
    contains-is_subset verb a.verbs b.verbs,
  )

  some_grants-is_covered :
      (role : List PolicyRule) (rule : PolicyRule)
      → is_covered role rule ≡ true
      → grants rule group resource verb ≡ true
      → some_grants role group resource verb ≡ true
  some_grants-is_covered [] rule h k = ground arith
  some_grants-is_covered (other ∷ rest) rule h k = elim (Bool-cases (is_within rule other)) [
    | inl within ↦ rw (grants-is_within rule other within k) refl
    | inr apart ↦
        let later = some_grants-is_covered rest rule (rw apart at h) k in ground (arith, later)
  ]

  some_grants-all_covered :
      (role rules : List PolicyRule)
      → all_covered role rules ≡ true
      → some_grants rules group resource verb ≡ true
      → some_grants role group resource verb ≡ true
  some_grants-all_covered role [] h k = ground arith
  some_grants-all_covered role (rule ∷ rest) h k = elim (Bool-cases (is_covered role rule)) [
    | inr apart ↦ ground arith
    | inl covered ↦ elim (Bool-cases (grants rule group resource verb)) [
      | inl here ↦ some_grants-is_covered role rule covered here
      | inr later ↦ some_grants-all_covered role rest (rw covered at h) (rw later at k)
    ]
  ]

  module _ {W F O : Type 0} (p : Platform W F) (k : Kit O) (codecs : Codecs W)
      (context : Option (Client W O)) where
    needs-all_covered : all_covered plugin_role (required (built_in p k codecs context)) ≡ true
    unfolding plugin_role mesh_shift network_isolate k8s_annotate argocd_suspend notify_slack
    needs-all_covered = refl

    -- Each group, resource and verb that a built-in plugin asks for, as it is written, the rules that
    -- the operator declares for the plugins grant.
    pub plugin_role-grants :
        some_grants (required (built_in p k codecs context)) group resource verb ≡ true
        → some_grants plugin_role group resource verb ≡ true
    plugin_role-grants asked =
        some_grants-all_covered plugin_role (required (built_in p k codecs context))
          needs-all_covered asked
