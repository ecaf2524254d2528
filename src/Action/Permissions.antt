-- ===== src/Action/Permissions.antt =====
-- internal/action/rbac.go: the rules that the plugins need, merged, and Registry.All of
-- internal/action/registry.go. `sort.Strings` and `sort.Slice` are insertion sorts; among rules that
-- the order does not tell apart the order is Go's own.
pub mod Sorting
pub mod Keys
pub mod Grants
use Prim.Native.Nat.{Ordering}
use Prim.Native.String.{◌++◌ as concat, compare}
use reactive_policy.Common.{
  String, List, [], ◌∷◌, ◌++◌, Option, none, some, Bool, true, false, not, ◌||◌, ◌&&◌, Assoc,
  lookup, insert, map, str_eq, if◌then◌else◌,
}
use reactive_policy.Action.Types.{PolicyRule, Plugin}

-- a < b on strings, by their code points
abbrev pub text_lt : String → String → Bool
text_lt a b = elim (compare a b) [ Ordering.lt ↦ true | _ ↦ false ]

abbrev pub contains : String → List String → Bool
contains s [] = false
contains s (x ∷ xs) = str_eq x s || contains s xs

-- sort.Strings
unfoldable pub insert_text : String → List String → List String
insert_text s [] = s ∷ []
insert_text s (x ∷ xs) = if text_lt x s then x ∷ insert_text s xs else s ∷ x ∷ xs

unfoldable pub sort_texts : List String → List String
unfolding insert_text
sort_texts [] = []
sort_texts (x ∷ xs) = insert_text x (sort_texts xs)

-- The loop of dedupeSort
unfoldable pub dedupe : List String → List String → List String
dedupe seen [] = []
dedupe seen (s ∷ rest) =
    let fresh = s ∷ dedupe (s ∷ seen) rest in
    let known = dedupe seen rest in if contains s seen then known else fresh

-- dedupeSort
unfoldable pub dedupe_sort : List String → List String
unfolding sort_texts dedupe
dedupe_sort texts = sort_texts (dedupe [] texts)

-- strings.Join
unfoldable pub join : String → List String → String
join sep [] = ""
join sep (s ∷ []) = s
join sep (s ∷ t ∷ rest) = concat s (concat sep (join sep (t ∷ rest)))

abbrev pub unit_separator : String
unit_separator = "\u{1f}"

-- ruleBucket; the set of verbs is a list without repetitions
pub record RuleBucket : Type 0 where
  pub groups : List String
  pub resources : List String
  pub verbs : List String

unfoldable pub bucket_key : List String → List String → String
unfolding join
bucket_key groups resources =
    concat (join unit_separator groups) (concat "|" (join unit_separator resources))

unfoldable pub add_verbs : List String → List String → List String
add_verbs verbs [] = verbs
add_verbs verbs (v ∷ rest) = add_verbs (if contains v verbs then verbs else v ∷ verbs) rest

abbrev pub with_verbs : List String → List String → List String → Option RuleBucket → RuleBucket
with_verbs groups resources verbs none = record {
  groups = groups;
  resources = resources;
  verbs = add_verbs [] verbs;
}
with_verbs groups resources verbs (some bucket) = record bucket {
  verbs = add_verbs bucket.verbs verbs;
}

-- One turn of the loop over the rules. The buckets stand in the order of their first rule, which is
-- the list `order` of the code.
unfoldable pub add_rule : PolicyRule → Assoc RuleBucket → Assoc RuleBucket
unfolding dedupe_sort bucket_key add_verbs lookup insert
add_rule rule buckets =
    let groups = dedupe_sort rule.api_groups in
    let resources = dedupe_sort rule.resources in
    let key = bucket_key groups resources in
    insert key (with_verbs groups resources rule.verbs (lookup key buckets)) buckets

unfoldable pub add_rules : List PolicyRule → Assoc RuleBucket → Assoc RuleBucket
unfolding add_rule
add_rules [] buckets = buckets
add_rules (rule ∷ rest) buckets = add_rules rest (add_rule rule buckets)

unfoldable pub rules_of : Assoc RuleBucket → List PolicyRule
unfolding sort_texts
rules_of [] = []
rules_of ((key, bucket) ∷ rest) =
    record {
      api_groups = bucket.groups;
      resources = bucket.resources;
      verbs = sort_texts bucket.verbs;
    }
    ∷ rules_of rest

unfoldable pub rule_before : PolicyRule → PolicyRule → Bool
unfolding join
rule_before a b =
    let ga = join "," a.api_groups in
    let gb = join "," b.api_groups in
    if str_eq ga gb then text_lt (join "," a.resources) (join "," b.resources) else text_lt ga gb

unfoldable pub insert_rule : PolicyRule → List PolicyRule → List PolicyRule
unfolding rule_before
insert_rule rule [] = rule ∷ []
insert_rule rule (here ∷ rest) =
    if rule_before here rule then here ∷ insert_rule rule rest else rule ∷ here ∷ rest

unfoldable pub sort_rules : List PolicyRule → List PolicyRule
unfolding insert_rule
sort_rules [] = []
sort_rules (rule ∷ rest) = insert_rule rule (sort_rules rest)

module _ {W : Type 0} where
  -- The rules of all plugins, in order
  abbrev pub required : List (Plugin W) → List PolicyRule
  required [] = []
  required (plugin ∷ rest) = plugin.required_permissions ++ required rest

  -- AggregatePermissions
  unfoldable pub aggregate_permissions : List (Plugin W) → List PolicyRule
  unfolding add_rules rules_of sort_rules
  aggregate_permissions plugins = sort_rules (rules_of (add_rules (required plugins) []))

  unfoldable pub insert_plugin : Plugin W → List (Plugin W) → List (Plugin W)
  insert_plugin plugin [] = plugin ∷ []
  insert_plugin plugin (here ∷ rest) =
      if text_lt here.name plugin.name
      then here ∷ insert_plugin plugin rest
      else plugin ∷ here ∷ rest

  -- Registry.All
  unfoldable pub all_plugins : Assoc (Plugin W) → List (Plugin W)
  unfolding insert_plugin
  all_plugins [] = []
  all_plugins ((name, plugin) ∷ rest) = insert_plugin plugin (all_plugins rest)
