-- ===== src/Action/Permissions/Sorting.antt =====
-- Sorting and removing repetitions keep what a list contains.
use reactive_policy.Common.{
  String, List, [], ◌∷◌, true, ◌||◌, str_eq, eq_iff, ◌≡◌, refl, subst, ◌∙◌, arith, Bool-cases, inl,
  inr,
}
use reactive_policy.Action.Permissions.{
  contains, insert_text, sort_texts, dedupe, dedupe_sort, add_verbs,
}

contains-insert_text :
    (x s : String) (xs : List String) → contains x (insert_text s xs) ≡ str_eq s x || contains x xs
unfolding insert_text
contains-insert_text x s [] = refl
contains-insert_text x s (y ∷ xs) = ground (arith, contains-insert_text x s xs)

pub contains-sort_texts :
    (x : String) (xs : List String) → contains x (sort_texts xs) ≡ contains x xs
unfolding sort_texts
contains-sort_texts x [] = refl
contains-sort_texts x (y ∷ xs) =
    ground (arith, contains-insert_text x y (sort_texts xs), contains-sort_texts x xs)

contains-same :
    (x y : String) (seen : List String)
    → contains y seen ≡ true
    → str_eq y x ≡ true
    → contains x seen ≡ true
contains-same x y seen h e = subst (λ z. contains z seen ≡ true) ((eq_iff y x).0 e) h

contains-dedupe :
    (x : String) (seen xs : List String)
    → contains x (dedupe seen xs) || contains x seen ≡ contains x xs || contains x seen
unfolding dedupe
contains-dedupe x seen [] = refl
contains-dedupe x seen (y ∷ xs) = elim (Bool-cases (contains y seen)) [
  | inl old ↦ elim (Bool-cases (str_eq y x)) [
    | inl same ↦ ground (arith, contains-same x y seen old same, contains-dedupe x seen xs)
    | inr other ↦ rw old (ground (arith, contains-dedupe x seen xs))
  ]
  | inr new ↦ rw new (ground (arith, contains-dedupe x (y ∷ seen) xs))
]

pub contains-dedupe_sort :
    (x : String) (xs : List String) → contains x (dedupe_sort xs) ≡ contains x xs
unfolding dedupe_sort
contains-dedupe_sort x xs =
    contains-sort_texts x (dedupe [] xs) ∙ ground (arith, contains-dedupe x [] xs)

pub contains-add_verbs :
    (v : String) (verbs more : List String)
    → contains v (add_verbs verbs more) ≡ contains v verbs || contains v more
unfolding add_verbs
contains-add_verbs v verbs [] = ground arith
contains-add_verbs v verbs (x ∷ more) = elim (Bool-cases (contains x verbs)) [
  | inl old ↦ rw old (ground (arith, contains-same v x verbs old, contains-add_verbs v verbs more))
  | inr new ↦ rw new (ground (arith, contains-add_verbs v (x ∷ verbs) more))
]
