-- ===== src/Action/Permissions/Keys.antt =====
-- Keys of plain names tell buckets apart.
use Prim.Native.Char.{Char, code}
use Prim.Native.String.{◌++◌ as concat}
use text.Mathlib.TextLemmas.{nil-append, cons-append, head-eq_of_cons-eq, tail-eq_of_cons-eq}
use mathlib.Core.Path.{ap₂}
use reactive_policy.Common.{
  String, List, [], ◌∷◌, Bool, true, false, ◌||◌, str_eq, eq_iff, ◌≡◌, ◌≢◌, refl, sym, ap, ◌∙◌,
  subst, arith, All, All-imp, Bool-cases, inl, inr, eq_self,
}
use reactive_policy.Action.Permissions.{contains, join, bucket_key, unit_separator, dedupe_sort}
use reactive_policy.Action.Permissions.Sorting.{contains-dedupe_sort}

-- The character does not stand in the text.
abbrev pub Lacks : Char → String → Type 0
Lacks c String.[] = Unit
Lacks c (String.◌∷◌ d s) = (d ≢ c) × Lacks c s

separated : (c : Char) (t : String) → concat (String.◌∷◌ c String.[]) t ≡ String.◌∷◌ c t
separated c t = cons-append c String.[] t ∙ ap (String.◌∷◌ c) (nil-append t)

or_true : (a b : Bool) → b ≡ true → a || b ≡ true
or_true true b h = refl
or_true false b h = h

split_inj :
    (c : Char) (s t u v : String)
    → Lacks c s
    → Lacks c t
    → concat s (String.◌∷◌ c u) ≡ concat t (String.◌∷◌ c v)
    → (s ≡ t) × (u ≡ v)
split_inj c String.[] String.[] u v hs ht e =
    (refl, tail-eq_of_cons-eq (sym (nil-append (String.◌∷◌ c u)) ∙ e ∙ nil-append (String.◌∷◌ c v)))
split_inj c String.[] (String.◌∷◌ d t) u v hs ht e = absurd (
    ht.0 (
      sym (
        head-eq_of_cons-eq
          (sym (nil-append (String.◌∷◌ c u)) ∙ e ∙ cons-append d t (String.◌∷◌ c v)))))
split_inj c (String.◌∷◌ d s) String.[] u v hs ht e = absurd (
    hs.0 (
      head-eq_of_cons-eq
        (sym (cons-append d s (String.◌∷◌ c u)) ∙ e ∙ nil-append (String.◌∷◌ c v))))
split_inj c (String.◌∷◌ d s) (String.◌∷◌ d' t) u v hs ht e =
    let whole = sym (cons-append d s (String.◌∷◌ c u)) ∙ e ∙ cons-append d' t (String.◌∷◌ c v) in
    let (same, after) = split_inj c s t u v hs.1 ht.1 (tail-eq_of_cons-eq whole) in
    (ap₂ String.◌∷◌ (head-eq_of_cons-eq whole) same, after)

Lacks-concat : (c : Char) (s t : String) → Lacks c s → Lacks c t → Lacks c (concat s t)
Lacks-concat c String.[] t hs ht = subst (Lacks c) (sym (nil-append t)) ht
Lacks-concat c (String.◌∷◌ d s) t hs ht =
    subst (Lacks c) (sym (cons-append d s t)) (hs.0, Lacks-concat c s t hs.1 ht)

not-Lacks-concat : (c : Char) (s u : String) → Lacks c (concat s (String.◌∷◌ c u)) → ⊥
not-Lacks-concat c String.[] u h = (subst (Lacks c) (nil-append (String.◌∷◌ c u)) h).0 refl
not-Lacks-concat c (String.◌∷◌ d s) u h =
    not-Lacks-concat c s u (subst (Lacks c) (cons-append d s (String.◌∷◌ c u)) h).1

-- A list of texts is known by its joined text, if none of them has the separator in it.
join_inj :
    (c : Char) (x y : String) (xs ys : List String)
    → All (Lacks c) (x ∷ xs)
    → All (Lacks c) (y ∷ ys)
    → join (String.◌∷◌ c String.[]) (x ∷ xs) ≡ join (String.◌∷◌ c String.[]) (y ∷ ys)
    → ◌≡◌ {A = List String} (x ∷ xs) (y ∷ ys)
unfolding join
join_inj c x y [] [] hx hy e = ap (λ s. s ∷ []) e
join_inj c x y [] (y' ∷ ys) hx hy e =
    absurd (not-Lacks-concat c y _ (subst (Lacks c) (e ∙ ap (concat y) (separated c _)) hx.0))
join_inj c x y (x' ∷ xs) [] hx hy e =
    absurd (not-Lacks-concat c x _ (subst (Lacks c) (sym e ∙ ap (concat x) (separated c _)) hy.0))
join_inj c x y (x' ∷ xs) (y' ∷ ys) hx hy e =
    let whole = ap (concat x) (sym (separated c _)) ∙ e ∙ ap (concat y) (separated c _) in
    let (same, after) = split_inj c x y _ _ hx.0 hy.0 whole in
    ap₂ (λ s l. s ∷ l) same (join_inj c x' y' xs ys hx.1 hy.1 after)

Lacks-join :
    (c d : Char) (x : String) (xs : List String)
    → d ≢ c
    → All (Lacks c) (x ∷ xs)
    → Lacks c (join (String.◌∷◌ d String.[]) (x ∷ xs))
unfolding join
Lacks-join c d x [] ne h = h.0
Lacks-join c d x (y ∷ xs) ne h =
    Lacks-concat c x _ h.0
      (Lacks-concat c (String.◌∷◌ d String.[]) _ (ne, tt) (Lacks-join c d y xs ne h.1))

abbrev pub unit : Char
unit = "\u{1f}"

abbrev pub bar : Char
bar = "|"

-- A name with neither of the characters that the keys are built with, as every name of a Kubernetes
-- API group or resource is.
abbrev pub IsPlain : String → Type 0
IsPlain s = Lacks unit s × Lacks bar s

abbrev pub PlainNames : List String → Type 0
PlainNames [] = ⊥
PlainNames (x ∷ xs) = All IsPlain (x ∷ xs)

unit-ne-bar : unit ≢ bar
unit-ne-bar e = absurd (omega (arith, ap code e))

join-Lacks-bar :
    (x : String) (xs : List String)
    → All IsPlain (x ∷ xs)
    → Lacks bar (join unit_separator (x ∷ xs))
join-Lacks-bar x xs h =
    Lacks-join bar unit x xs unit-ne-bar
      (All-imp IsPlain (Lacks bar) (λ s plain. plain.1) (x ∷ xs) h)

names_inj :
    (x y : String) (xs ys : List String)
    → All IsPlain (x ∷ xs)
    → All IsPlain (y ∷ ys)
    → join unit_separator (x ∷ xs) ≡ join unit_separator (y ∷ ys)
    → ◌≡◌ {A = List String} (x ∷ xs) (y ∷ ys)
names_inj x y xs ys hx hy e =
    join_inj unit x y xs ys (All-imp IsPlain (Lacks unit) (λ s plain. plain.0) (x ∷ xs) hx)
      (All-imp IsPlain (Lacks unit) (λ s plain. plain.0) (y ∷ ys) hy) e

pub bucket_key_inj :
    (gs rs gs' rs' : List String)
    → PlainNames gs
    → PlainNames rs
    → PlainNames gs'
    → PlainNames rs'
    → bucket_key gs rs ≡ bucket_key gs' rs'
    → (gs ≡ gs') × (rs ≡ rs')
unfolding bucket_key
bucket_key_inj (g ∷ gs) (r ∷ rs) (g' ∷ gs') (r' ∷ rs') hg hr hg' hr' e =
    let whole = ap (concat _) (sym (separated bar _)) ∙ e ∙ ap (concat _) (separated bar _) in
    let (same, after) =
      split_inj bar _ _ _ _ (join-Lacks-bar g gs hg) (join-Lacks-bar g' gs' hg') whole in
    (names_inj g g' gs gs' hg hg' same, names_inj r r' rs rs' hr hr' after)
bucket_key_inj [] rs gs' rs' hg hr hg' hr' e = absurd hg
bucket_key_inj (g ∷ gs) [] gs' rs' hg hr hg' hr' e = absurd hr
bucket_key_inj (g ∷ gs) (r ∷ rs) [] rs' hg hr hg' hr' e = absurd hg'
bucket_key_inj (g ∷ gs) (r ∷ rs) (g' ∷ gs') [] hg hr hg' hr' e = absurd hr'

-- Plain names stay plain when they are sorted and repetitions go.
IsPlain-of_contains :
    (xs : List String) → All IsPlain xs → (x : String) → contains x xs ≡ true → IsPlain x
IsPlain-of_contains [] h x e = ground arith
IsPlain-of_contains (y ∷ xs) (h, hs) x e = elim (Bool-cases (str_eq y x)) [
  | inl same ↦ subst IsPlain ((eq_iff y x).0 same) h
  | inr other ↦ IsPlain-of_contains xs hs x (rw other at e)
]

All-IsPlain :
    (xs : List String) → ((x : String) → contains x xs ≡ true → IsPlain x) → All IsPlain xs
All-IsPlain [] h = tt
All-IsPlain (y ∷ xs) h = (
  h y (rw (eq_self y) refl),
  All-IsPlain xs (λ x e. h x (or_true (str_eq y x) (contains x xs) e)),
)

PlainNames-All : (xs : List String) → PlainNames xs → All IsPlain xs
PlainNames-All [] h = absurd h
PlainNames-All (x ∷ xs) h = h

PlainNames-contains :
    (ys : List String) (x : String) → contains x ys ≡ true → All IsPlain ys → PlainNames ys
PlainNames-contains [] x e h = ground arith
PlainNames-contains (y ∷ ys) x e h = h

pub PlainNames-dedupe_sort : (xs : List String) → PlainNames xs → PlainNames (dedupe_sort xs)
PlainNames-dedupe_sort [] h = absurd h
PlainNames-dedupe_sort (x ∷ xs) h =
    PlainNames-contains (dedupe_sort (x ∷ xs)) x
      (contains-dedupe_sort x (x ∷ xs) ∙ rw (eq_self x) refl)
      (All-IsPlain (dedupe_sort (x ∷ xs))
        (λ y e. IsPlain-of_contains (x ∷ xs) h y (sym (contains-dedupe_sort y (x ∷ xs)) ∙ e)))
