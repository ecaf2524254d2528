-- ===== src/Sink/Postgres/Rows.antt =====
-- internal/audit/sink/postgres/pgxwriter.go: what a batch leaves in the tables, and a batch that is
-- sent again.
use reactive_policy.Common.{
  ℤ, leb_ℤ, String, List, [], ◌∷◌, Option, none, some, Bool, true, false, ◌&&◌, str_eq,
  if◌then◌else◌, ◌≡◌, refl, sym, ap, ◌∙◌, inl, inr, Bool-cases, Option-cases, arith, eq_iff, All,
}
use reactive_policy.Sink.Postgres.Writer.{at_key, find_row, insert_row, insert_rows}

-- The first of two answers that is there
abbrev pub first_of : {A : Type 0} → Option A → Option A → Option A
first_of (some a) b = some a
first_of none b = b

eq_of_leb : (a b : ℤ) → leb_ℤ a b ≡ true → leb_ℤ b a ≡ true → a ≡ b
eq_of_leb a b h k = ground arith

first_of-none : {A : Type 0} (a : Option A) → first_of a none ≡ a
first_of-none none = refl
first_of-none (some a) = refl

module _ {R : Type 0} (uid : R → String) (index : R → ℤ) where
  at_key-eq :
      (u : String) (i : ℤ) (row : R)
      → at_key uid index u i row ≡ true
      → (uid row ≡ u) × (index row ≡ i)
  at_key-eq u i row h =
      ((eq_iff (uid row) u).0 (ground arith), eq_of_leb (index row) i (ground arith) (ground arith))

  at_key-same :
      (u : String) (i : ℤ) (new row : R)
      → at_key uid index (uid new) (index new) row ≡ true
      → at_key uid index u i row ≡ at_key uid index u i new
  at_key-same u i new row h =
      let (named, placed) = at_key-eq (uid new) (index new) row h in
      ap (λ v. str_eq v u && (leb_ℤ (index row) i && leb_ℤ i (index row))) named
      ∙ ap (λ j. str_eq (uid new) u && (leb_ℤ j i && leb_ℤ i j)) placed

  pick : String → ℤ → R → Option R
  pick u i row = if at_key uid index u i row then some row else none

  -- An insertion does nothing if a row has the key, and adds a row otherwise.
  find_row-insert_row :
      (u : String) (i : ℤ) (new : R) (rows : List R)
      → find_row uid index u i (insert_row uid index new rows)
        ≡ first_of (find_row uid index u i rows) (pick u i new)
  unfolding find_row insert_row pick
  find_row-insert_row u i new [] = refl
  find_row-insert_row u i new (row ∷ rest) =
      let later = find_row-insert_row u i new rest in
      elim (Bool-cases (at_key uid index (uid new) (index new) row)) [
        | inl taken ↦
            let same = at_key-same u i new row taken in
            elim (Bool-cases (at_key uid index u i row)) [
              | inl here ↦ rw (taken, here) refl
              | inr other ↦ rw (taken, sym same ∙ other) (sym (first_of-none _))
            ]
        | inr free ↦ elim (Bool-cases (at_key uid index u i row)) [
          | inl here ↦ rw (free, here) refl
          | inr other ↦ rw (free, other) later
        ]
      ]

  first_of-pick :
      (u : String) (i : ℤ) (old : Option R) (new : R) (rest : List R)
      → first_of (first_of old (pick u i new)) (find_row uid index u i rest)
        ≡ first_of old (find_row uid index u i (new ∷ rest))
  unfolding find_row pick
  first_of-pick u i (some row) new rest = refl
  first_of-pick u i none new rest = elim (Bool-cases (at_key uid index u i new)) [
    | inl here ↦ rw here refl
    | inr other ↦ rw other refl
  ]

  -- The first row of a key wins, be it of the table or of the new ones.
  pub find_row-insert_rows :
      (u : String) (i : ℤ) (news rows : List R)
      → find_row uid index u i (insert_rows uid index news rows)
        ≡ first_of (find_row uid index u i rows) (find_row uid index u i news)
  unfolding find_row insert_rows
  find_row-insert_rows u i [] rows = sym (first_of-none _)
  find_row-insert_rows u i (new ∷ rest) rows =
      find_row-insert_rows u i rest (insert_row uid index new rows)
      ∙ ap (λ old. first_of old (find_row uid index u i rest)) (find_row-insert_row u i new rows)
      ∙ first_of-pick u i (find_row uid index u i rows) new rest

  abbrev is_some : Option R → Bool
  is_some none = false
  is_some (some row) = true

  abbrev Stored : List R → R → Type 0
  Stored rows new = is_some (find_row uid index (uid new) (index new) rows) ≡ true

  first_of-is_some : (a b : Option R) → is_some a ≡ true → is_some (first_of a b) ≡ true
  first_of-is_some (some row) b e = refl
  first_of-is_some none b e = ground arith

  Stored-insert_row :
      (new other : R) (rows : List R)
      → Stored rows new
      → Stored (insert_row uid index other rows) new
  Stored-insert_row new other rows h =
      rw (find_row-insert_row (uid new) (index new) other rows)
        (first_of-is_some (find_row uid index (uid new) (index new) rows) _ h)

  Stored-insert_rows :
      (new : R) (news rows : List R)
      → Stored rows new
      → Stored (insert_rows uid index news rows) new
  unfolding insert_rows
  Stored-insert_rows new [] rows h = h
  Stored-insert_rows new (other ∷ rest) rows h =
      Stored-insert_rows new rest (insert_row uid index other rows)
        (Stored-insert_row new other rows h)

  at_key_self : (new : R) → at_key uid index (uid new) (index new) new ≡ true
  at_key_self new = ground (arith, eq_iff (uid new) (uid new))

  Stored-inserted : (new : R) (rows : List R) → Stored (insert_row uid index new rows) new
  unfolding pick
  Stored-inserted new rows =
      rw (find_row-insert_row (uid new) (index new) new rows, at_key_self new)
        (elim (Option-cases (find_row uid index (uid new) (index new) rows)) [
          | inl e ↦ rw e refl
          | inr (row, e) ↦ rw e refl
        ])

  insert_row-Stored :
      (new : R) (rows : List R) → Stored rows new → insert_row uid index new rows ≡ rows
  unfolding insert_row find_row
  insert_row-Stored new [] h = ground arith
  insert_row-Stored new (row ∷ rest) h =
      elim (Bool-cases (at_key uid index (uid new) (index new) row)) [
        | inl taken ↦ rw taken refl
        | inr free ↦ rw free (ap (λ t. row ∷ t) (insert_row-Stored new rest (rw free at h)))
      ]

  insert_rows-Stored :
      (news rows : List R) → All (Stored rows) news → insert_rows uid index news rows ≡ rows
  unfolding insert_rows
  insert_rows-Stored [] rows h = refl
  insert_rows-Stored (new ∷ rest) rows (h, hs) =
      ap (insert_rows uid index rest) (insert_row-Stored new rows h)
      ∙ insert_rows-Stored rest rows hs

  news-Stored : (news rows : List R) → All (Stored (insert_rows uid index news rows)) news
  unfolding insert_rows
  news-Stored [] rows = tt
  news-Stored (new ∷ rest) rows = (
    Stored-insert_rows new rest (insert_row uid index new rows) (Stored-inserted new rows),
    news-Stored rest (insert_row uid index new rows),
  )

  -- The same rows inserted again
  pub insert_rows_twice :
      (news rows : List R)
      → insert_rows uid index news (insert_rows uid index news rows)
        ≡ insert_rows uid index news rows
  insert_rows_twice news rows = insert_rows-Stored news _ (news-Stored news rows)

  -- No two of the rows have the same key.
  abbrev pub Distinct : List R → Type 0
  Distinct [] = Unit
  Distinct (row ∷ rest) = (find_row uid index (uid row) (index row) rest ≡ none) × Distinct rest

  at_key_sym :
      (new row : R)
      → at_key uid index (uid new) (index new) row ≡ false
      → at_key uid index (uid row) (index row) new ≡ false
  at_key_sym new row free = elim (Bool-cases (at_key uid index (uid row) (index row) new)) [
    | inl taken ↦
        let same = at_key-same (uid new) (index new) row new taken in
        let own = at_key_self new in cc
    | inr e ↦ e
  ]

  pick-none :
      (u : String) (i : ℤ) (new : R) → at_key uid index u i new ≡ false → pick u i new ≡ none
  unfolding pick
  pick-none u i new e = rw e refl

  insert_row-Distinct :
      (new : R) (rows : List R) → Distinct rows → Distinct (insert_row uid index new rows)
  unfolding insert_row find_row
  insert_row-Distinct new [] h = (refl, tt)
  insert_row-Distinct new (row ∷ rest) (alone, h) =
      elim (Bool-cases (at_key uid index (uid new) (index new) row)) [
        | inl taken ↦ rw taken (alone, h)
        | inr free ↦ rw free (
          find_row-insert_row (uid row) (index row) new rest
              ∙ ap (λ old. first_of old (pick (uid row) (index row) new)) alone
              ∙ pick-none (uid row) (index row) new (at_key_sym new row free),
          insert_row-Distinct new rest h,
        )
      ]

  -- Insertions give no key a second row.
  pub insert_rows-Distinct :
      (news rows : List R) → Distinct rows → Distinct (insert_rows uid index news rows)
  unfolding insert_rows
  insert_rows-Distinct [] rows h = h
  insert_rows-Distinct (new ∷ rest) rows h =
      insert_rows-Distinct rest (insert_row uid index new rows) (insert_row-Distinct new rows h)
