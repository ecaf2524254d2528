-- ===== src/Controller/AuditWriter/Records.antt =====
-- Audit records: their numbers, and that a result survives its way through a record.
use reactive_policy.Common.{
  ℕ, suc, ◌+◌, ℤ, pos, to_int32, Time, String, List, [], ◌∷◌, ◌++◌, Option, none, some, Assoc,
  length, str_eq, eq_iff, ◌≡◌, refl, ◌≢◌, ◌⊎◌, inl, inr, ap, subst, arith, Bool-cases,
}
use reactive_policy.Api.{ReactivePolicy, ActionAudit, ActionRecord, ApprovalGate}
use reactive_policy.Platform.{Platform}
use reactive_policy.Action.Types.{Result, Plugin, Details}
use reactive_policy.Controller.AuditWriter.{
  to_record, to_records, record_to_result, raw_details, details_of, new_audit,
}
use reactive_policy.Controller.Audit.Closing.{append_actions, skipped_records}

-- The records carry their positions, counted from `i`, as int32.
abbrev pub Numbered : ℕ → List ActionRecord → Type 0
Numbered i [] = Unit
Numbered i (rec ∷ rest) = (rec.index ≡ to_int32 (pos i)) × Numbered (suc i) rest

Numbered-append :
    (i : ℕ) (xs ys : List ActionRecord)
    → Numbered i xs
    → Numbered (i + length xs) ys
    → Numbered i (xs ++ ys)
Numbered-append i [] ys h k = let e : i + 0 ≡ i = omega arith in rw e at k
Numbered-append i (x ∷ xs) ys (h, hs) k =
    let e : i + suc (length xs) ≡ suc i + length xs = omega arith in
    (h, Numbered-append (suc i) xs ys hs (rw e at k))

Numbered-appended :
    (xs ys : List ActionRecord) → Numbered 0 xs → Numbered (length xs) ys → Numbered 0 (xs ++ ys)
Numbered-appended xs ys h k =
    let e : length xs ≡ 0 + length xs = omega arith in
    Numbered-append 0 xs ys h (subst (λ n. Numbered n ys) e k)

skipped_records-Numbered :
    (i : ℕ) (message : String) (names : List String) → Numbered i (skipped_records i message names)
unfolding skipped_records
skipped_records-Numbered i message [] = tt
skipped_records-Numbered i message (name ∷ rest) =
    (refl, skipped_records-Numbered (suc i) message rest)

module _ {W F : Type 0} (p : Platform W F) (plugins : Assoc (Plugin W)) where
  to_records-Numbered :
      (i : ℕ) (results : List Result) → Numbered i (to_records p plugins i results)
  unfolding to_records to_record
  to_records-Numbered i [] = tt
  to_records-Numbered i (res ∷ rest) = (refl, to_records-Numbered (suc i) rest)

  -- Every record of an audit carries its position: so it is when the audit is made, and so it stays
  -- when the results of released actions or the records of skipped ones are appended.
  pub actions-Numbered :
      (policy : ReactivePolicy) (now : Time) (gate : Option ApprovalGate) (audit : ActionAudit)
      (results : List Result) (message : String) (names : List String)
      → Numbered 0 audit.spec.actions
      → let offset = length audit.spec.actions in
        Numbered 0 (new_audit p plugins policy now results gate).spec.actions
        × Numbered 0 (append_actions (to_records p plugins offset results) audit).spec.actions
        × Numbered 0 (append_actions (skipped_records offset message names) audit).spec.actions
  actions-Numbered policy now gate audit results message names h =
      let offset = length audit.spec.actions in
      (
        to_records-Numbered 0 results,
        Numbered-appended audit.spec.actions _ h (to_records-Numbered offset results),
        Numbered-appended audit.spec.actions _ h (skipped_records-Numbered offset message names),
      )

  -- The details survive the JSON encoding.
  abbrev pub Encodes : Details → Type 0
  Encodes details =
      (details ≡ [])
      ⊎ ((raw : String) × (p.marshal details ≡ some raw)
          × (raw ≢ "")
          × (p.unmarshal raw ≡ some details))

  details_of-raw_details :
      (details : Details)
      → Encodes details
      → details_of p plugins (raw_details p plugins details) ≡ details
  details_of-raw_details [] h = refl
  details_of-raw_details (kv ∷ rest) (inl e) = cc
  details_of-raw_details (kv ∷ rest) (inr (raw, encoded, filled, decoded)) =
      elim (Bool-cases (str_eq raw "")) [
        | inl e ↦ absurd (filled ((eq_iff raw "").0 e))
        | inr e ↦ ground arith
      ]

  -- A result whose details are empty, or come back the same from their JSON encoding, comes back from
  -- its record as it was, but for the time, which the record does not hold.
  pub record_to_result-to_record :
      (index : ℤ) (res : Result)
      → Encodes res.details
      → record_to_result p plugins (to_record p plugins index res) ≡ record res { timestamp = none }
  unfolding record_to_result to_record
  record_to_result-to_record index res h =
      ap (λ d. record res { timestamp = none; details = d }) (details_of-raw_details res.details h)
