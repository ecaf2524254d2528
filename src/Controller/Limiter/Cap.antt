-- ===== src/Controller/Limiter/Cap.antt =====
-- The hourly cap, against the audit records that the API server holds: the cached count never
-- falls below the number of records of the trailing hour, so no trigger passes the cap by them.
use reactive_policy.Common.{
  ◌+◌, ◌++◌, ℕ, ◌≤◌, ℤ, pos, ◌<ℤ◌, ◌≤ℤ◌, Time, Duration, String, List, [], ◌∷◌, none, Bool, true,
  lookup, lookup-insert, eq_self, Fallible, ok, err, ◌≡◌, refl, ap, arith, Option-cases, inl, inr,
}
use reactive_policy.Api.{ActionAudit}
use reactive_policy.Platform.{Platform}
use reactive_policy.Controller.Limiter.{
  Cache, object_key, fresh_count, count_triggers, allowed, observe_trigger, under_cap,
}
use reactive_policy.Controller.Limiter.Covers.{
  Covers, Covers-later, Covers-listed, fresh_count-Covers, in_hour,
}

-- The records of the policy in a state of the outside, all of which a list shows.
pub record Trail {W F : Type 0} (p : Platform W F) (namespace name : String) : Type 0 where
  pub records : W → List ActionAudit
  pub listed : (w : W) → p.list_audits namespace name w ≡ (ok (records w), w)

module _ {W F : Type 0} (p : Platform W F) (namespace name : String)
    (t : Trail p namespace name) where
  abbrev Sound : Time → Cache → W → Type 0
  Sound now cache w = Covers now (t.records w) (lookup (object_key namespace name) cache)

  -- The answer of the limiter, and a state in which the cache still covers the records.
  abbrev Counted : Time → W → Fallible ℕ × (Cache × W) → Type 0
  Counted now w (ok n, (cache, w')) = (in_hour now (t.records w) ≤ n) × (w' ≡ w) × Sound now cache w
  Counted now w (err e, s) = ⊥

  listing-Counted :
      (now : Time) (ttl : Duration) (cache : Cache) (w : W)
      → fresh_count (lookup (object_key namespace name) cache) now ttl ≡ none
      → Counted now w (count_triggers p namespace name now ttl (cache, w))
  unfolding count_triggers
  listing-Counted now ttl cache w stale =
      rw (stale, count_triggers, t.listed w)
        (
          omega arith,
          ap (λ x. x.1) (t.listed w),
          rw lookup-insert (rw eq_self (Covers-listed now (t.records w))),
        )

  count_triggers-Counted :
      (before now : Time) (ttl : Duration) (cache : Cache) (w : W)
      → before ≤ℤ now
      → Sound before cache w
      → Counted now w (count_triggers p namespace name now ttl (cache, w))
  unfolding count_triggers
  count_triggers-Counted before now ttl cache w step sound =
      elim (Option-cases (fresh_count (lookup (object_key namespace name) cache) now ttl)) [
        | inl stale ↦ listing-Counted now ttl cache w stale
        | inr (n, fresh) ↦
            rw (fresh, count_triggers)
              (
                fresh_count-Covers before now ttl (t.records w) _ n step sound fresh,
                refl,
                Covers-later before now (t.records w) _ step sound,
              )
      ]

  abbrev Admitted : Time → ℤ → W → Fallible Bool × (Cache × W) → Type 0
  Admitted now most w out =
      Sound now out.1.0 w
      × (out.1.1 ≡ w)
      × (out.0 ≡ ok true → pos (in_hour now (t.records w)) <ℤ most)

  under_cap-Admitted :
      (now : Time) (most : ℤ) (w : W) (out : Fallible ℕ × (Cache × W))
      → Counted now w out
      → Admitted now most w (under_cap most out)
  unfolding under_cap
  under_cap-Admitted now most w (err e, s) h = absurd h
  under_cap-Admitted now most w (ok n, (cache, w')) (enough, same, sound) =
      (sound, same, λ verdict. ground arith)

  -- An admitted trigger is below the cap by the records, and the cache still covers them.
  pub allowed-Admitted :
      (before now : Time) (ttl : Duration) (most : ℤ) (cache : Cache) (w : W)
      → before ≤ℤ now
      → Sound before cache w
      → Admitted now most w (allowed p namespace name most now ttl (cache, w))
  unfolding allowed
  allowed-Admitted before now ttl most cache w step sound =
      under_cap-Admitted now most w _ (count_triggers-Counted before now ttl cache w step sound)

  -- What the limiter is asked at `now`: its verdict, and the state that it leaves.
  abbrev pub asked : ℤ → Duration → Time → Cache → W → Fallible Bool × (Cache × W)
  asked most ttl now cache w = allowed p namespace name most now ttl (cache, w)

  -- The states that are reached from an empty trail, with the triggers so far and those of them that
  -- have no record. Times grow. A trigger needs the limiter's leave; then its record is written and
  -- observed, or the write fails and neither happens. The operator may restart, which loses the
  -- cache, and records may be deleted.
  pub data Reached (most : ℤ)
      : Time → Cache → W → List ActionAudit → List ActionAudit → Type 0 where
    start : (now : Time) (w : W) → t.records w ≡ [] → Reached most now [] w [] []
    restart :
        {now : Time} {cache : Cache} {w : W} {all missing : List ActionAudit}
        → Reached most now cache w all missing
        → Reached most now [] w all missing
    quiet :
        {before : Time} {cache : Cache} {w : W} {all missing : List ActionAudit} (now : Time)
        (ttl : Duration)
        → Reached most before cache w all missing
        → before ≤ℤ now
        → Reached most now
            (asked most ttl now cache w).1.0
            (asked most ttl now cache w).1.1
            all
            missing
    recorded :
        {before : Time} {cache : Cache} {w : W} {all missing : List ActionAudit} (now : Time)
        (ttl : Duration) (audit : ActionAudit) (w' : W)
        → Reached most before cache w all missing
        → before ≤ℤ now
        → (asked most ttl now cache w).0 ≡ ok true
        → audit.spec.triggered_at ≡ now
        → t.records w' ≡ audit ∷ t.records (asked most ttl now cache w).1.1
        → Reached most now
            (observe_trigger namespace name now (asked most ttl now cache w).1.0)
            w'
            (audit ∷ all)
            missing
    unrecorded :
        {before : Time} {cache : Cache} {w : W} {all missing : List ActionAudit} (now : Time)
        (ttl : Duration) (audit : ActionAudit) (w' : W)
        → Reached most before cache w all missing
        → before ≤ℤ now
        → (asked most ttl now cache w).0 ≡ ok true
        → audit.spec.triggered_at ≡ now
        → t.records w' ≡ t.records (asked most ttl now cache w).1.1
        → Reached most now (asked most ttl now cache w).1.0 w' (audit ∷ all) (audit ∷ missing)
    deleted :
        {now : Time} {cache : Cache} {w : W} {all missing : List ActionAudit}
        (xs ys : List ActionAudit) (audit : ActionAudit) (w' : W)
        → Reached most now cache w all missing
        → t.records w ≡ xs ++ audit ∷ ys
        → t.records w' ≡ xs ++ ys
        → Reached most now cache w' all (audit ∷ missing)

  -- The cache covers the records, which are within the cap, and what triggered is recorded or missing.
  pub record WithinCap (most : ℤ) (now : Time) (cache : Cache) (w : W)
      (all missing : List ActionAudit) : Type 0 where
    pub sound : Sound now cache w
    pub capped : pos (in_hour now (t.records w)) ≤ℤ most
    pub accounted :
        (later : Time) → in_hour later all ≤ in_hour later (t.records w) + in_hour later missing
