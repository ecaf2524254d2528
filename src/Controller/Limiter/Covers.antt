-- ===== src/Controller/Limiter/Covers.antt =====
-- When the count of the limiter's cache is enough for the audit records of the trailing hour.
use reactive_policy.Common.{
  ◌+◌, ◌++◌, ℕ, suc, ◌≤◌, ◌≤ℤ◌, -ℤ_parts, Time, Duration, List, [], ◌∷◌, Option, none, some,
  count_if, ◌≡◌, arith,
}
use reactive_policy.Api.{ActionAudit}
use reactive_policy.Controller.Limiter.{LimiterEntry, hour, in_trailing_hour, fresh_count}

-- How many of the records were triggered in the hour before `now`.
abbrev pub in_hour : Time → List ActionAudit → ℕ
in_hour now audits = count_if (in_trailing_hour now) audits

-- As time passes, records leave the trailing hour and none enters it.
pub in_hour_antitone :
    (now later : Time) (audits : List ActionAudit)
    → now ≤ℤ later
    → in_hour later audits ≤ in_hour now audits
in_hour_antitone now later [] h = omega arith
in_hour_antitone now later (a ∷ audits) h =
    ground (arith, in_hour_antitone now later audits h, -ℤ_parts now hour, -ℤ_parts later hour)

-- The entry was made by `now`, and from its time on it counts at least the records.
abbrev pub Covers : Time → List ActionAudit → Option LimiterEntry → Type 0
Covers now audits none = Unit
Covers now audits (some entry) =
    (entry.queried_at ≤ℤ now)
    × ((later : Time) → entry.queried_at ≤ℤ later → in_hour later audits ≤ entry.count)

pub Covers-later :
    (before now : Time) (audits : List ActionAudit) (o : Option LimiterEntry)
    → before ≤ℤ now
    → Covers before audits o
    → Covers now audits o
Covers-later before now audits none h c = tt
Covers-later before now audits (some entry) h c = (omega arith, c.1)

pub fresh_count-Covers :
    (before now : Time) (ttl : Duration) (audits : List ActionAudit) (o : Option LimiterEntry)
    (n : ℕ)
    → before ≤ℤ now
    → Covers before audits o
    → fresh_count o now ttl ≡ some n
    → in_hour now audits ≤ n
unfolding fresh_count
fresh_count-Covers before now ttl audits none n h c e = cc
fresh_count-Covers before now ttl audits (some entry) n h c e =
    ground (arith, c.1 now (omega arith))

pub Covers-listed :
    (now : Time) (audits : List ActionAudit)
    → Covers now audits (some (record { queried_at = now; count = in_hour now audits }))
Covers-listed now audits = (omega arith, λ later h. in_hour_antitone now later audits h)

-- A record that is counted as it is written.
pub Covers-observed :
    (before now : Time) (audit : ActionAudit) (audits : List ActionAudit) (entry : LimiterEntry)
    → before ≤ℤ now
    → Covers before audits (some entry)
    → Covers now (audit ∷ audits) (some (record { queried_at = now; count = suc entry.count }))
Covers-observed before now audit audits entry h c =
    (omega arith, λ later l. ground (arith, c.1 later (omega arith)))

pub in_hour-deleted :
    (now : Time) (xs ys : List ActionAudit) (a : ActionAudit)
    → in_hour now (xs ++ a ∷ ys) ≡ in_hour now (xs ++ ys) + in_hour now (a ∷ [])
in_hour-deleted now [] ys a = ground arith
in_hour-deleted now (x ∷ xs) ys a = ground (arith, in_hour-deleted now xs ys a)

-- A cache that covers some records covers fewer.
pub Covers-fewer :
    (now : Time) (audits fewer : List ActionAudit) (o : Option LimiterEntry)
    → ((later : Time) → in_hour later fewer ≤ in_hour later audits)
    → Covers now audits o
    → Covers now fewer o
Covers-fewer now audits fewer none h c = tt
Covers-fewer now audits fewer (some entry) h c =
    (c.0, λ later l. omega (arith, h later, c.1 later l))
