-- ===== src/Controller/Limiter.antt =====
-- internal/controller/ratelimit.go: the hourly cap, counted from the persisted audit records and
-- cached per policy. The controller reconciles one policy at a time under one key, so the two
-- critical sections of `count` are taken as one step; the cache of another key is not touched.
pub mod Covers
pub mod Cap
use reactive_policy.Common.{
  ℕ, suc, ℤ, pos, ltb_ℤ, Time, Duration, time_sub, seconds, ◌-ℤ◌, String, [], Option, none, some,
  Bool, Assoc, lookup, insert, erase, Fallible, ok, err, if◌then◌else◌, count_if,
}
use Prim.Native.String.{◌++◌}
use reactive_policy.Api.{ActionAudit}
use reactive_policy.Platform.{Platform, wrap}

pub record LimiterEntry : Type 0 where
  pub queried_at : Time
  pub count : ℕ

abbrev pub Cache : Type 0
Cache = Assoc LimiterEntry

abbrev pub hour : Duration
hour = seconds 3600

-- namespace + "/" + name, also the key of a NamespacedName
abbrev pub object_key : String → String → String
object_key namespace name = namespace ++ "/" ++ name

-- TriggeredAt.After(cutoff), cutoff an hour before `now`
abbrev pub in_trailing_hour : Time → ActionAudit → Bool
in_trailing_hour now audit = ltb_ℤ (now -ℤ hour) audit.spec.triggered_at

-- The cached count, where it is younger than `ttl`.
unfoldable pub fresh_count : Option LimiterEntry → Time → Duration → Option ℕ
fresh_count none now ttl = none
fresh_count (some entry) now ttl =
    if ltb_ℤ (time_sub now entry.queried_at) ttl then some entry.count else none

-- The comparison at the end of Allowed.
unfoldable pub under_cap {ℓ} : {S : Type ℓ} → ℤ → Fallible ℕ × S → Fallible Bool × S
under_cap max_per_hour (err e, s) = (err e, s)
under_cap max_per_hour (ok n, s) = (ok (ltb_ℤ (pos n) max_per_hour), s)

module _ {W F : Type 0} (p : Platform W F) where
  -- count
  unfoldable pub count_triggers :
      String → String → Time → Duration → Cache × W → Fallible ℕ × (Cache × W)
  count_triggers namespace name now ttl (cache, w) =
      let key = object_key namespace name in
      elim (fresh_count (lookup key cache) now ttl) [
        | some n ↦ (ok n, (cache, w))
        | none ↦
            let listed = p.list_audits namespace name w in
            elim listed.0 [
              | err e ↦
                  (err (wrap p "listing audit records for rate limit: %w" [] e), (cache, listed.1))
              | ok items ↦
                  let n = count_if (in_trailing_hour now) items in
                  (ok n, (insert key (record { queried_at = now; count = n }) cache, listed.1))
            ]
      ]

  -- Allowed
  unfoldable pub allowed :
      String → String → ℤ → Time → Duration → Cache × W → Fallible Bool × (Cache × W)
  allowed namespace name max_per_hour now ttl s =
      under_cap max_per_hour (count_triggers namespace name now ttl s)

-- Observe
unfoldable pub observe_trigger : String → String → Time → Cache → Cache
observe_trigger namespace name now cache =
    let key = object_key namespace name in
    elim (lookup key cache) [
      | none ↦ cache
      | some entry ↦ insert key (record { queried_at = now; count = suc entry.count }) cache
    ]

-- Forget
unfoldable pub forget_policy : String → String → Cache → Cache
forget_policy namespace name cache = erase (object_key namespace name) cache
