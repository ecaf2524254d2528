-- ===== src/Metrics/Tracker.antt =====
-- The tracker of watched policies against the calls that were made on it.
use reactive_policy.Common.{
  ℕ, String, List, [], ◌∷◌, Bool, true, false, not, ◌||◌, ◌&&◌, lookup, lookup-insert, eq_self,
  length, str_eq, eq_iff, ◌≡◌, refl, arith, Bool-cases, Option-cases, inl, inr, if◌then◌else◌,
}
use reactive_policy.Metrics.{
  Metrics, Update, Collector, track_policy, untrack_policy, names_in, drop_name, set_tracked,
}

pub data Call : Type 0 where
  track untrack : String → String → Call

abbrev apply : Call → Metrics → Metrics
apply (track namespace name) m = track_policy namespace name m
apply (untrack namespace name) m = untrack_policy namespace name m

-- The state after calls that stand newest first.
unfoldable pub after_calls : List Call → Metrics
after_calls [] = record { updates = []; tracked = [] }
after_calls (c ∷ older) = apply c (after_calls older)

abbrev same : String → String → String → String → Bool
same namespace name ns n = str_eq namespace ns && str_eq name n

-- The newest call on the policy tracks it.
abbrev pub is_watched : String → String → List Call → Bool
is_watched ns n [] = false
is_watched ns n (track namespace name ∷ older) = same namespace name ns n || is_watched ns n older
is_watched ns n (untrack namespace name ∷ older) =
    not (same namespace name ns n) && is_watched ns n older

abbrev pub mem : String → List String → Bool
mem n [] = false
mem n (name ∷ names) = str_eq name n || mem n names

mem-drop_name :
    (n name : String) (names : List String)
    → mem n (drop_name name names) ≡ (not (str_eq name n) && mem n names)
mem-drop_name n name [] = ground arith
mem-drop_name n name (other ∷ names) =
    ground (arith, eq_iff other name, eq_iff other n, eq_iff name n, mem-drop_name n name names)

names_in-set_tracked :
    (ns namespace : String) (names : List String) (m : Metrics)
    → names_in ns (set_tracked namespace names m)
      ≡ (if str_eq namespace ns then names else names_in ns m)
names_in-set_tracked ns namespace names m =
    ground (arith, lookup-insert namespace ns names m.tracked)

names_in-track :
    (ns namespace name : String) (m : Metrics)
    → names_in ns (track_policy namespace name m)
      ≡ (if str_eq namespace ns then name ∷ drop_name name (names_in ns m) else names_in ns m)
unfolding track_policy
names_in-track ns namespace name m = ground (
  arith,
  names_in-set_tracked ns namespace (name ∷ drop_name name (names_in namespace m)) m,
  eq_iff namespace ns,
)

names_in-untrack :
    (ns namespace name : String) (m : Metrics)
    → names_in ns (untrack_policy namespace name m)
      ≡ (if str_eq namespace ns then drop_name name (names_in ns m) else names_in ns m)
unfolding untrack_policy
names_in-untrack ns namespace name m = elim (Option-cases (lookup namespace m.tracked)) [
  | inl e ↦ ground (arith, eq_iff namespace ns)
  | inr (names, e) ↦
      ground
        (arith, names_in-set_tracked ns namespace (drop_name name names) m, eq_iff namespace ns)
]

mem-after_calls :
    (ns n : String) (calls : List Call)
    → mem n (names_in ns (after_calls calls)) ≡ is_watched ns n calls
unfolding after_calls lookup
mem-after_calls ns n [] = refl
mem-after_calls ns n (track namespace name ∷ older) = ground (
  arith,
  names_in-track ns namespace name (after_calls older),
  mem-drop_name n name (names_in ns (after_calls older)),
  mem-after_calls ns n older,
)
mem-after_calls ns n (untrack namespace name ∷ older) = ground (
  arith,
  names_in-untrack ns namespace name (after_calls older),
  mem-drop_name n name (names_in ns (after_calls older)),
  mem-after_calls ns n older,
)

-- No name stands twice.
abbrev pub Distinct : List String → Type 0
Distinct [] = Unit
Distinct (name ∷ names) = (mem name names ≡ false) × Distinct names

drop_name-Distinct :
    (name : String) (names : List String) → Distinct names → Distinct (drop_name name names)
drop_name-Distinct name [] d = tt
drop_name-Distinct name (other ∷ names) (new, d) = elim (Bool-cases (str_eq other name)) [
  | inl e ↦ rw e (drop_name-Distinct name names d)
  | inr e ↦ rw e (ground (arith, mem-drop_name other name names), drop_name-Distinct name names d)
]

tracked-Distinct :
    (b : Bool) (name : String) (names : List String)
    → Distinct names
    → Distinct (if b then name ∷ drop_name name names else names)
tracked-Distinct true name names d =
    (ground (arith, mem-drop_name name name names, eq_self name), drop_name-Distinct name names d)
tracked-Distinct false name names d = d

untracked-Distinct :
    (b : Bool) (name : String) (names : List String)
    → Distinct names
    → Distinct (if b then drop_name name names else names)
untracked-Distinct true name names d = drop_name-Distinct name names d
untracked-Distinct false name names d = d

names_in-Distinct : (ns : String) (calls : List Call) → Distinct (names_in ns (after_calls calls))
unfolding after_calls lookup
names_in-Distinct ns [] = tt
names_in-Distinct ns (track namespace name ∷ older) =
    rw names_in-track (tracked-Distinct (str_eq namespace ns) name _ (names_in-Distinct ns older))
names_in-Distinct ns (untrack namespace name ∷ older) =
    rw names_in-untrack
      (untracked-Distinct (str_eq namespace ns) name _ (names_in-Distinct ns older))

-- What the gauge of a namespace shows: the newest value that was set.
abbrev pub gauge : String → List Update → ℕ
gauge ns [] = 0
gauge ns (Update.set Collector.active_policies (namespace ∷ []) n ∷ older) =
    if str_eq namespace ns then n else gauge ns older
gauge ns (u ∷ older) = gauge ns older

Shown : String → Metrics → Type 0
Shown ns m = gauge ns m.updates ≡ length (names_in ns m)

set_tracked-Shown :
    (ns namespace : String) (names : List String) (m : Metrics)
    → Shown ns m
    → Shown ns (set_tracked namespace names m)
unfolding Shown
set_tracked-Shown ns namespace names m h = ground (arith, names_in-set_tracked ns namespace names m)

apply-Shown : (ns : String) (c : Call) (m : Metrics) → Shown ns m → Shown ns (apply c m)
unfolding track_policy untrack_policy
apply-Shown ns (track namespace name) m h = set_tracked-Shown ns namespace _ m h
apply-Shown ns (untrack namespace name) m h = elim (Option-cases (lookup namespace m.tracked)) [
  | inl e ↦ rw (untrack_policy, e) h
  | inr (names, e) ↦
      rw (untrack_policy, e) (set_tracked-Shown ns namespace (drop_name name names) m h)
]

after_calls-Shown : (ns : String) (calls : List Call) → Shown ns (after_calls calls)
unfolding after_calls Shown lookup
after_calls-Shown ns [] = refl
after_calls-Shown ns (c ∷ older) = apply-Shown ns c (after_calls older) (after_calls-Shown ns older)

-- After any calls the tracker holds for a namespace the policies whose newest call tracks them, each
-- once, and the namespace's gauge of active policies shows how many they are.
pub after_calls_lem :
    (ns : String) (calls : List Call)
    → let names = names_in ns (after_calls calls) in
      ((n : String) → mem n names ≡ is_watched ns n calls)
      × Distinct names
      × (gauge ns (after_calls calls).updates ≡ length names)
unfolding Shown
after_calls_lem ns calls =
    (λ n. mem-after_calls ns n calls, names_in-Distinct ns calls, after_calls-Shown ns calls)
