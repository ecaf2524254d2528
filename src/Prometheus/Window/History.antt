-- ===== src/Prometheus/Window/History.antt =====
-- What the sliding window knows of a policy, against the history of the calls that were made on it.
use reactive_policy.Common.{
  pos, ◌+ℤ◌, ◌≤ℤ◌, ◌<ℤ◌, le-time_sub, sym, ap, ◌∙◌, Time, Duration, time_sub, String, List, [], ◌∷◌,
  Option, none, some, Bool, true, false, lookup, lookup-insert, lookup-erase, eq_iff, if◌then◌else◌,
  str_eq, ◌≡◌, refl, ◌⊎◌, inl, inr, arith, Option-cases,
}
use reactive_policy.Prometheus.Window.{SlidingWindow, observe, forget}

-- A call on the window.
pub data Call : Type 0 where
  sample : String → Bool → Time → Call
  drop : String → Call

-- The window after the calls, the newest first.
unfoldable pub after_calls : List Call → SlidingWindow
after_calls [] = []
after_calls (sample key crossed now ∷ older) = (observe key crossed now (after_calls older)).1
after_calls (drop key ∷ older) = forget key (after_calls older)

-- No crossing of `key` is running: its last call, if any, is a sample within the threshold or a
-- drop.
abbrev pub NotRunning : String → List Call → Type 0
NotRunning key [] = Unit
NotRunning key (sample j true now ∷ older) = (str_eq j key ≡ false) × NotRunning key older
NotRunning key (sample j false now ∷ older) = (str_eq j key ≡ true) ⊎ NotRunning key older
NotRunning key (drop j ∷ older) = (str_eq j key ≡ true) ⊎ NotRunning key older

-- Since `t` every sample of `key` was crossed and nothing dropped it, and `t` is the first of them.
abbrev pub CrossedSince : String → Time → List Call → Type 0
CrossedSince key t [] = ⊥
CrossedSince key t (sample j true now ∷ older) =
    ((str_eq j key ≡ true) × (now ≡ t) × NotRunning key older) ⊎ CrossedSince key t older
CrossedSince key t (sample j false now ∷ older) = (str_eq j key ≡ false) × CrossedSince key t older
CrossedSince key t (drop j ∷ older) = (str_eq j key ≡ false) × CrossedSince key t older

abbrev Known : String → List Call → Option Time → Type 0
Known key calls none = NotRunning key calls
Known key calls (some t) = CrossedSince key t calls

lookup-observe-crossed :
    (j key : String) (now : Time) (w : SlidingWindow)
    → lookup key (observe j true now w).1 ≡ (
        if str_eq j key
        then elim (lookup key w) [ none ↦ some now | some t ↦ some t ]
        else lookup key w)
unfolding observe
lookup-observe-crossed j key now w = elim (Option-cases (lookup j w)) [
  | inl e ↦ rw (e, observe) (rw lookup-insert (ground (arith, eq_iff j key)))
  | inr (t, e) ↦ rw (e, observe) (ground (arith, eq_iff j key))
]

lookup-observe-within :
    (j key : String) (now : Time) (w : SlidingWindow)
    → lookup key (observe j false now w).1 ≡ (if str_eq j key then none else lookup key w)
unfolding observe
lookup-observe-within j key now w = lookup-erase j key w

Known-crossed :
    (key j : String) (now : Time) (older : List Call) (o : Option Time)
    → Known key older o
    → (same : Bool) → str_eq j key ≡ same
    → Known key
        (sample j true now ∷ older)
        (if same then elim o [ none ↦ some now | some t ↦ some t ] else o)
Known-crossed key j now older none h true e = inl (e, refl, h)
Known-crossed key j now older (some t) h true e = inr h
Known-crossed key j now older none h false e = (e, h)
Known-crossed key j now older (some t) h false e = inr h

Known-dropped :
    (key j : String) (older : List Call) (o : Option Time)
    → Known key older o
    → (same : Bool) → str_eq j key ≡ same
    → Known key (drop j ∷ older) (if same then none else o)
Known-dropped key j older o h true e = inl e
Known-dropped key j older none h false e = inr h
Known-dropped key j older (some t) h false e = (e, h)

Known-within :
    (key j : String) (now : Time) (older : List Call) (o : Option Time)
    → Known key older o
    → (same : Bool) → str_eq j key ≡ same
    → Known key (sample j false now ∷ older) (if same then none else o)
Known-within key j now older o h true e = inl e
Known-within key j now older none h false e = inr h
Known-within key j now older (some t) h false e = (e, h)

-- The window holds for `key` the start of its running crossing, and nothing if none is running.
pub lookup-after_calls :
    (key : String) (calls : List Call) → Known key calls (lookup key (after_calls calls))
unfolding after_calls lookup forget
lookup-after_calls key [] = tt
lookup-after_calls key (sample j true now ∷ older) =
    rw lookup-observe-crossed
      (Known-crossed key j now older _ (lookup-after_calls key older) (str_eq j key) refl)
lookup-after_calls key (sample j false now ∷ older) =
    rw lookup-observe-within
      (Known-within key j now older _ (lookup-after_calls key older) (str_eq j key) refl)
lookup-after_calls key (drop j ∷ older) =
    rw lookup-erase (Known-dropped key j older _ (lookup-after_calls key older) (str_eq j key) refl)

not-NotRunning :
    (key : String) (t : Time) (calls : List Call)
    → NotRunning key calls
    → CrossedSince key t calls
    → ⊥
not-NotRunning key t [] n c = c
not-NotRunning key t (sample j true now ∷ older) n (inl c) = cc (n.0, c.0)
not-NotRunning key t (sample j true now ∷ older) n (inr c) = not-NotRunning key t older n.1 c
not-NotRunning key t (sample j false now ∷ older) (inl e) c = cc (e, c.0)
not-NotRunning key t (sample j false now ∷ older) (inr n) c = not-NotRunning key t older n c.1
not-NotRunning key t (drop j ∷ older) (inl e) c = cc (e, c.0)
not-NotRunning key t (drop j ∷ older) (inr n) c = not-NotRunning key t older n c.1

CrossedSince-unique :
    (key : String) (t u : Time) (calls : List Call)
    → CrossedSince key t calls
    → CrossedSince key u calls
    → t ≡ u
CrossedSince-unique key t u [] c d = absurd c
CrossedSince-unique key t u (sample j true now ∷ older) (inl c) (inl d) = sym c.1 ∙ d.1
CrossedSince-unique key t u (sample j true now ∷ older) (inl c) (inr d) =
    absurd (not-NotRunning key u older c.2 d)
CrossedSince-unique key t u (sample j true now ∷ older) (inr c) (inl d) =
    absurd (not-NotRunning key t older d.2 c)
CrossedSince-unique key t u (sample j true now ∷ older) (inr c) (inr d) =
    CrossedSince-unique key t u older c d
CrossedSince-unique key t u (sample j false now ∷ older) c d =
    CrossedSince-unique key t u older c.1 d.1
CrossedSince-unique key t u (drop j ∷ older) c d = CrossedSince-unique key t u older c.1 d.1

Known-some :
    (key : String) (t : Time) (calls : List Call) (o : Option Time)
    → Known key calls o
    → CrossedSince key t calls
    → o ≡ some t
Known-some key t calls none h c = absurd (not-NotRunning key t calls h c)
Known-some key t calls (some u) h c = ap some (CrossedSince-unique key u t calls h c)

-- A crossed sample that Observe answers with a time of at least `d`, where `d` is positive, comes
-- at least `d` after the first sample of an unbroken run: since that sample the policy had no
-- sample within the threshold, and its window was not dropped.
pub observe-sustained :
    (key : String) (calls : List Call) (now : Time) (d : Duration)
    → pos 0 <ℤ d
    → d ≤ℤ (observe key true now (after_calls calls)).0
    → (t : Time) × CrossedSince key t calls × (t +ℤ d ≤ℤ now)
unfolding observe
observe-sustained key calls now d positive long =
    go (lookup key (after_calls calls)) refl (lookup-after_calls key calls)
  where
    go :
        (o : Option Time)
        → lookup key (after_calls calls) ≡ o
        → Known key calls o
        → (t : Time) × CrossedSince key t calls × (t +ℤ d ≤ℤ now)
    go none e h = let short : d ≤ℤ pos 0 = rw (e, observe) at long in absurd (omega arith)
    go (some t) e h =
        let enough : d ≤ℤ time_sub now t = rw (e, observe) at long in
        (t, h, le-time_sub now t d (omega arith) enough)

-- In an unbroken run of crossed samples Observe answers with the time since the first of them.
pub observe_exact :
    (key : String) (calls : List Call) (now t : Time)
    → CrossedSince key t calls
    → (observe key true now (after_calls calls)).0 ≡ time_sub now t
unfolding observe
observe_exact key calls now t c =
    rw (Known-some key t calls _ (lookup-after_calls key calls) c, observe) refl
