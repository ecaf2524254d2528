-- ===== src/Prometheus/Window.antt =====
-- SlidingWindow of internal/prometheus/evaluator.go. Its methods hold a lock for their whole body,
-- so each is one step on the map.
pub mod History
use reactive_policy.Common.{
  pos, Time, Duration, time_sub, String, none, some, Bool, true, false, Assoc, lookup, insert,
  erase,
}

abbrev pub SlidingWindow : Type 0
SlidingWindow = Assoc Time

-- Observe
unfoldable pub observe : String → Bool → Time → SlidingWindow → Duration × SlidingWindow
observe key false now w = (pos 0, erase key w)
observe key true now w = elim (lookup key w) [
  | none ↦ (pos 0, insert key now w)
  | some since ↦ (time_sub now since, w)
]

-- Forget
unfoldable pub forget : String → SlidingWindow → SlidingWindow
forget key w = erase key w
