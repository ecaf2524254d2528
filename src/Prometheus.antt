-- ===== src/Prometheus.antt =====
-- internal/prometheus/evaluator.go: comparing a value with the threshold, and the window that
-- remembers since when each policy's threshold is crossed. Float64 is the type `F` of the platform.
pub mod Window
pub mod Client
use reactive_policy.Common.{String, Bool, false, not, Fallible, ok, err, [], ◌∷◌}
use reactive_policy.Api.{ComparisonOperator}
use reactive_policy.Platform.{Platform, wrap}
use reactive_policy.Platform

module _ {W F : Type 0} (p : Platform W F) where
  -- ParseThreshold
  unfoldable pub parse_threshold : String → Fallible F
  parse_threshold s = elim (p.parse_float s) [
    | ok v ↦ ok v
    | err e ↦ err (wrap p "parsing threshold %q: %w" (Platform.Arg.text s ∷ []) e)
  ]

  -- Compare; `a > b` is `b < a`, and an unknown operator never holds.
  unfoldable pub compare : F → F → ComparisonOperator → Bool
  compare value threshold ComparisonOperator.greater_than = p.float_lt threshold value
  compare value threshold ComparisonOperator.greater_than_or_equal = p.float_le threshold value
  compare value threshold ComparisonOperator.less_than = p.float_lt value threshold
  compare value threshold ComparisonOperator.less_than_or_equal = p.float_le value threshold
  compare value threshold ComparisonOperator.equal = p.float_eq value threshold
  compare value threshold ComparisonOperator.not_equal = not (p.float_eq value threshold)
  compare value threshold (ComparisonOperator.other s) = false
