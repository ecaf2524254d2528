-- ===== src/Controller/Audit/Overflow.antt =====
-- The int64 arithmetic of parseRetention: where it is exact and where it wraps around.
use reactive_policy.Common.{
  ℕ, ◌*◌, ◌≤◌, ◌<◌, ◌-◌, pos, negsuc, ◌<ℤ◌, ◌*ℤ◌, to_signed, to_int64, max_int64, Duration, some,
  ok, Error, ◌≡◌, ap, ◌∙◌, ◌≢◌, inl, inr, arith, Bool-cases, str_eq, eq_iff, String, List, none,
  codes, trim_space, without_suffix, atoi,
}
use reactive_policy.Controller.Audit.Retention.{in_units, year, parse_retention, retention_of}
use reactive_policy.Api.{ReactivePolicy}
use reactive_policy.Api.Policy.{AuditSpec}
use reactive_policy.Platform.{Platform}

to_int64_small : (n : ℕ) → n ≤ max_int64 → to_int64 (pos n) ≡ pos n
unfolding to_signed
to_int64_small n h = ground arith

to_int64_large :
    (n : ℕ)
    → max_int64 < n
    → n < 18446744073709551616
    → to_int64 (pos n) ≡ negsuc (18446744073709551616 - 1 - n)
unfolding to_signed
to_int64_large n h h' = ground arith

mul_pos : (n m : ℕ) → pos n *ℤ pos m ≡ pos (n * m)
unfolding ◌*ℤ◌
mul_pos n m = let a : n * 0 ≡ 0 = omega arith in let b : 0 * m ≡ 0 = omega arith in ground arith

in_units_exact :
    (unit n : ℕ) (e : Error)
    → n * unit ≤ max_int64
    → in_units (pos unit) (some (pos n)) e ≡ ok (pos (n * unit))
unfolding in_units
in_units_exact unit n e h = ap ok (ap to_int64 (mul_pos n unit) ∙ to_int64_small (n * unit) h)

in_years_wraps :
    (n : ℕ)
    → 293 ≤ n
    → n ≤ 584
    → (e : Error)
    → in_units year (some (pos n)) e
      ≡ ok (negsuc (18446744073709551616 - 1 - n * 31536000000000000))
unfolding in_units
in_years_wraps n low high e = ap ok (
    ap to_int64 (mul_pos n 31536000000000000)
    ∙ to_int64_large (n * 31536000000000000) (omega (arith, low)) (omega (arith, high)))

module _ {W F : Type 0} (p : Platform W F) where
  parse_days :
      (s : String) (ds : List ℕ) (n : ℕ)
      → without_suffix b'd' (trim_space (codes s)) ≡ some ds
      → atoi ds ≡ some (pos n)
      → n * 86400000000000 ≤ max_int64
      → parse_retention p s ≡ ok (pos (n * 86400000000000))
  unfolding parse_retention
  parse_days s ds n suffix number h =
      rw (parse_retention, suffix) (rw number (in_units_exact 86400000000000 n _ h))

  parse_years :
      (s : String) (ds : List ℕ) (n : ℕ) (d : Duration)
      → without_suffix b'd' (trim_space (codes s)) ≡ none
      → without_suffix b'y' (trim_space (codes s)) ≡ some ds
      → atoi ds ≡ some (pos n)
      → ((e : Error) → in_units year (some (pos n)) e ≡ ok d)
      → parse_retention p s ≡ ok d
  unfolding parse_retention
  parse_years s ds n d not_days suffix number value =
      rw (parse_retention, not_days) (rw suffix (rw number (value _)))

  retention_of_parsed :
      (policy : ReactivePolicy) (audit : AuditSpec) (d : Duration)
      → policy.spec.audit ≡ some audit
      → audit.retention ≢ ""
      → parse_retention p audit.retention ≡ ok d
      → retention_of p (ok policy) ≡ d
  unfolding retention_of
  retention_of_parsed policy audit d there named parsed =
      elim (Bool-cases (str_eq audit.retention "")) [
        | inl e ↦ absurd (named ((eq_iff audit.retention "").0 e))
        | inr e ↦ ground arith
      ]

  -- A retention in days or years that fits into int64 is the number of nanoseconds that it says.
  -- Years fit up to 292.
  pub retention_of_exact :
      (policy : ReactivePolicy) (audit : AuditSpec) (ds : List ℕ) (n : ℕ)
      → policy.spec.audit ≡ some audit
      → audit.retention ≢ ""
      → atoi ds ≡ some (pos n)
      → let text = trim_space (codes audit.retention) in
        ((without_suffix b'd' text ≡ some ds) × (n * 86400000000000 ≤ max_int64)
          → retention_of p (ok policy) ≡ pos (n * 86400000000000))
        × ((without_suffix b'd' text ≡ none) × (without_suffix b'y' text ≡ some ds) × (n ≤ 292)
            → retention_of p (ok policy) ≡ pos (n * 31536000000000000))
  retention_of_exact policy audit ds n there named number = (
    λ (days, h).
        retention_of_parsed policy audit _ there named
          (parse_days audit.retention ds n days number h),
    λ (not_days, years, h). retention_of_parsed policy audit _ there named (
        parse_years audit.retention ds n _ not_days years number
          λ e. in_units_exact 31536000000000000 n e (omega (arith, h))),
  )

  -- A retention of 293 to 584 years wraps around to a negative duration, so that the record's
  -- retention is over as soon as it is written.
  pub retention_of_wraps :
      (policy : ReactivePolicy) (audit : AuditSpec) (ds : List ℕ) (n : ℕ)
      → policy.spec.audit ≡ some audit
      → audit.retention ≢ ""
      → without_suffix b'd' (trim_space (codes audit.retention)) ≡ none
      → without_suffix b'y' (trim_space (codes audit.retention)) ≡ some ds
      → atoi ds ≡ some (pos n)
      → 293 ≤ n
      → n ≤ 584
      → retention_of p (ok policy) <ℤ pos 0
  retention_of_wraps policy audit ds n there named not_days years number low high =
      let e =
        retention_of_parsed policy audit _ there named
          (parse_years audit.retention ds n _ not_days years number (in_years_wraps n low high)) in
      rw e (ground arith)
