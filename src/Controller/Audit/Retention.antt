-- ===== src/Controller/Audit/Retention.antt =====
-- parseRetention and retentionFor of actionaudit_controller.go.
use reactive_policy.Common.{
  ℤ, ◌*ℤ◌, to_int64, Duration, seconds, String, Option, none, some, Error, ErrorKind, Fallible, ok,
  err, Act, ◌>>=◌, pure, if◌then◌else◌, str_eq, codes, trim_space, without_suffix, atoi,
}
use reactive_policy.Api.{ReactivePolicy, ActionAudit}
use reactive_policy.Platform.{Platform}
use reactive_policy.Controller.System.{System, ask}

abbrev pub day : Duration
day = seconds 86400

abbrev pub year : Duration
year = seconds 31536000

abbrev pub default_retention : Duration
default_retention = seconds 2592000

-- A count of units: time.Duration(n) * unit wraps around in int64.
unfoldable pub in_units : Duration → Option ℤ → Error → Fallible Duration
in_units unit none e = err e
in_units unit (some n) e = ok (to_int64 (n *ℤ unit))

module _ {W F : Type 0} (p : Platform W F) where
  -- What the message quotes is left out: the error only reaches the log.
  abbrev bad_retention : String → Error
  bad_retention format = record { kind = ErrorKind.other; message = format }

  -- parseRetention
  unfoldable pub parse_retention : String → Fallible Duration
  parse_retention s =
      let t = trim_space (codes s) in
      elim (without_suffix b'd' t) [
        | some rest ↦ in_units day (atoi rest) (bad_retention "invalid day retention %q: %w")
        | none ↦ elim (without_suffix b'y' t) [
          | some rest ↦ in_units year (atoi rest) (bad_retention "invalid year retention %q: %w")
          | none ↦ p.parse_duration t
        ]
      ]

  -- What retentionFor makes of the policy that it fetched.
  unfoldable pub retention_of : Fallible ReactivePolicy → Duration
  retention_of (err e) = default_retention
  retention_of (ok policy) = elim policy.spec.audit [
    | none ↦ default_retention
    | some audit ↦
        if str_eq audit.retention ""
        then default_retention
        else elim (parse_retention audit.retention) [ ok d ↦ d | err e ↦ default_retention ]
  ]

  -- retentionFor
  unfoldable pub retention_for : ActionAudit → Act (System W) Duration
  retention_for audit = do
    got ← ask (p.get_policy audit.metadata.namespace audit.spec.policy_ref)
    pure (retention_of got)
