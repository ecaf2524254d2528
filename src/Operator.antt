-- ===== src/Operator.antt =====
-- cmd/auditsink.go, which chooses the audit sink, and the permissions that cmd/main.go declares for
-- the built-in plugins.
pub mod Permitted
use reactive_policy.Common.{
  ℤ, String, List, [], ◌∷◌, Error, ErrorKind, Fallible, ok, err, str_eq, if◌then◌else◌,
}
use reactive_policy.Platform.{Platform, Arg}
use reactive_policy.Action.Types.{PolicyRule}
use reactive_policy.Sink.Postgres.{PostgresSink}
use reactive_policy.Sink.Postgres.Writer.{Pool, new_postgres}

-- The sinks that the operator can have
pub data ChosenSink (W : Type 0) : Type 0 where
  nothing : ChosenSink W
  postgres : PostgresSink → Pool W → ChosenSink W

module _ {W F : Type 0} (p : Platform W F) (getenv : String → String)
    (connect : String → W → Fallible (Pool W) × W) where
  abbrev connected : Fallible (PostgresSink × Pool W) × W → Fallible (ChosenSink W) × W
  connected (err e, w) = (err e, w)
  connected (ok (sink, pool), w) = (ok (ChosenSink.postgres sink pool), w)

  -- buildAuditSink
  unfoldable pub build_audit_sink : String → String → ℤ → W → Fallible (ChosenSink W) × W
  unfolding new_postgres
  build_audit_sink kind dsn_env queue_size w =
      if str_eq kind ""
      then (ok ChosenSink.nothing, w)
      else if str_eq kind "none"
      then (ok ChosenSink.nothing, w)
      else if str_eq kind "postgres"
      then (if str_eq (getenv dsn_env) ""
          then (ok ChosenSink.nothing, w)
          else connected (new_postgres p (connect (getenv dsn_env)) queue_size w))
      else (
        err (record {
          kind = ErrorKind.other;
          message =
              p.sprintf "unknown audit-sink %q (want one of: none, postgres)" (Arg.text kind ∷ []);
        }),
        w,
      )

abbrev rule_for : String → String → List String → PolicyRule
rule_for group resource verbs = record {
  api_groups = group ∷ [];
  resources = resource ∷ [];
  verbs = verbs;
}

-- The rules that the directives of main.go declare for the plugins
unfoldable pub plugin_role : List PolicyRule
plugin_role =
    rule_for "" "secrets" ("get" ∷ [])
    ∷ rule_for "*" "*" ("get" ∷ "list" ∷ "patch" ∷ "update" ∷ [])
    ∷ rule_for "argoproj.io" "applications" ("get" ∷ "patch" ∷ "update" ∷ [])
    ∷ rule_for "networking.k8s.io" "networkpolicies"
        ("get" ∷ "list" ∷ "create" ∷ "update" ∷ "patch" ∷ "delete" ∷ [])
    ∷ rule_for "gateway.networking.k8s.io" "httproutes" ("get" ∷ "list" ∷ "update" ∷ "patch" ∷ [])
    ∷ []
