-- ===== src/Webhook/Policy.antt =====
-- internal/webhook/v1alpha1/reactivepolicy_webhook.go. An error of the field package is its class,
-- its path and its text. The only state that validation changes is the metrics.
pub mod Validity
pub mod Admission
pub mod OneGate
use reactive_policy.Common.{
  ℕ, suc, pos, ltb_ℤ, Duration, seconds, String, List, [], ◌∷◌, ◌++◌, Option, none, some, Bool,
  true, false, not, ◌&&◌, ◌||◌, Assoc, Act,
}
use reactive_policy.Api.{ReactivePolicy, ReactivePolicySpec, Observe, MetricSource}
use reactive_policy.Api.Policy.{Action}
use reactive_policy.Metrics.{Metrics, record_validation_error}
use reactive_policy.Platform.{Platform}
use reactive_policy.Platform
use reactive_policy.Action.Types.{Plugin}
use reactive_policy.Action.Registry.{lookup_plugin}

pub data FieldErrorKind : Type 0 where
  not_supported invalid forbidden not_found : FieldErrorKind

pub data Step : Type 0 where
  child : String → Step
  index : ℕ → Step

pub record FieldError : Type 0 where
  pub kind : FieldErrorKind
  pub path : List Step
  pub detail : String

abbrev pub min_cooldown : Duration
min_cooldown = seconds 30

abbrev pub max_cooldown : Duration
max_cooldown = seconds 86400

abbrev pub min_poll_interval : Duration
min_poll_interval = seconds 10

abbrev pub max_poll_interval : Duration
max_poll_interval = seconds 300

abbrev pub min_duration : Duration
min_duration = seconds 30

abbrev pub max_duration : Duration
max_duration = seconds 86400

abbrev pub min_approval_timeout : Duration
min_approval_timeout = seconds 60

abbrev pub max_approval_timeout : Duration
max_approval_timeout = seconds 86400

abbrev pub outside : Duration → Duration → Duration → Bool
outside low high d = ltb_ℤ d low || ltb_ℤ high d

abbrev pub is_zero : Duration → Bool
is_zero d = not (ltb_ℤ d (pos 0) || ltb_ℤ (pos 0) d)

abbrev pub is_prometheus : MetricSource → Bool
is_prometheus MetricSource.prometheus = true
is_prometheus (MetricSource.other s) = false

-- The error, if the test holds.
abbrev pub when : Bool → FieldError → List FieldError
when true e = e ∷ []
when false e = []

module _ {W F : Type 0} (p : Platform W F) where
  abbrev range_error : List Step → Duration → Duration → FieldError
  range_error path low high = record {
    kind = FieldErrorKind.invalid;
    path = path;
    detail =
        p.sprintf "must be between %s and %s"
          (Platform.Arg.duration low ∷ Platform.Arg.duration high ∷ []);
  }

  -- validateObserve
  unfoldable pub validate_observe : List Step → Observe → List FieldError
  validate_observe path o =
      when (not (is_prometheus o.source)) (record {
        kind = FieldErrorKind.not_supported;
        path = path ++ child "source" ∷ [];
        detail = "prometheus";
      })
      ++ (when (outside min_duration max_duration o.duration)
            (range_error (path ++ child "duration" ∷ []) min_duration max_duration)
          ++ when
              (not (is_zero o.poll_interval)
                && outside min_poll_interval max_poll_interval o.poll_interval)
              (range_error (path ++ child "pollInterval" ∷ []) min_poll_interval max_poll_interval))

  -- validateTimings
  unfoldable pub validate_timings : List Step → ReactivePolicySpec → List FieldError
  validate_timings path s =
      when (not (is_zero s.cooldown) && outside min_cooldown max_cooldown s.cooldown)
        (range_error (path ++ child "cooldown" ∷ []) min_cooldown max_cooldown)
      ++ when
          (not (is_zero s.approval_timeout)
            && outside min_approval_timeout max_approval_timeout s.approval_timeout)
          (range_error (path ++ child "approvalTimeout" ∷ []) min_approval_timeout
            max_approval_timeout)

  abbrev second_gate : List Step → ℕ → FieldError
  second_gate path first = record {
    kind = FieldErrorKind.forbidden;
    path = path ++ child "requiresApproval" ∷ [];
    detail =
        p.sprintf "a pipeline may hold for approval once; action %d already does"
          (Platform.Arg.number (pos first) ∷ []);
  }

  -- The gate check of one action: its errors, and the position of the first gate from then on.
  unfoldable pub check_second_gate : List Step → ℕ → Bool → Option ℕ → List FieldError × Option ℕ
  check_second_gate path i false gated = ([], gated)
  check_second_gate path i true none = ([], some i)
  check_second_gate path i true (some first) = (second_gate path first ∷ [], some first)

  abbrev pub irreversible_error : List Step → String → FieldError
  irreversible_error path name = record {
    kind = FieldErrorKind.forbidden;
    path = path ++ child "plugin" ∷ [];
    detail =
        p.sprintf "plugin %q is irreversible; set spec.allowIrreversible=true to permit it"
          (Platform.Arg.text name ∷ []);
  }

  -- The checks of one action against its plugin.
  unfoldable pub check_plugin :
      Assoc (Plugin W) → Bool → List Step → Action → Act Metrics (List FieldError)
  check_plugin plugins allow_irreversible path act m = elim (lookup_plugin plugins act.plugin) [
    | none ↦ (
      record {
        kind = FieldErrorKind.not_found;
        path = path ++ child "plugin" ∷ [];
        detail = act.plugin;
      }
          ∷ [],
      record_validation_error act.plugin m,
    )
    | some plugin ↦
        let irreversible =
          when (not plugin.is_reversible && not allow_irreversible)
            (irreversible_error path act.plugin) in
        elim (plugin.validate act.params) [
          | none ↦ (irreversible, m)
          | some e ↦ (
            record {
              kind = FieldErrorKind.invalid;
              path = path ++ child "params" ∷ [];
              detail = e.message;
            }
                ∷ irreversible,
            record_validation_error act.plugin m,
          )
        ]
  ]

  -- The loop of validateActions, the first action at position `i`.
  unfoldable pub validate_each :
      Assoc (Plugin W)
      → Bool
      → List Step
      → ℕ
      → Option ℕ
      → List Action
      → Act Metrics (List FieldError)
  validate_each plugins allow path i gated [] m = ([], m)
  validate_each plugins allow path i gated (act ∷ rest) m =
      let here = path ++ index i ∷ [] in
      let gate = check_second_gate here i act.requires_approval gated in
      let found = check_plugin plugins allow here act m in
      let others = validate_each plugins allow path (suc i) gate.1 rest found.1 in
      (gate.0 ++ (found.0 ++ others.0), others.1)

  -- validateActions
  unfoldable pub validate_actions :
      Assoc (Plugin W) → List Step → ReactivePolicySpec → Act Metrics (List FieldError)
  validate_actions plugins path s m =
      validate_each plugins s.allow_irreversible path 0 none s.actions m

  -- validate: the errors, none of which means that the policy is admitted
  unfoldable pub validate : Assoc (Plugin W) → ReactivePolicy → Act Metrics (List FieldError)
  validate plugins policy m =
      let spec = child "spec" ∷ [] in
      let found = validate_actions plugins (spec ++ child "actions" ∷ []) policy.spec m in
      (
        validate_observe (spec ++ child "observe" ∷ []) policy.spec.observe
            ++ (validate_timings spec policy.spec ++ found.0),
        found.1,
      )
