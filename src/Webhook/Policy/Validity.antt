-- ===== src/Webhook/Policy/Validity.antt =====
-- Which policies the validating webhook lets in: an independent description, without the errors.
use reactive_policy.Common.{
  ◌≤◌, ltb_ℤ, not-ltb_ℤ→le, le-not-ltb_ℤ, eq_of_parts, pos, ◌≤ℤ◌, Duration, List, [], ◌∷◌, ◌++◌,
  none, some, Bool, true, false, not, ◌&&◌, ◌||◌, Assoc, All, count_if, neither, Bool-cases, ◌≡◌,
  refl, ◌⊎◌, inl, inr, arith,
}
use reactive_policy.Api.{ReactivePolicy, ReactivePolicySpec, Observe, MetricSource}
use reactive_policy.Api.Policy.{Action}
use reactive_policy.Platform.{Platform}
use reactive_policy.Action.Types.{Plugin}
use reactive_policy.Action.Registry.{lookup_plugin}
use reactive_policy.Webhook.Policy.{
  FieldError, Step, when, outside, is_zero, is_prometheus, min_cooldown, max_cooldown,
  min_poll_interval, max_poll_interval, min_duration, max_duration, min_approval_timeout,
  max_approval_timeout, validate_observe, validate_timings,
}

abbrev pub InRange : Duration → Duration → Duration → Type 0
InRange low high d = (low ≤ℤ d) × (d ≤ℤ high)

-- Zero stands for the default.
abbrev pub ZeroOrInRange : Duration → Duration → Duration → Type 0
ZeroOrInRange low high d = (d ≡ pos 0) ⊎ InRange low high d

-- The plugin is there, takes the parameters, and can be reversed unless the policy waives that.
pub record Usable {W : Type 0} (plugins : Assoc (Plugin W)) (allow : Bool) (act : Action)
    : Type 0 where
  pub plugin : Plugin W
  pub there : lookup_plugin plugins act.plugin ≡ some plugin
  pub takes : plugin.validate act.params ≡ none
  pub reversible : plugin.is_reversible || allow ≡ true

pub record IsValid {W : Type 0} (plugins : Assoc (Plugin W)) (policy : ReactivePolicy)
    : Type 0 where
  pub source : policy.spec.observe.source ≡ MetricSource.prometheus
  pub duration : InRange min_duration max_duration policy.spec.observe.duration
  pub poll_interval :
      ZeroOrInRange min_poll_interval max_poll_interval policy.spec.observe.poll_interval
  pub cooldown : ZeroOrInRange min_cooldown max_cooldown policy.spec.cooldown
  pub approval_timeout :
      ZeroOrInRange min_approval_timeout max_approval_timeout policy.spec.approval_timeout
  pub one_gate : count_if (λ (act : Action). act.requires_approval) policy.spec.actions ≤ 1
  pub usable : All (Usable plugins policy.spec.allow_irreversible) policy.spec.actions

pub when-nil : (b : Bool) (e : FieldError) → when b e ≡ [] → b ≡ false
when-nil true e h = ground arith
when-nil false e h = refl

pub append-nil-parts : (xs ys : List FieldError) → xs ++ ys ≡ [] → (xs ≡ []) × (ys ≡ [])
append-nil-parts [] ys h = (refl, h)
append-nil-parts (x ∷ xs) ys h = ground arith

pub both_nil : (xs ys : List FieldError) → xs ≡ [] → ys ≡ [] → xs ++ ys ≡ []
both_nil xs ys e f = rw e f

outside→InRange : (low high d : Duration) → outside low high d ≡ false → InRange low high d
outside→InRange low high d h =
    let parts = neither (ltb_ℤ d low) (ltb_ℤ high d) h in
    (not-ltb_ℤ→le d low parts.0, not-ltb_ℤ→le high d parts.1)

InRange→outside : (low high d : Duration) → InRange low high d → outside low high d ≡ false
InRange→outside low high d (l, h) = rw (le-not-ltb_ℤ low d l) (le-not-ltb_ℤ d high h)

not-true : (b : Bool) → not b ≡ true → b ≡ false
not-true false h = refl
not-true true h = ground arith

is_zero→≡ : (d : Duration) → is_zero d ≡ true → d ≡ pos 0
is_zero→≡ d h =
    let parts = neither (ltb_ℤ d (pos 0)) (ltb_ℤ (pos 0) d) (not-true _ h) in
    eq_of_parts d (pos 0)
      (omega (arith, not-ltb_ℤ→le d (pos 0) parts.0, not-ltb_ℤ→le (pos 0) d parts.1))

unless : (a b : Bool) → not a && b ≡ false → a ≡ false → b ≡ false
unless a b h e = ground arith

and_false : (a b : Bool) → b ≡ false → a && b ≡ false
and_false a b e = ground arith

zero-outside :
    (low high d : Duration)
    → not (is_zero d) && outside low high d ≡ false
    → ZeroOrInRange low high d
zero-outside low high d h = elim (Bool-cases (is_zero d)) [
  | inl e ↦ inl (is_zero→≡ d e)
  | inr e ↦ inr (outside→InRange low high d (unless (is_zero d) (outside low high d) h e))
]

in_range-nil :
    (low high d : Duration)
    → ZeroOrInRange low high d
    → not (is_zero d) && outside low high d ≡ false
in_range-nil low high d (inl e) = rw e refl
in_range-nil low high d (inr r) = and_false (not (is_zero d)) _ (InRange→outside low high d r)

module _ {W F : Type 0} (p : Platform W F) where
  pub observe-Valid :
      (path : List Step) (o : Observe)
      → validate_observe p path o ≡ []
      → (o.source ≡ MetricSource.prometheus)
        × (InRange min_duration max_duration o.duration
            × ZeroOrInRange min_poll_interval max_poll_interval o.poll_interval)
  unfolding validate_observe
  observe-Valid path o h =
      let first = append-nil-parts _ _ h in
      let rest = append-nil-parts _ _ first.1 in
      (
        from_prometheus o.source (when-nil _ _ first.0),
        (
          outside→InRange min_duration max_duration o.duration (when-nil _ _ rest.0),
          zero-outside min_poll_interval max_poll_interval o.poll_interval (when-nil _ _ rest.1),
        ),
      )
    where
      from_prometheus :
          (source : MetricSource)
          → not (is_prometheus source) ≡ false
          → source ≡ MetricSource.prometheus
      from_prometheus MetricSource.prometheus e = refl
      from_prometheus (MetricSource.other s) e = ground arith

  pub Valid-observe :
      (path : List Step) (o : Observe)
      → o.source ≡ MetricSource.prometheus
      → InRange min_duration max_duration o.duration
      → ZeroOrInRange min_poll_interval max_poll_interval o.poll_interval
      → validate_observe p path o ≡ []
  unfolding validate_observe
  Valid-observe path o e r z = rw e (
      rw (InRange→outside min_duration max_duration o.duration r)
        (rw (in_range-nil min_poll_interval max_poll_interval o.poll_interval z) refl))

  pub timings-Valid :
      (path : List Step) (s : ReactivePolicySpec)
      → validate_timings p path s ≡ []
      → ZeroOrInRange min_cooldown max_cooldown s.cooldown
        × ZeroOrInRange min_approval_timeout max_approval_timeout s.approval_timeout
  unfolding validate_timings
  timings-Valid path s h =
      let parts = append-nil-parts _ _ h in
      (
        zero-outside min_cooldown max_cooldown s.cooldown (when-nil _ _ parts.0),
        zero-outside min_approval_timeout max_approval_timeout s.approval_timeout
            (when-nil _ _ parts.1),
      )

  pub Valid-timings :
      (path : List Step) (s : ReactivePolicySpec)
      → ZeroOrInRange min_cooldown max_cooldown s.cooldown
      → ZeroOrInRange min_approval_timeout max_approval_timeout s.approval_timeout
      → validate_timings p path s ≡ []
  unfolding validate_timings
  Valid-timings path s c t =
      rw (in_range-nil min_cooldown max_cooldown s.cooldown c)
        (rw (in_range-nil min_approval_timeout max_approval_timeout s.approval_timeout t) refl)
