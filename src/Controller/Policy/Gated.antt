-- ===== src/Controller/Policy/Gated.antt =====
-- When a reconcile of a policy triggers its pipeline: every gate is open, and the metric says so.
use reactive_policy.Common.{
  ltb_ℤ, not-ltb_ℤ→le, ◌≤ℤ◌, Time, Duration, time_sub, String, none, some, Bool, true, false,
  Fallible, ok, err, ◌≡◌, refl, ◌≢◌, ◌⊎◌, inl, inr, ap, sym, ◌∙◌, arith, Bool-cases, Option-cases,
  str_eq, eq_iff, Assoc,
}
use reactive_policy.Api.{ReactivePolicy}
use reactive_policy.Metrics.{record_rate_limited, track_policy}
use reactive_policy.Platform.{Platform}
use reactive_policy.Action.Types.{Plugin}
use reactive_policy.Controller.Limiter.{Cache, object_key, allowed}
use reactive_policy.Controller.System.{System, Wiring}
use reactive_policy.Controller.Policy.Status.{
  max_triggers_or_default, poll_interval_or_default, cooldown_or_default,
}
use reactive_policy.Controller.Policy.Gates.{
  check_gate, gated, check_cooldown, check_rate, rated, cooldown_left, gate_closed, gate_still_open,
  cooling, awaiting, reconcile,
}
use reactive_policy.Controller.Policy.Quiet.{fetched, fetched_at, reconcile_found}
use reactive_policy.Controller.Policy.Confined.{with_plugins}
use reactive_policy.Controller.Policy.Fires.{
  triggers, Still, requeue-count, Evaluated, evaluate-count,
}

module _ {W F : Type 0} (p : Platform W F) (wiring : Wiring W F) where
  -- The limiter lets the trigger through, and the metric triggers.
  abbrev Rated : ReactivePolicy → String → Time → Fallible Bool → System W → Type 0
  Rated policy key now verdict s = (verdict ≡ ok true) × Evaluated p wiring policy key now s

  rated-count :
      (others : Assoc (Plugin W)) (policy : ReactivePolicy) (key : String) (poll : Duration)
      (now : Time) (verdict : Fallible Bool) (s : System W)
      → Still p wiring others (λ wi. rated p wi policy key poll now verdict s) s
        ⊎ Rated policy key now verdict s
  unfolding rated triggers record_rate_limited
  rated-count others policy key poll now (err e) s =
      inl (requeue-count p wiring policy poll s, refl)
  rated-count others policy key poll now (ok false) s = inl (requeue-count p wiring _ poll _, refl)
  rated-count others policy key poll now (ok true) s =
      elim (evaluate-count p wiring others policy key poll now s) [
        | inl e ↦ inl e
        | inr h ↦ inr (refl, h)
      ]

  -- What the limiter is asked.
  abbrev pub verdict_of : ReactivePolicy → Duration → Time → System W → Fallible Bool × (Cache × W)
  verdict_of policy poll now s =
      allowed p policy.metadata.namespace policy.metadata.name (max_triggers_or_default policy) now
        poll (s.limiter, s.run.outside)

  abbrev limited_state : ReactivePolicy → Duration → Time → System W → System W
  limited_state policy poll now s =
      let out = verdict_of policy poll now s in
      record s { limiter = out.1.0; run = record s.run { outside = out.1.1 } }

  -- No trigger, or one that is not too soon after the last, and past the limiter.
  pub record Cooled (policy : ReactivePolicy) (key : String) (poll : Duration) (now : Time)
      (s : System W) : Type 0 where
    pub cooled :
        (last : Time)
        → policy.status.last_triggered_at ≡ some last
        → cooldown_or_default policy ≤ℤ time_sub now last
    pub rated :
        Rated policy key now (verdict_of policy poll now s).0 (limited_state policy poll now s)

  cooldown_left-none :
      (policy : ReactivePolicy) (now last : Time)
      → cooldown_left p wiring policy now (some last) ≡ none
      → cooldown_or_default policy ≤ℤ time_sub now last
  unfolding cooldown_left
  cooldown_left-none policy now last h =
      elim (Bool-cases (ltb_ℤ (time_sub now last) (cooldown_or_default policy))) [
        | inl e ↦ ground arith
        | inr e ↦ not-ltb_ℤ→le (time_sub now last) (cooldown_or_default policy) e
      ]

  check_cooldown-count :
      (others : Assoc (Plugin W)) (policy : ReactivePolicy) (key : String) (poll : Duration)
      (now : Time) (s : System W)
      → Still p wiring others (λ wi. check_cooldown p wi policy key poll now s) s
        ⊎ Cooled policy key poll now s
  unfolding check_cooldown check_rate cooldown_left
  check_cooldown-count others policy key poll now s =
      elim (Option-cases (cooldown_left p wiring policy now policy.status.last_triggered_at)) [
        | inr (left, e) ↦
            inl (
              rw (check_cooldown, e)
                (requeue-count p wiring (cooling p wiring policy) left s, refl))
        | inl e ↦
            elim (rated-count others policy key poll now (verdict_of policy poll now s).0
              (limited_state policy poll now s)) [
                | inl same ↦ inl (rw (check_cooldown, e) same)
                | inr h ↦ inr (record {
                  cooled = λ last at.
                      cooldown_left-none policy now last
                        (sym (ap (cooldown_left p wiring policy now) at) ∙ e);
                  rated = h;
                })
              ]
      ]

  -- No approval gate is pending, or it was found closed; and the cooldown and the limiter agree.
  pub data Clear (policy : ReactivePolicy) (key : String) (poll : Duration) (now : Time)
      (s : System W) : Type 0 where
    no_gate :
        policy.status.pending_gate_ref ≡ ""
        → Cooled policy key poll now s
        → Clear policy key poll now s
    closed_gate :
        (gate_still_open p policy s).0 ≡ ok false
        → Cooled (gate_closed p wiring policy) key poll now (gate_still_open p policy s).1
        → Clear policy key poll now s

  gated-count :
      (others : Assoc (Plugin W)) (policy : ReactivePolicy) (key : String) (poll : Duration)
      (now : Time) (held : Fallible Bool) (s : System W)
      → Still p wiring others (λ wi. gated p wi policy key poll now held s) s
        ⊎ ((held ≡ ok false) × Cooled (gate_closed p wiring policy) key poll now s)
  unfolding gated
  gated-count others policy key poll now (err e) s =
      inl (requeue-count p wiring policy poll s, refl)
  gated-count others policy key poll now (ok true) s =
      inl (requeue-count p wiring (awaiting p wiring policy) poll s, refl)
  gated-count others policy key poll now (ok false) s =
      elim (check_cooldown-count others (gate_closed p wiring policy) key poll now s) [
        | inl same ↦ inl same
        | inr h ↦ inr (refl, h)
      ]

  check_gate-count :
      (others : Assoc (Plugin W)) (policy : ReactivePolicy) (key : String) (poll : Duration)
      (now : Time) (s : System W)
      → Still p wiring others (λ wi. check_gate p wi policy key poll now s) s
        ⊎ Clear policy key poll now s
  unfolding check_gate gate_still_open
  check_gate-count others policy key poll now s =
      elim (Bool-cases (str_eq policy.status.pending_gate_ref "")) [
        | inl e ↦ elim (check_cooldown-count others policy key poll now s) [
          | inl same ↦ inl (rw (check_gate, e) same)
          | inr h ↦ inr (no_gate ((eq_iff policy.status.pending_gate_ref "").0 e) h)
        ]
        | inr e ↦
            let out = gate_still_open p policy s in
            elim (gated-count others policy key poll now out.0 out.1) [
              | inl same ↦ inl (rw (check_gate, e) same)
              | inr (closed, h) ↦ inr (closed_gate closed h)
            ]
      ]

  -- A reconcile that finds the policy and triggers has found every gate open: no approval gate is
  -- pending, or its record is decided or gone; the cooldown since the last trigger is over; the
  -- limiter said yes; the metric source answered with a value past the threshold, and it has been
  -- past it for the policy's duration. A trigger shows in the trigger counter, or in that other
  -- plugins make a difference, which they do not if no plugin runs.
  pub reconcile-Clear :
      (namespace name : String) (policy : ReactivePolicy) (s : System W) (others : Assoc (Plugin W))
      → (p.get_policy namespace name s.run.outside).0 ≡ ok policy
      → (triggers (reconcile p wiring namespace name s).1.run.metrics ≢ triggers s.run.metrics)
        ⊎ (reconcile p wiring namespace name s
            ≢ reconcile p (with_plugins p wiring others) namespace name s)
      → Clear policy
          (object_key namespace name)
          (poll_interval_or_default policy)
          (fetched_at p namespace name s).0
          (fetched p namespace name policy s)
  unfolding triggers track_policy
  reconcile-Clear namespace name policy s others got fired =
      let now = (fetched_at p namespace name s).0 in
      let s' = fetched p namespace name policy s in
      let found = reconcile_found p wiring namespace name s policy got in
      let elsewhere =
        reconcile_found p (with_plugins p wiring others) namespace name s policy got in
      elim (check_gate-count others policy (object_key namespace name)
        (poll_interval_or_default policy) now s') [
          | inl (same, alike) ↦ elim fired [
            | inl more ↦ absurd (more (ap (λ out. triggers out.1.run.metrics) found ∙ same))
            | inr differs ↦ absurd (differs (found ∙ alike ∙ sym elsewhere))
          ]
          | inr h ↦ h
        ]
