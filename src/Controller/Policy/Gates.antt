-- ===== src/Controller/Policy/Gates.antt =====
-- Reconcile of reactivepolicy_controller.go, one function for each of its gates: an open approval
-- gate, the cooldown and the rate limit, before the metric is evaluated.
use reactive_policy.Common.{
  ltb_ℤ, ◌-ℤ◌, to_int64, Time, Duration, time_sub, String, [], ◌∷◌, Option, none, some, Bool, true,
  false, Fallible, ok, err, is_not_found, Act, ◌>>=◌, ◌>>◌, pure, if◌then◌else◌, str_eq,
}
use reactive_policy.Api.{ReactivePolicy, ApprovalPhase, ConditionStatus, PolicyState}
use reactive_policy.Metrics.{record_rate_limited, track_policy, untrack_policy}
use reactive_policy.Platform.{Platform, wrap}
use reactive_policy.Platform
use reactive_policy.Prometheus.Window.{forget}
use reactive_policy.Controller.Limiter.{object_key, allowed, forget_policy}
use reactive_policy.Controller.System.{
  System, Answer, Wiring, no_requeue, ask, tally, in_window, in_limiter, limited,
}
use reactive_policy.Controller.Policy.Status.{
  set_condition, requeue, with_state, cooldown_or_default, max_triggers_or_default,
  poll_interval_or_default,
}
use reactive_policy.Controller.Policy.Evaluate.{ready, evaluate}

abbrev pub is_pending : ApprovalPhase → Bool
is_pending ApprovalPhase.pending = true
is_pending _ = false

module _ {W F : Type 0} (p : Platform W F) where
  -- gateStillOpen
  unfoldable pub gate_still_open : ReactivePolicy → Act (System W) (Fallible Bool)
  gate_still_open policy = do
    got ← ask (p.get_audit policy.metadata.namespace policy.status.pending_gate_ref)
    pure (elim got [
      | ok audit ↦ ok (is_pending audit.status.approval_phase)
      | err e ↦
          if is_not_found e then ok false else err (wrap p "fetching pending gate record: %w" [] e)
    ])

module _ {W F : Type 0} (p : Platform W F) (wiring : Wiring W F) where
  -- The answers of the rate limiter.
  unfoldable pub rated :
      ReactivePolicy → String → Duration → Time → Fallible Bool → Act (System W) (Fallible Answer)
  rated policy key poll now (err e) = requeue p policy poll
  rated policy key poll now (ok true) = evaluate p wiring policy key poll now
  rated policy key poll now (ok false) = do
    tally (record_rate_limited policy.metadata.namespace)
    requeue p
        (ready p "RateLimited" "policy is valid but rate limited" (
          set_condition p "RateLimited" ConditionStatus.cond_true "RateLimited"
            "policy hit its maxTriggersPerHour cap" (with_state PolicyState.rate_limited policy)))
        poll

  -- Gate 2: the rate limit.
  unfoldable pub check_rate :
      ReactivePolicy → String → Duration → Time → Act (System W) (Fallible Answer)
  check_rate policy key poll now = do
    verdict ← limited (
        allowed p policy.metadata.namespace policy.metadata.name (max_triggers_or_default policy)
          now poll)
    rated policy key poll now verdict

  -- What is left of the cooldown after a trigger at `last`, if any: an int64, which wraps.
  unfoldable pub cooldown_left : ReactivePolicy → Time → Option Time → Option Duration
  cooldown_left policy now none = none
  cooldown_left policy now (some last) =
      let elapsed = time_sub now last in
      if ltb_ℤ elapsed (cooldown_or_default policy)
      then some (to_int64 (cooldown_or_default policy -ℤ elapsed))
      else none

  abbrev pub cooling : ReactivePolicy → ReactivePolicy
  cooling policy =
      ready p "CoolingDown" "policy is cooling down after a recent trigger"
        (with_state PolicyState.cooldown policy)

  -- Gate 1: the cooldown.
  unfoldable pub check_cooldown :
      ReactivePolicy → String → Duration → Time → Act (System W) (Fallible Answer)
  check_cooldown policy key poll now =
      elim (cooldown_left policy now policy.status.last_triggered_at) [
        | some left ↦ requeue p (cooling policy) left
        | none ↦ check_rate policy key poll now
      ]

  abbrev pub gate_closed : ReactivePolicy → ReactivePolicy
  gate_closed policy =
      set_condition p "AwaitingApproval" ConditionStatus.cond_false "GateClosed"
        "no approval gate is open"
        (record policy { status = record policy.status { pending_gate_ref = "" } })

  abbrev pub awaiting : ReactivePolicy → ReactivePolicy
  awaiting policy =
      ready p "AwaitingApproval" "policy is valid and waiting for an approval decision" (
        set_condition p "AwaitingApproval" ConditionStatus.cond_true "AwaitingApproval"
          (p.sprintf "pipeline is holding for a decision on %q"
            (Platform.Arg.text policy.status.pending_gate_ref ∷ []))
          (with_state PolicyState.awaiting_approval policy))

  -- The answers of gateStillOpen.
  unfoldable pub gated :
      ReactivePolicy → String → Duration → Time → Fallible Bool → Act (System W) (Fallible Answer)
  gated policy key poll now (err e) = requeue p policy poll
  gated policy key poll now (ok true) = requeue p (awaiting policy) poll
  gated policy key poll now (ok false) = check_cooldown (gate_closed policy) key poll now

  -- Gate 0: an open approval gate.
  unfoldable pub check_gate :
      ReactivePolicy → String → Duration → Time → Act (System W) (Fallible Answer)
  check_gate policy key poll now = elim (str_eq policy.status.pending_gate_ref "") [
    | true ↦ check_cooldown policy key poll now
    | false ↦ (do held ← gate_still_open p policy; gated policy key poll now held)
  ]

  -- Reconcile
  unfoldable pub reconcile : String → String → Act (System W) (Fallible Answer)
  reconcile namespace name = do
    let key = object_key namespace name
    got ← ask (p.get_policy namespace name)
    elim got [
      | err e ↦
          if is_not_found e
          then (do
            in_window (forget key)
            in_limiter (forget_policy namespace name)
            tally (untrack_policy namespace name)
            pure (ok no_requeue))
          else pure (err (wrap p "fetching policy: %w" [] e))
      | ok policy ↦ (do
        tally (track_policy policy.metadata.namespace policy.metadata.name)
        now ← ask p.now
        check_gate policy key (poll_interval_or_default policy) now)
    ]
