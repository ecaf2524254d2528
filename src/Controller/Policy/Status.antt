-- ===== src/Controller/Policy/Status.antt =====
-- The small helpers of reactivepolicy_controller.go: conditions, defaults, and the status update
-- that ends a reconcile.
use reactive_policy.Common.{
  ℤ, pos, ltb_ℤ, Duration, seconds, String, [], none, some, true, Fallible, ok, err, is_conflict,
  Act, ◌>>=◌, pure, if◌then◌else◌,
}
use reactive_policy.Api.{ReactivePolicy, ConditionStatus, PolicyState}
use reactive_policy.Platform.{Platform, wrap}
use reactive_policy.Controller.System.{System, Answer, ask, after}

-- cooldownOrDefault
unfoldable pub cooldown_or_default : ReactivePolicy → Duration
cooldown_or_default policy =
    if ltb_ℤ (pos 0) policy.spec.cooldown then policy.spec.cooldown else seconds 300

-- maxTriggersOrDefault
unfoldable pub max_triggers_or_default : ReactivePolicy → ℤ
max_triggers_or_default policy = elim policy.spec.max_triggers_per_hour [
  | none ↦ pos 5
  | some n ↦ if ltb_ℤ (pos 0) n then n else pos 5
]

-- The poll interval as Reconcile resolves it.
unfoldable pub poll_interval_or_default : ReactivePolicy → Duration
poll_interval_or_default policy =
    if ltb_ℤ (pos 0) policy.spec.observe.poll_interval
    then policy.spec.observe.poll_interval
    else seconds 30

abbrev pub with_state : PolicyState → ReactivePolicy → ReactivePolicy
with_state state policy = record policy { status = record policy.status { state = state } }

module _ {W F : Type 0} (p : Platform W F) where
  -- setCondition
  unfoldable pub set_condition :
      String → ConditionStatus → String → String → ReactivePolicy → ReactivePolicy
  set_condition condition_type status reason message policy = record policy {
    status = record policy.status {
      conditions =
          p.set_condition
            (record {
              condition_type = condition_type;
              status = status;
              reason = reason;
              message = message;
              observed_generation = policy.metadata.generation;
            })
            policy.status.conditions;
    };
  }

  -- requeue: the status is written; a conflict asks for another round at once
  unfoldable pub requeue : ReactivePolicy → Duration → Act (System W) (Fallible Answer)
  requeue policy delay = do
    updated ← ask (p.update_policy_status policy)
    elim updated [
      | ok stored ↦ pure (ok (after delay))
      | err e ↦
          if is_conflict e
          then pure (ok (record { requeue = true; requeue_after = pos 0 }))
          else pure (err (wrap p "updating status: %w" [] e))
    ]
