-- ===== src/Examples/Trigger.antt =====
-- A reconcile that triggers: the value has been past the threshold for longer than the duration.
use reactive_policy.Common.{inl, seconds, [], ◌∷◌, none, false, ◌≡◌, refl, ◌≢◌}
use reactive_policy.Api.{ReactivePolicy, ApprovalPhase, FailurePolicy}
use reactive_policy.Controller.System.{System}
use reactive_policy.Controller.Policy.Gates.{
  check_gate, check_cooldown, cooldown_left, check_rate, rated,
}
use reactive_policy.Controller.Limiter.{allowed, under_cap, count_triggers, fresh_count}
use reactive_policy.Common.{lookup, time_sub, ◌-ℤ◌}
use reactive_policy.Controller.Policy.Status.{max_triggers_or_default, requeue, set_condition}
use reactive_policy.Controller.Policy.Evaluate.{evaluate, answered, judge, decide}
use reactive_policy.Prometheus.{parse_threshold, compare}
use reactive_policy.Action.Executor.{
  after_one, gate_index, normalize, on_failed, run_loop, run_one, run_range,
}
use reactive_policy.Action.Registry.{lookup_plugin}
use reactive_policy.Controller.AuditWriter.{write_audit}
use reactive_policy.Controller.Policy.Trigger.{
  capped, finish_ungated, fire, list_kinds, or_namespace, resolve_targets, run_targets, trigger,
}
use reactive_policy.Metrics.{
  observe_action_duration, record_action, record_evaluation, record_trigger, track_policy,
}
use reactive_policy.Prometheus.Window.{observe}
use reactive_policy.Controller.Policy.Gates.{reconcile}
use reactive_policy.Controller.Policy.Quiet.{fetched, fetched_at}
use reactive_policy.Controller.Policy.Fires.{triggers}
use reactive_policy.Controller.Policy.Gated.{Clear, reconcile-Clear}
use reactive_policy.Controller.Policy.Status.{poll_interval_or_default}
use reactive_policy.Controller.Limiter.{object_key}
use reactive_policy.Examples.World.{
  World, cluster, action, policy_with, audit_with, world, system, wiring,
}

abbrev policy : ReactivePolicy
policy = policy_with (action "shift" FailurePolicy.stop false ∷ []) "" none

abbrev state : System World
state = record (system (world policy (audit_with ApprovalPhase.unset none))) {
  window = ("shop/slow-web", seconds 10) ∷ [];
}

triggers-reconcile : triggers (reconcile cluster wiring "shop" "slow-web" state).1.run.metrics ≡ 1
unfolding triggers reconcile poll_interval_or_default check_gate check_cooldown cooldown_left
    check_rate rated allowed under_cap count_triggers fresh_count lookup max_triggers_or_default
    evaluate answered judge parse_threshold decide compare after_one gate_index normalize on_failed
    run_loop run_one run_range lookup_plugin time_sub ◌-ℤ◌ write_audit requeue set_condition capped
    finish_ungated fire list_kinds or_namespace resolve_targets run_targets trigger
    observe_action_duration record_action record_evaluation record_trigger track_policy observe
triggers-reconcile = refl

triggers_state : triggers state.run.metrics ≡ 0
unfolding triggers
triggers_state = refl

fires :
    triggers (reconcile cluster wiring "shop" "slow-web" state).1.run.metrics
    ≢ triggers state.run.metrics
fires = λ e. cc (triggers-reconcile, e, triggers_state)

reconcile-Clear_example :
    Clear cluster wiring policy
      (object_key "shop" "slow-web")
      (poll_interval_or_default policy)
      (fetched_at cluster "shop" "slow-web" state).0
      (fetched cluster "shop" "slow-web" policy state)
reconcile-Clear_example =
    reconcile-Clear cluster wiring "shop" "slow-web" policy state [] refl (inl fires)
