-- ===== src/Examples/Executor.antt =====
-- Pipelines, the sliding window and the rate limiter on small inputs.
use reactive_policy.Common.{
  ◌-◌, pos, ◌+ℤ◌, ◌≤ℤ◌, Time, time_sub, seconds, List, [], ◌∷◌, none, true, false, take, drop, map,
  reverse, ◌≡◌, refl, arith, lookup, erase, insert, ◌-ℤ◌,
}
use reactive_policy.Api.{ActionAudit, ApprovalPhase, FailurePolicy, ReactivePolicy}
use reactive_policy.Action.Types.{Result}
use reactive_policy.Action.Executor.{Run, rollback, run_range, template_data}
use reactive_policy.Action.Executor.Results.{Outcome, run_range-Outcome}
use reactive_policy.Action.Executor.Rollback.{rollback_lem, undo_all, succeeded}
use reactive_policy.Action.Executor.Held.{run_range_held}
use reactive_policy.Prometheus.Window.{observe}
use reactive_policy.Prometheus.Window.History.{Call, after_calls, CrossedSince, observe-sustained}
use reactive_policy.Controller.Limiter.Cap.{Trail}
use reactive_policy.Examples.World.{
  World, cluster, plugins, pipeline, policy_with, no_metrics, audit_with, world, web, done, action,
}

abbrev policy : ReactivePolicy
policy = policy_with pipeline "" none

abbrev start : World
start = world policy (audit_with ApprovalPhase.unset none)

abbrev state : Run World
state = record { outside = start; metrics = no_metrics }

rollback_lem_example :
    let results = done "shift" ∷ done "page" ∷ [] in
    let out = rollback cluster plugins results state in
    (out.1.outside ≡ undo_all plugins (reverse (succeeded results)) start)
    × (out.1.metrics ≡ no_metrics)
    × (map (λ (r : Result). r.status) out.0 ≡ map (λ (r : Result). r.status) results)
rollback_lem_example = rollback_lem cluster plugins (done "shift" ∷ done "page" ∷ []) state

-- The run's clock was read.
abbrev begun : Run World
begun = record state { outside = (cluster.now start).1 }

abbrev timestamp : Time
timestamp = (cluster.now start).0

run_range-Outcome_example :
    Outcome cluster plugins policy web "7" timestamp
      (template_data cluster plugins policy web "7" timestamp)
      (take (2 - 0) (drop 0 pipeline))
      begun
      []
      (run_range cluster plugins policy web "7" (pos 0) (pos 2) state)
run_range-Outcome_example =
    run_range-Outcome cluster plugins policy web "7" 0 2 state (omega arith) (omega arith)

-- The same pipeline with another action behind the gate.
abbrev other_policy : ReactivePolicy
other_policy =
    policy_with
      (action "shift" FailurePolicy.continue false
        ∷ action "shift" FailurePolicy.rollback false
        ∷ action "shift" FailurePolicy.rollback true
        ∷ [])
      "" none

run_range_held_example :
    run_range cluster plugins policy web "7" (pos 0) (pos 2) state
    ≡ run_range cluster plugins other_policy web "7" (pos 0) (pos 2) state
run_range_held_example =
    run_range_held cluster plugins policy other_policy web "7" 2 state (omega arith) (omega arith)
      refl refl

-- Newest first: two crossed samples after one within the threshold.
abbrev calls : List Call
calls =
    Call.sample "a" true (seconds 40)
    ∷ Call.sample "a" true (seconds 10)
    ∷ Call.sample "a" false (seconds 0)
    ∷ []

observe-sustained_example : (t : Time) × CrossedSince "a" t calls × (t +ℤ seconds 60 ≤ℤ seconds 70)
unfolding observe after_calls lookup erase insert time_sub ◌-ℤ◌
observe-sustained_example =
    observe-sustained "a" calls (seconds 70) (seconds 60) (omega arith) (omega arith)

abbrev written_at : Time → ActionAudit
written_at t =
    let audit = audit_with ApprovalPhase.unset none in
    record audit { spec = record audit.spec { triggered_at = t } }

abbrev trail : Trail cluster "shop" "slow-web"
trail = record { records = λ w. w.trail; listed = λ w. refl }

abbrev with_records : List ActionAudit → World
with_records audits = record start { trail = audits }
