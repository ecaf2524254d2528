-- ===== src/Controller/Policy/Trigger.antt =====
-- resolveTargets and trigger of reactivepolicy_controller.go.
use reactive_policy.Common.{
  ℕ, ℤ, pos, ltb_ℤ, to_int32, ◌+ℤ◌, ◌-ℤ◌, Time, Duration, String, List, [], ◌∷◌, ◌++◌, Option, none,
  some, Error, ErrorKind, Fallible, ok, err, Act, ◌>>=◌, ◌>>◌, pure, if◌then◌else◌, length, map,
}
use Prim.Native.String.{◌++◌ as str_append}
use reactive_policy.Api.{
  ActionAudit, ReactivePolicy, ConditionStatus, PolicyState, TargetKind, LabelSelector,
}
use reactive_policy.Metrics.{record_trigger, record_gate_opened}
use reactive_policy.Platform.{Platform, wrap}
use reactive_policy.Platform
use reactive_policy.Action.Types.{Target, Result}
use reactive_policy.Action.Executor.{gate_index, run_range}
use reactive_policy.Prometheus.Window.{forget}
use reactive_policy.Controller.Limiter.{observe_trigger}
use reactive_policy.Controller.AuditWriter.{write_audit, write_gated_audit}
use reactive_policy.Controller.System.{
  System, Answer, Wiring, running, ask, tally, in_window, in_limiter,
}
use reactive_policy.Controller.Policy.Status.{set_condition, requeue, with_state}

module _ {W F : Type 0} (p : Platform W F) where
  abbrev found_target : TargetKind → String × String → Target
  found_target kind item = record {
    api_version = kind.api_version;
    kind = kind.kind;
    name = item.1;
    namespace = item.0;
  }

  -- The loop of resolveTargets over the kinds.
  unfoldable pub list_kinds :
      String
      → LabelSelector
      → List TargetKind
      → List Target
      → Act (System W) (Fallible (List Target))
  list_kinds namespace selector [] targets = pure (ok targets)
  list_kinds namespace selector (kind ∷ rest) targets = do
    listed ← ask (p.list_objects kind.api_version (str_append kind.kind "List") namespace selector)
    elim listed [
      | err e ↦ pure (
          err (
            wrap p "listing %s %s: %w"
              (Platform.Arg.text kind.api_version ∷ Platform.Arg.text kind.kind ∷ []) e))
      | ok items ↦ list_kinds namespace selector rest (targets ++ map (found_target kind) items)
    ]

  abbrev pub max_resources_of : ReactivePolicy → ℤ
  max_resources_of policy = elim policy.spec.target.max_resources [ none ↦ pos 10 | some n ↦ n ]

  -- The cap at the end of resolveTargets.
  unfoldable pub capped : ℤ → List Target → Fallible (List Target)
  capped max_resources targets =
      if ltb_ℤ max_resources (pos (length targets))
      then err (record {
        kind = ErrorKind.other;
        message =
            p.sprintf "target selector matched %d resources, exceeding maxResources %d"
              (Platform.Arg.number (pos (length targets)) ∷ Platform.Arg.number max_resources ∷ []);
      })
      else ok targets

  -- resolveTargets
  unfoldable pub resolve_targets : ReactivePolicy → Act (System W) (Fallible (List Target))
  resolve_targets policy = elim (p.selector_error policy.spec.target.selector) [
    | some e ↦ pure (err (wrap p "invalid target selector: %w" [] e))
    | none ↦ (do
      listed ←
          list_kinds policy.metadata.namespace policy.spec.target.selector policy.spec.target.kinds
            []
      pure (elim listed [ err e ↦ err e | ok targets ↦ capped (max_resources_of policy) targets ]))
  ]

  -- A policy that matches nothing runs once, against its namespace.
  unfoldable pub or_namespace : String → List Target → List Target
  or_namespace namespace [] =
      record { api_version = ""; kind = ""; name = ""; namespace = namespace } ∷ []
  or_namespace namespace (t ∷ ts) = t ∷ ts

module _ {W F : Type 0} (p : Platform W F) (wiring : Wiring W F) where
  -- The loop that runs [from, to) of the pipeline against each target in turn. A pipeline that
  -- stops does not stop the others; the last error is kept.
  unfoldable pub run_targets :
      ReactivePolicy
      → String
      → ℤ
      → ℤ
      → List Target
      → List Result
      → Option Error
      → Act (System W) (List Result × Option Error)
  run_targets policy metric_value from to [] results run_err = pure (results, run_err)
  run_targets policy metric_value from to (target ∷ rest) results run_err = do
    out ← running (run_range p wiring.plugins policy target metric_value from to)
    run_targets policy metric_value from to rest (results ++ out.0)
        (elim out.1 [ none ↦ run_err | some e ↦ some e ])

  abbrev pub counted : ReactivePolicy → ReactivePolicy
  counted policy = record policy {
    status = record policy.status {
      trigger_count = to_int32 (policy.status.trigger_count +ℤ pos 1);
    };
  }

  abbrev held_at : String → ReactivePolicy → ReactivePolicy
  held_at audit policy = record policy {
    status = record policy.status {
      pending_gate_ref = audit;
      state = PolicyState.awaiting_approval;
    };
  }

  -- The policy once the record of the gated pipeline is written, or could not be.
  unfoldable pub after_gated :
      ReactivePolicy → Time → ℕ → Fallible ActionAudit → Act (System W) ReactivePolicy
  after_gated policy now gate_idx (err e) = pure (with_state PolicyState.triggering policy)
  after_gated policy now gate_idx (ok audit) = do
    in_limiter (observe_trigger policy.metadata.namespace policy.metadata.name now)
    tally (record_gate_opened policy.metadata.namespace)
    pure (
        set_condition p "AwaitingApproval" ConditionStatus.cond_true "AwaitingApproval"
          (p.sprintf "%d action(s) holding for approval on %q" (
            Platform.Arg.number (pos (length policy.spec.actions) -ℤ pos gate_idx)
            ∷ Platform.Arg.text audit.metadata.name
            ∷ []))
          (held_at audit.metadata.name policy))

  -- The end of trigger for a pipeline that stopped at its gate.
  unfoldable pub finish_gated :
      ReactivePolicy
      → String
      → Time
      → Duration
      → List Target
      → ℕ
      → List Result
      → Act (System W) (Fallible Answer)
  finish_gated policy key now poll targets gate_idx results = do
    written ←
        running (write_gated_audit p wiring.plugins wiring.sink policy now results gate_idx targets)
    policy' ← after_gated policy now gate_idx written
    in_window (forget key)
    requeue p policy' poll

  -- The end of trigger for a pipeline that ran through.
  unfoldable pub finish_ungated :
      ReactivePolicy → String → Time → Duration → List Result → Act (System W) (Fallible Answer)
  finish_ungated policy key now poll results = do
    let policy' = record policy {
      status = record policy.status {
        last_triggered_at = some now;
        state = PolicyState.triggering;
      };
    }
    failed ← running (write_audit p wiring.plugins wiring.sink policy' now results)
    elim failed [
      | some e ↦ pure tt
      | none ↦ in_limiter (observe_trigger policy.metadata.namespace policy.metadata.name now)
    ]
    in_window (forget key)
    requeue p policy' poll

  -- trigger, after the targets are resolved
  unfoldable pub fire :
      ReactivePolicy → String → Time → Duration → List Target → Act (System W) (Fallible Answer)
  fire policy key now poll targets = elim (gate_index policy) [
    | some g ↦ (do
      out ← run_targets policy policy.status.current_metric_value (pos 0) (pos g) targets [] none
      tally (record_trigger policy.metadata.namespace)
      finish_gated (counted policy) key now poll targets g out.0)
    | none ↦ (do
      out ←
          run_targets policy policy.status.current_metric_value (pos 0)
            (pos (length policy.spec.actions)) targets [] none
      tally (record_trigger policy.metadata.namespace)
      finish_ungated (counted policy) key now poll out.0)
  ]

  -- trigger
  unfoldable pub trigger :
      ReactivePolicy → String → Time → Duration → Act (System W) (Fallible Answer)
  trigger policy key now poll = do
    resolved ← resolve_targets p policy
    elim resolved [
      | err e ↦
          requeue p
            (set_condition p "Ready" ConditionStatus.cond_false "TargetResolutionFailed" e.message
              policy)
            poll
      | ok targets ↦ fire policy key now poll (or_namespace p policy.metadata.namespace targets)
    ]
