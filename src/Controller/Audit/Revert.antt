-- ===== src/Controller/Audit/Revert.antt =====
-- reverseOne, buildRevertEvents and revert of actionaudit_controller.go.
use reactive_policy.Common.{
  pos, Time, time_sub, String, List, [], ◌∷◌, Option, none, some, true, false, Fallible, ok, err,
  is_conflict, Act, ◌>>=◌, ◌>>◌, pure, if◌then◌else◌, length, map, reverse,
}
use reactive_policy.Api.{ActionAudit, ActionRecord, RevertResult, ResultStatus, ConditionStatus}
use reactive_policy.Platform.{Platform, wrap}
use reactive_policy.Platform
use reactive_policy.Action.Registry.{lookup_plugin}
use reactive_policy.Action.Executor.{is_succeeded}
use reactive_policy.Sink.{RevertEvent, Sink}
use reactive_policy.Controller.AuditWriter.{record_to_result}
use reactive_policy.Controller.System.{System, Answer, Wiring, ask, after}

-- The answer of a reconcile whose write met a conflict: another round at once.
abbrev pub again : Answer
again = record { requeue = true; requeue_after = pos 0 }

-- buildRevertEvents; `now` is the reading of the clock that it starts from
unfoldable pub build_revert_events : ActionAudit → Time → List RevertResult → List RevertEvent
build_revert_events audit now results =
    let reverted_at : Time = elim audit.status.reverted_at [ none ↦ now | some t ↦ t ] in
    map
      (λ (rr : RevertResult). record {
        audit_uid = audit.metadata.uid;
        audit_name = audit.metadata.name;
        audit_namespace = audit.metadata.namespace;
        policy_ref = audit.spec.policy_ref;
        action_index = rr.index;
        plugin = rr.plugin;
        reverted_at = reverted_at;
        status = rr.status;
        message = rr.message;
      })
      results

abbrev outcome : ActionRecord → ResultStatus → String → RevertResult
outcome rec status message = record {
  index = rec.index;
  plugin = rec.plugin;
  status = status;
  message = message;
}

module _ {W F : Type 0} (p : Platform W F) (wiring : Wiring W F) where
  -- reverseOne
  unfoldable pub reverse_one : ActionRecord → Act (System W) RevertResult
  reverse_one rec = elim (is_succeeded rec.status) [
    | false ↦ pure (outcome rec ResultStatus.skipped "action did not succeed; nothing to reverse")
    | true ↦ elim rec.reversible [
      | false ↦ pure (outcome rec ResultStatus.skipped "plugin is not reversible")
      | true ↦ elim (lookup_plugin wiring.plugins rec.plugin) [
        | none ↦ pure (outcome rec ResultStatus.failed "plugin not registered")
        | some plugin ↦ (do
          e ← ask (plugin.reverse (record_to_result p wiring.plugins rec))
          pure (elim e [
            | some failure ↦ outcome rec ResultStatus.failed failure.message
            | none ↦ outcome rec ResultStatus.succeeded "reversed"
          ]))
      ]
    ]
  ]

  -- The loop of revert, over the records in the order in which it meets them.
  unfoldable pub reverse_each : List ActionRecord → Act (System W) (List RevertResult)
  reverse_each [] = pure []
  reverse_each (rec ∷ rest) = do
    result ← reverse_one rec
    results ← reverse_each rest
    pure (result ∷ results)

  abbrev pub reverted : ActionAudit → Time → List RevertResult → ActionAudit
  reverted audit now results = record audit {
    status = record audit.status {
      reverted = true;
      reverted_at = some now;
      revert_results = results;
      conditions =
          p.set_condition
            (record {
              condition_type = "Reverted";
              status = ConditionStatus.cond_true;
              reason = "RevertProcessed";
              message =
                  p.sprintf "processed revert of %d actions"
                    (Platform.Arg.number (pos (length results)) ∷ []);
              observed_generation = pos 0;
            })
            audit.status.conditions;
    };
  }

  abbrev tell_revert : Option (Sink W) → ActionAudit → List RevertResult → Act (System W) (Unit {0})
  tell_revert none audit results = pure tt
  tell_revert (some sink) audit results = do
    now ← ask p.now
    ask (sink.record_revert (build_revert_events audit now results))
    pure tt

  -- revert
  unfoldable pub revert : ActionAudit → Time → Act (System W) (Fallible Answer)
  revert audit expiry = do
    results ← reverse_each (reverse audit.spec.actions)
    now ← ask p.now
    updated ← ask (p.update_audit_status (reverted audit now results))
    elim updated [
      | err e ↦
          if is_conflict e
          then pure (ok again)
          else pure (err (wrap p "updating audit status: %w" [] e))
      | ok audit' ↦ (do
        tell_revert wiring.sink audit' results
        t ← ask p.now
        pure (ok (after (time_sub expiry t))))
    ]
