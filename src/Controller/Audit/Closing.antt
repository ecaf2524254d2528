-- ===== src/Controller/Audit/Closing.antt =====
-- startCooldown and closeGate of actionaudit_controller.go, and the helpers that they share with
-- releaseGate.
use reactive_policy.Common.{
  Error, ℕ, suc, pos, to_int32, Time, Duration, time_sub, String, List, [], ◌∷◌, ◌++◌, Option, none,
  some, false, Fallible, ok, err, is_conflict, Act, ◌>>=◌, ◌>>◌, pure, if◌then◌else◌, length,
  str_eq,
}
use reactive_policy.Api.{
  ReactivePolicy, ActionAudit, ActionRecord, ApprovalGate, ApprovalPhase, ResultStatus,
  ConditionStatus, PolicyState, AuditTarget,
}
use reactive_policy.Metrics.{record_gate_resolved}
use reactive_policy.Platform.{Platform, wrap}
use reactive_policy.Controller.System.{System, Answer, ask, tally, after}
use reactive_policy.Controller.Audit.Revert.{again}

-- decidedByOrUnknown, for a gate that is there
unfoldable pub decided_by_or_unknown : ApprovalGate → String
decided_by_or_unknown gate = if str_eq gate.decided_by "" then "unknown" else gate.decided_by

-- gateWaited, kept in nanoseconds
unfoldable pub gate_waited : ActionAudit → Time → Duration
gate_waited audit until = time_sub until audit.spec.triggered_at

abbrev no_target : AuditTarget
no_target = record { api_version = ""; kind = ""; name = ""; namespace = "" }

-- The loop of closeGate over the plugins that the gate holds, the first at index `i`.
unfoldable pub skipped_records : ℕ → String → List String → List ActionRecord
skipped_records i message [] = []
skipped_records i message (plugin ∷ rest) =
    record {
      index = to_int32 (pos i);
      action_id = "";
      plugin = plugin;
      target = no_target;
      status = ResultStatus.skipped;
      message = message;
      reversible = false;
      details = none;
    }
    ∷ skipped_records (suc i) message rest

abbrev pub append_actions : List ActionRecord → ActionAudit → ActionAudit
append_actions records audit = record audit {
  spec = record audit.spec { actions = audit.spec.actions ++ records };
}

abbrev pub outcome_text : ApprovalPhase → String
outcome_text ApprovalPhase.expired = "expired"
outcome_text _ = "denied"

module _ {W F : Type 0} (p : Platform W F) where
  -- startCooldown; a failed write is logged and dropped
  unfoldable pub start_cooldown : ReactivePolicy → Time → Act (System W) (Unit {0})
  start_cooldown policy at_time = do
    ask (
        p.update_policy_status (record policy {
          status = record policy.status {
            last_triggered_at = some at_time;
            pending_gate_ref = "";
            state = PolicyState.cooldown;
          };
        }))
    pure tt

  abbrev pub decided :
      ApprovalPhase → Option Time → ConditionStatus → String → String → ActionAudit → ActionAudit
  decided phase resumed status reason message audit = record audit {
    status = record audit.status {
      approval_phase = phase;
      resumed_at = resumed;
      conditions =
          p.set_condition
            (record {
              condition_type = "Approved";
              status = status;
              reason = reason;
              message = message;
              observed_generation = pos 0;
            })
            audit.status.conditions;
    };
  }

  -- The write that closeGate makes first, if the gate holds any plugin.
  unfoldable pub record_skipped : String → ActionAudit → Act (System W) (Fallible ActionAudit)
  record_skipped message audit = elim audit.spec.gate [
    | none ↦ pure (ok audit)
    | some gate ↦ elim gate.pending_plugins [
      | [] ↦ pure (ok audit)
      | plugin ∷ rest ↦ ask (
          p.update_audit (
            append_actions (skipped_records (length audit.spec.actions) message (plugin ∷ rest))
              audit))
    ]
  ]

  -- The end of closeGate: the policy, if it is still there, starts its cooldown.
  abbrev pub cool_policy : ActionAudit → Time → Act (System W) (Unit {0})
  cool_policy audit now = do
    got ← ask (p.get_policy audit.metadata.namespace audit.spec.policy_ref)
    elim got [ err e ↦ pure tt | ok policy ↦ start_cooldown policy now ]

  -- An error of one of the two writes: a conflict asks for another round.
  unfoldable pub refused : String → Error → Act (System W) (Fallible Answer)
  refused format e = pure (if is_conflict e then ok again else err (wrap p format [] e))

  -- closeGate after the write of the decision.
  unfoldable pub after_decided :
      ApprovalPhase → Time → Time → Fallible ActionAudit → Act (System W) (Fallible Answer)
  after_decided phase now expiry (err e) = refused "updating gate status: %w" e
  after_decided phase now expiry (ok closed) = do
    tally (
        record_gate_resolved closed.metadata.namespace (outcome_text phase)
          (gate_waited closed now))
    cool_policy closed now
    t ← ask p.now
    pure (ok (after (time_sub expiry t)))

  -- closeGate after the write of the skipped actions.
  unfoldable pub after_skipped :
      ApprovalPhase
      → String
      → String
      → Time
      → Fallible ActionAudit
      → Act (System W) (Fallible Answer)
  after_skipped phase reason message expiry (err e) = refused "recording skipped actions: %w" e
  after_skipped phase reason message expiry (ok audit) = do
    now ← ask p.now
    updated ← ask (
        p.update_audit_status
          (decided phase audit.status.resumed_at ConditionStatus.cond_false reason message audit))
    after_decided phase now expiry updated

  -- closeGate
  unfoldable pub close_gate :
      ActionAudit → ApprovalPhase → String → String → Time → Act (System W) (Fallible Answer)
  close_gate audit phase reason message expiry = do
    recorded ← record_skipped message audit
    after_skipped phase reason message expiry recorded
