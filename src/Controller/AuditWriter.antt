-- ===== src/Controller/AuditWriter.antt =====
-- internal/controller/auditwriter.go: results as records, records as results, the events for the
-- sink, and the two ways in which a trigger is written down.
pub mod Records
use reactive_policy.Common.{
  ℕ, suc, ℤ, pos, ltb_ℤ, to_int32, Time, Duration, seconds, ◌+ℤ◌, String, List, [], ◌∷◌, Option,
  none, some, Bool, false, Assoc, Error, Fallible, ok, err, Act, ◌>>=◌, ◌>>◌, pure, if◌then◌else◌,
  drop, str_eq, map,
}
use Prim.Native.String.{◌++◌ as str_append}
use reactive_policy.Api.{
  ReactivePolicy, ActionAudit, ActionRecord, AuditTarget, ApprovalGate, ApprovalDecision,
  ApprovalPhase, ObjectMeta,
}
use reactive_policy.Api.Policy.{Action}
use reactive_policy.Platform.{Platform, wrap}
use reactive_policy.Action.Types.{Target, Details, Result, Plugin}
use reactive_policy.Action.Registry.{lookup_plugin}
use reactive_policy.Action.Executor.{Run, call}
use reactive_policy.Sink.{Event, Sink}

abbrev pub label_policy : String
label_policy = "reactive-policy.io/policy"

abbrev pub audit_target : Target → AuditTarget
audit_target t = record {
  api_version = t.api_version;
  kind = t.kind;
  name = t.name;
  namespace = t.namespace;
}

abbrev pub action_target : AuditTarget → Target
action_target t = record {
  api_version = t.api_version;
  kind = t.kind;
  name = t.name;
  namespace = t.namespace;
}

-- A raw JSON text that is nil or empty counts as absent.
abbrev present : Option String → Option String
present none = none
present (some raw) = if str_eq raw "" then none else some raw

-- approvalTimeoutOrDefault, from reactivepolicy_controller.go
unfoldable pub approval_timeout_or_default : ReactivePolicy → Duration
approval_timeout_or_default policy =
    if ltb_ℤ (pos 0) policy.spec.approval_timeout
    then policy.spec.approval_timeout
    else seconds 1800

-- buildSinkEvents
unfoldable pub sink_event : ActionAudit → ActionRecord → Event
sink_event audit rec = record {
  audit_uid = audit.metadata.uid;
  audit_name = audit.metadata.name;
  audit_namespace = audit.metadata.namespace;
  policy_ref = audit.spec.policy_ref;
  policy_uid = audit.spec.policy_uid;
  triggered_at = audit.spec.triggered_at;
  metric_value = audit.spec.metric_value;
  action_index = rec.index;
  action_id = rec.action_id;
  plugin = rec.plugin;
  target_api_version = rec.target.api_version;
  target_kind = rec.target.kind;
  target_namespace = rec.target.namespace;
  target_name = rec.target.name;
  status = rec.status;
  message = rec.message;
  reversible = rec.reversible;
  details_json = present rec.details;
}

unfoldable pub build_sink_events : ActionAudit → List Event
build_sink_events audit = map (sink_event audit) audit.spec.actions

module _ {W F : Type 0} (p : Platform W F) (plugins : Assoc (Plugin W)) where
  abbrev reversible_in : String → Bool
  reversible_in name = elim (lookup_plugin plugins name) [
    | none ↦ false
    | some plugin ↦ plugin.is_reversible
  ]

  -- len(res.Details) > 0 and the marshaling succeeds
  abbrev pub raw_details : Details → Option String
  raw_details [] = none
  raw_details (kv ∷ rest) = p.marshal (kv ∷ rest)

  -- toRecord
  unfoldable pub to_record : ℤ → Result → ActionRecord
  to_record index res = record {
    index = index;
    action_id = res.action_id;
    plugin = res.plugin_name;
    target = audit_target res.target;
    status = res.status;
    message = res.message;
    reversible = reversible_in res.plugin_name;
    details = raw_details res.details;
  }

  -- The loops that turn results into records, the first at index `i`.
  unfoldable pub to_records : ℕ → List Result → List ActionRecord
  to_records i [] = []
  to_records i (res ∷ rest) = to_record (to_int32 (pos i)) res ∷ to_records (suc i) rest

  abbrev pub details_of : Option String → Details
  details_of none = []
  details_of (some raw) =
      if str_eq raw "" then [] else elim (p.unmarshal raw) [ none ↦ [] | some details ↦ details ]

  -- recordToResult
  unfoldable pub record_to_result : ActionRecord → Result
  record_to_result rec = record {
    action_id = rec.action_id;
    plugin_name = rec.plugin;
    target = action_target rec.target;
    timestamp = none;
    status = rec.status;
    message = rec.message;
    details = details_of rec.details;
  }

  abbrev audit_meta : ReactivePolicy → ObjectMeta
  audit_meta policy = record {
    name = "";
    generate_name = str_append policy.metadata.name "-";
    namespace = policy.metadata.namespace;
    uid = "";
    labels = (label_policy, policy.metadata.name) ∷ [];
    generation = pos 0;
    creation_timestamp = pos 0;
  }

  -- The record that is sent to the API server. Its zero values are those of Go: no name, no time.
  abbrev pub new_audit : ReactivePolicy → Time → List Result → Option ApprovalGate → ActionAudit
  new_audit policy triggered_at results gate = record {
    metadata = audit_meta policy;
    spec = record {
      policy_ref = policy.metadata.name;
      policy_uid = policy.metadata.uid;
      triggered_at = triggered_at;
      metric_value = policy.status.current_metric_value;
      actions = to_records 0 results;
      revert_requested = false;
      gate = gate;
    };
    status = record {
      reverted = false;
      reverted_at = none;
      revert_results = [];
      approval_phase = ApprovalPhase.unset;
      resumed_at = none;
      conditions = [];
    };
  }

  abbrev pub gate_of : ReactivePolicy → Time → ℕ → List Target → ApprovalGate
  gate_of policy triggered_at gate_idx targets = record {
    action_index = to_int32 (pos gate_idx);
    pending_plugins = map (λ (a : Action). a.plugin) (drop gate_idx policy.spec.actions);
    targets = map audit_target targets;
    expires_at = triggered_at +ℤ approval_timeout_or_default policy;
    decision = ApprovalDecision.unset;
    decided_by = "";
    decided_at = none;
    reason = "";
  }

  -- The sink's error is logged and dropped.
  abbrev pub tell_sink : Option (Sink W) → List Event → Act (Run W) (Unit {0})
  tell_sink none events = pure tt
  tell_sink (some sink) events = do call (sink.record_trigger events); pure tt

  -- writeAudit
  unfoldable pub write_audit :
      Option (Sink W) → ReactivePolicy → Time → List Result → Act (Run W) (Option Error)
  write_audit sink policy triggered_at results = do
    created ← call (p.create_audit (new_audit policy triggered_at results none))
    elim created [
      | err e ↦ pure (some (wrap p "creating audit record: %w" [] e))
      | ok audit ↦ (do tell_sink sink (build_sink_events audit); pure none)
    ]

  abbrev pub with_phase : ApprovalPhase → ActionAudit → ActionAudit
  with_phase phase audit = record audit { status = record audit.status { approval_phase = phase } }

  -- The sink hears of the record only if something ran before the gate.
  abbrev pub tell_sink_some : Option (Sink W) → List Result → ActionAudit → Act (Run W) (Unit {0})
  tell_sink_some sink [] audit = pure tt
  tell_sink_some sink (res ∷ rest) audit = tell_sink sink (build_sink_events audit)

  -- writeGatedAudit
  unfoldable pub write_gated_audit :
      Option (Sink W)
      → ReactivePolicy
      → Time
      → List Result
      → ℕ
      → List Target
      → Act (Run W) (Fallible ActionAudit)
  write_gated_audit sink policy triggered_at results gate_idx targets = do
    created ← call (
        p.create_audit (
          new_audit policy triggered_at results
            (some (gate_of policy triggered_at gate_idx targets))))
    elim created [
      | err e ↦ pure (err (wrap p "creating gated audit record: %w" [] e))
      | ok audit ↦ (do
        marked ← call (p.update_audit_status (with_phase ApprovalPhase.pending audit))
        elim marked [
          | err e ↦ pure (err (wrap p "marking audit record pending: %w" [] e))
          | ok audit' ↦ (do tell_sink_some sink results audit'; pure (ok audit'))
        ])
    ]
