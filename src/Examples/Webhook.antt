-- ===== src/Examples/Webhook.antt =====
-- The webhooks at work: a valid policy, and the verdict on an open gate.
use reactive_policy.Common.{lookup, [], Option, none, some, true, ok, ◌≡◌, refl, Error}
use reactive_policy.Api.{ActionAudit, ApprovalGate, ApprovalDecision, ApprovalPhase, decision_eq}
use reactive_policy.Webhook.Approval.{
  Request, handle, stamp, requester_name, check_objects, check_gates, check_verdict, admit,
  stamps_kept, same_time,
}
use reactive_policy.Webhook.Approval.Trail.{GateChange, handle-GateChange}
use reactive_policy.Webhook.Approval.Verdict.{History, Upholds, verdict_final}
use reactive_policy.Webhook.Policy.{
  validate, validate_observe, validate_timings, validate_actions, validate_each, check_second_gate,
  check_plugin,
}
use reactive_policy.Action.Registry.{lookup_plugin}
use reactive_policy.Webhook.Policy.Validity.{IsValid}
use reactive_policy.Webhook.Policy.Admission.{validate↔IsValid}
use reactive_policy.Examples.World.{
  World, cluster, plugins, pipeline, policy_with, no_metrics, gate, audit_with, world,
}
use mathlib.Core.Logic.{◌↔◌}

abbrev encodes : ActionAudit → Option Error
encodes audit = none

abbrev open_gate : ApprovalGate
open_gate = gate ApprovalDecision.unset ""

abbrev waiting : ActionAudit
waiting = audit_with ApprovalPhase.pending (some open_gate)

abbrev approving : ActionAudit
approving = audit_with ApprovalPhase.pending (some (gate ApprovalDecision.approved "mallory"))

abbrev start : World
start = world (policy_with pipeline "slow-web-1" none) waiting

abbrev update_of : ActionAudit → ActionAudit → Request
update_of n o = record {
  is_update = true;
  object = ok n;
  old_object = some (ok o);
  username = "alice";
}

abbrev approved : ActionAudit
approved = stamp approving (gate ApprovalDecision.approved "mallory") "alice" start.clock

handle-GateChange_example :
    GateChange cluster encodes
      (update_of approving waiting)
      start
      waiting
      waiting.spec.gate
      approved.spec.gate
unfolding handle check_objects check_gates decision_eq check_verdict admit requester_name
handle-GateChange_example =
    handle-GateChange cluster encodes (update_of approving waiting) approving waiting approved start
      refl refl refl refl

abbrev decided_gate : ApprovalGate
decided_gate = record (gate ApprovalDecision.approved "alice") { decided_at = some start.clock }

-- After the approval a revert is asked for, and the operator marks the record.
abbrev to_revert : ActionAudit
to_revert = record approved { spec = record approved.spec { revert_requested = true } }

abbrev marked : ActionAudit
marked = record to_revert {
  status = record to_revert.status { approval_phase = ApprovalPhase.approved };
}

approved-History : History cluster encodes approved marked
unfolding handle check_objects check_gates decision_eq stamps_kept same_time stamp
approved-History =
    History.elsewhere
      (History.update (update_of to_revert approved) to_revert start History.start refl refl refl
        refl)
      refl

verdict_final_example : Upholds cluster encodes decided_gate marked.spec.gate
unfolding stamp
verdict_final_example =
    verdict_final cluster encodes approved marked decided_gate refl (cc) approved-History

validate↔IsValid_example :
    ((validate cluster plugins (policy_with pipeline "" none) no_metrics).0 ≡ [])
    ↔ IsValid plugins (policy_with pipeline "" none)
validate↔IsValid_example =
    validate↔IsValid cluster plugins (policy_with pipeline "" none) no_metrics

-- The description is met by the example, and not by a pipeline with two gates.
IsValid-pipeline : IsValid plugins (policy_with pipeline "" none)
unfolding validate validate_observe validate_timings validate_actions validate_each
    check_second_gate check_plugin lookup_plugin lookup
IsValid-pipeline =
    (validate↔IsValid cluster plugins (policy_with pipeline "" none) no_metrics).0 refl
