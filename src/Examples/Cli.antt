-- ===== src/Examples/Cli.antt =====
-- The command line at work on the cluster.
use reactive_policy.Common.{
  seconds, [], ◌∷◌, false, Option, none, some, true, Error, ok, ◌≡◌, refl, ◌↔◌,
}
use reactive_policy.Api.{ActionAudit, ApprovalDecision, ApprovalGate, ApprovalPhase, ReactivePolicy}
use reactive_policy.Webhook.Approval.{Request, Response, handle, stamp, requester_name}
use reactive_policy.Cli.DryRun.{dry_run}
use reactive_policy.Cli.DryRun.Faithful.{WouldTrigger, dry_run↔WouldTrigger}
use reactive_policy.Cli.Verdict.{gate_to_decide, with_decision}
use reactive_policy.Cli.Verdict.Accepted.{handle-with_decision}
use reactive_policy.Cli.Tables.{print_pending_table}
use reactive_policy.Examples.World.{
  World, cluster, plugins, wiring, world, audit_with, gate, policy_with, pipeline,
}

abbrev open_gate : ApprovalGate
open_gate = gate ApprovalDecision.unset ""

abbrev waiting : ActionAudit
waiting = audit_with ApprovalPhase.pending (some open_gate)

abbrev policy : ReactivePolicy
policy = policy_with pipeline "" none

abbrev now : World
now = world policy waiting

abbrev sent : ActionAudit
sent = with_decision cluster ApprovalDecision.approved "looks right" open_gate waiting

abbrev request : Request
request = record {
  is_update = true;
  object = ok sent;
  old_object = some (ok waiting);
  username = "ada";
}

abbrev encodes : ActionAudit → Option Error
encodes a = none

may_decide : (gate_to_decide cluster "slow-web-1" waiting now).0 ≡ ok open_gate
unfolding gate_to_decide
may_decide = refl

handle-with_decision_example :
    (handle cluster encodes request now).0
    ≡ Response.patched (
        stamp sent
          (record open_gate { decision = ApprovalDecision.approved; reason = "looks right" })
          (requester_name request)
          (seconds 100))
handle-with_decision_example =
    handle-with_decision cluster encodes "slow-web-1" "looks right" ApprovalDecision.approved
      waiting open_gate request now now (λ a. refl) may_decide refl refl refl refl refl refl

dry_run↔WouldTrigger_example :
    ((dry_run cluster plugins wiring.prometheus policy now).0.would_trigger ≡ true)
    ↔ WouldTrigger cluster plugins wiring.prometheus policy now
dry_run↔WouldTrigger_example = dry_run↔WouldTrigger cluster plugins wiring.prometheus policy now

-- A record that has no gate has no row in the table of pending ones.
pending_rows :
    (print_pending_table cluster
      (λ d. "5m")
      none
      (λ names. "shift")
      (λ text. text)
      false
      (audit_with ApprovalPhase.unset none ∷ waiting ∷ [])
      now).0
    ≡ "NAME\tPOLICY\tMETRIC\tHELD\tTARGETS\tEXPIRES IN" ∷ "%s\t%s\t%s\t%s\t%d\t%s\n" ∷ []
unfolding print_pending_table
pending_rows = refl
