-- ===== src/Examples/Records.antt =====
-- Reconciles of an audit record on small inputs.
use reactive_policy.Common.{
  ℤ, pos, ◌<ℤ◌, seconds, List, [], ◌∷◌, none, some, ok, reverse, trim_space, trim_left,
  without_suffix, atoi, digits, ◌≡◌, refl, arith,
}
use reactive_policy.Api.{ReactivePolicy, ActionAudit, ApprovalPhase, ApprovalDecision, RevertResult}
use reactive_policy.Api.Policy.{AuditSpec}
use reactive_policy.Controller.System.{System, Wiring}
use reactive_policy.Controller.Audit.Retention.{retention_of}
use reactive_policy.Controller.Audit.Reconcile.{reconcile_audit}
use reactive_policy.Controller.Audit.Idle.{Idle, reconcile_audit_idle}
use reactive_policy.Controller.Audit.Overflow.{retention_of_wraps}
use reactive_policy.Controller.Audit.Reversal.{undo_records, AllAnswer, Written, revert_lem}
use reactive_policy.Examples.World.{
  World, cluster, pipeline, policy_with, audit_with, gate, world, system, wiring,
}

abbrev policy : ReactivePolicy
policy = policy_with pipeline "" none

abbrev denied_audit : ActionAudit
denied_audit = audit_with ApprovalPhase.pending (some (gate ApprovalDecision.denied "alice"))

abbrev state : System World
state = system (world policy denied_audit)

-- The same operator without any plugin.
abbrev bare : Wiring World ℤ
bare = record wiring { plugins = [] }

reconcile_audit_idle_example :
    reconcile_audit cluster wiring "shop" "slow-web-1" state
    ≡ reconcile_audit cluster bare "shop" "slow-web-1" state
reconcile_audit_idle_example =
    reconcile_audit_idle cluster wiring bare "shop" "slow-web-1" denied_audit state refl
      (Idle.held refl (cc))

revert_lem_example :
    let backwards = reverse denied_audit.spec.actions in
    let w = undo_records cluster wiring backwards state.run.outside in
    (results : List RevertResult) × AllAnswer cluster wiring backwards state.run.outside results
    × Written cluster wiring denied_audit (seconds 9000) state results w
revert_lem_example = revert_lem cluster wiring denied_audit (seconds 9000) state

abbrev long_audit : AuditSpec
long_audit = record { retention = "293y" }

retention_of_wraps_example : retention_of cluster (ok policy) <ℤ pos 0
unfolding without_suffix trim_space trim_left atoi digits
retention_of_wraps_example =
    retention_of_wraps cluster policy long_audit (b'2' ∷ b'9' ∷ b'3' ∷ []) 293 refl (cc) refl refl
      refl (omega arith) (omega arith)
