-- ===== src/Controller/Audit/Released.antt =====
-- What an approval sets off.
use reactive_policy.Common.{
  Assoc, ℕ, ℤ, pos, Time, List, [], Option, none, Error, Fallible, All, length, map, ◌≡◌,
}
use reactive_policy.Api.{ReactivePolicy, ActionAudit, ApprovalGate}
use reactive_policy.Platform.{Platform}
use reactive_policy.Action.Types.{Target, Result, Plugin}
use reactive_policy.Controller.AuditWriter.{action_target}
use reactive_policy.Controller.System.{System, Answer, Wiring, ask}
use reactive_policy.Controller.Policy.Trigger.{or_namespace, run_targets}
use reactive_policy.Controller.Policy.Confined.{with_plugins}
use reactive_policy.Controller.Audit.Gate.{record_released}

module _ {W F : Type 0} (p : Platform W F) (wiring : Wiring W F) where
  -- The outside after the policy was fetched.
  abbrev pub fetched : ActionAudit → System W → System W
  fetched audit s = (ask (p.get_policy audit.metadata.namespace audit.spec.policy_ref) s).1

  -- The targets of the resumed pipeline.
  abbrev pub recorded : ActionAudit → ApprovalGate → List Target
  recorded audit gate = or_namespace p audit.metadata.namespace (map action_target gate.targets)

  -- The actions from `from` on, for the recorded targets
  abbrev pub resumed :
      ActionAudit
      → ApprovalGate
      → ReactivePolicy
      → ℤ
      → System W
      → (List Result × Option Error) × System W
  resumed audit gate policy from s =
      run_targets p wiring policy audit.spec.metric_value from (pos (length policy.spec.actions))
        (recorded audit gate) [] none s

  -- The reconcile ran the actions from the gate on and goes on to record their results, which are for
  -- targets with the property; other plugins that agree on these would do the same.
  pub record Resumes (P : Target → Type 0) (others : Assoc (Plugin W)) (audit : ActionAudit)
      (gate : ApprovalGate) (policy : ReactivePolicy) (g : ℕ) (expiry : Time) (s : System W)
      (out : Fallible Answer × System W) : Type 0 where
    pub resumes :
        let ran = resumed audit gate policy (pos g) s in
        out ≡ record_released p wiring audit gate policy ran.0.0 expiry ran.1
    pub confined :
        run_targets p wiring policy audit.spec.metric_value
          (pos g)
          (pos (length policy.spec.actions))
          (recorded audit gate)
          []
          none
          s
        ≡ run_targets p
            (with_plugins p wiring others)
            policy
            audit.spec.metric_value
            (pos g)
            (pos (length policy.spec.actions))
            (recorded audit gate)
            []
            none
            s
    pub aimed : All (λ (r : Result). P r.target) (resumed audit gate policy (pos g) s).0.0
