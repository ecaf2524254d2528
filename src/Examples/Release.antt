-- ===== src/Examples/Release.antt =====
-- Approvals, records and the end of a trigger on small inputs.
use reactive_policy.Common.{
  ℕ, pos, seconds, [], ◌∷◌, none, some, All, drop, lookup, ◌≡◌, ◌≢◌, refl, inr, arith, eq_iff, ℤ,
  String, Option, Bool-cases, str_eq, inl, subst,
}
use reactive_policy.Api.{ReactivePolicy, ActionAudit, ApprovalGate, ApprovalPhase, ApprovalDecision}
use reactive_policy.Platform.{Platform}
use reactive_policy.Action.Types.{Result, Details, Value, Plugin, ExecuteInput}
use reactive_policy.Action.Executor.{gate_index}
use reactive_policy.Controller.System.{System}
use reactive_policy.Controller.AuditWriter.{to_record, record_to_result}
use reactive_policy.Controller.AuditWriter.Records.{record_to_result-to_record}
use reactive_policy.Controller.Policy.Trigger.{fire}
use reactive_policy.Controller.Policy.Recorded.{KeptByPipeline}
use reactive_policy.Controller.Policy.Settled.{Ends, Triggered, fire-Ends}
use reactive_policy.Controller.Audit.Closing.{close_gate}
use reactive_policy.Controller.Audit.Closed.{Settles, close_gate-Settles}
use reactive_policy.Action.Registry.{lookup_plugin}
use reactive_policy.Webhook.Policy.{
  validate, validate_observe, validate_timings, validate_actions, validate_each, check_second_gate,
  check_plugin,
}
use reactive_policy.Webhook.Policy.OneGate.{Free, validate-one_gate}
use reactive_policy.Examples.World.{
  World, cluster, plugins, pipeline, policy_with, audit_with, gate, world, web, system, wiring,
  no_metrics, done,
}

abbrev policy : ReactivePolicy
policy = policy_with pipeline "slow-web-1" none

abbrev approved_gate : ApprovalGate
approved_gate = gate ApprovalDecision.approved "alice"

abbrev approved : ActionAudit
approved = audit_with ApprovalPhase.pending (some approved_gate)

abbrev state_of : ReactivePolicy → System World
state_of p = system (world p approved)

-- Details, and a cluster on which they come back from their encoding.
abbrev the_details : Details
the_details = ("channel", Value.text "ops") ∷ []

abbrev coder : Platform World ℤ
coder = record cluster {
  marshal = λ details. some "{channel}";
  unmarshal = λ raw. some the_details;
}

abbrev detailed : Result
detailed = record (done "page") { details = the_details }

filled : ◌≢◌ {A = String} "{channel}" ""
filled e = let h = (eq_iff "{channel}" "").1 e in ground arith

record_to_result-to_record_example :
    record_to_result coder plugins (to_record coder plugins (pos 0) detailed) ≡ detailed
record_to_result-to_record_example =
    record_to_result-to_record coder plugins (pos 0) detailed
      (inr ("{channel}", refl, filled, refl))

-- The cluster holds the policy as it was.
abbrev Unwritten : World → Type 0
Unwritten w = w.policy ≡ policy

abbrev KeptBy : Option (Plugin World) → Type 0
KeptBy none = Unit
KeptBy (some plugin) =
    ((input : ExecuteInput) (w : World) → Unwritten w → Unwritten (plugin.execute input w).1)
    × ((res : Result) (w : World) → Unwritten w → Unwritten (plugin.reverse res w).1)

plugins-KeptBy : (name : String) → KeptBy (lookup_plugin plugins name)
unfolding lookup_plugin lookup
plugins-KeptBy name = elim (Bool-cases (str_eq "shift" name)) [
  | inl e ↦ rw e ((λ input w h. h), (λ res w h. h))
  | inr e ↦ elim (Bool-cases (str_eq "page" name)) [
    | inl e' ↦ rw (e, e') ((λ input w h. h), (λ res w h. h))
    | inr e' ↦ rw (e, e') tt
  ]
]

pipeline-Kept : KeptByPipeline cluster wiring Unwritten
pipeline-Kept = record {
  by_plugins = record {
    kept_now = λ w h. h;
    kept_execute = λ name plugin input w e. (subst KeptBy e (plugins-KeptBy name)).0 input w;
    kept_reverse = λ name plugin res w e. (subst KeptBy e (plugins-KeptBy name)).1 res w;
  };
  kept_create = λ audit w h. h;
  kept_mark = λ audit w h. h;
  kept_tell = λ sink events w e h. ground arith;
}

fire-Ends_example :
    Ends cluster wiring Unwritten "shop/slow-web"
      (seconds 30)
      (fire cluster wiring policy "shop/slow-web"
        (seconds 100)
        (seconds 30)
        (web ∷ [])
        (state_of policy))
      (λ (q : ReactivePolicy).
        Triggered cluster wiring policy q
        × (gate_index policy ≡ none → q.status.last_triggered_at ≡ some (seconds 100))
        × ((g : ℕ)
            → gate_index policy ≡ some g
            → q.status.last_triggered_at ≡ policy.status.last_triggered_at))
fire-Ends_example =
    fire-Ends cluster wiring Unwritten policy "shop/slow-web" (seconds 100) (seconds 30) (web ∷ [])
      (state_of policy) pipeline-Kept refl

admitted : (validate cluster plugins policy no_metrics).0 ≡ []
unfolding validate validate_observe validate_timings validate_actions validate_each
    check_second_gate check_plugin lookup_plugin lookup
admitted = refl

validate-one_gate_example : All Free (drop 3 pipeline)
unfolding gate_index
validate-one_gate_example = validate-one_gate cluster plugins policy no_metrics 2 admitted refl

close_gate-Settles_example : Settles cluster ApprovalPhase.denied no_metrics (
    close_gate cluster approved ApprovalPhase.denied "Denied" "denied by alice"
      (seconds 9000)
      (state_of policy))
close_gate-Settles_example =
    close_gate-Settles cluster approved ApprovalPhase.denied "Denied" "denied by alice"
      (seconds 9000) (state_of policy)
