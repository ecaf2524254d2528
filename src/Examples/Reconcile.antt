-- ===== src/Examples/Reconcile.antt =====
-- Reconciles of a policy on small inputs.
use reactive_policy.Common.{
  pos, String, List, [], ◌∷◌, none, some, All, ◌≡◌, refl, arith, Bool, true, false, str_eq,
  if◌then◌else◌, Bool-cases, inl, inr, Assoc, lookup,
}
use reactive_policy.Api.{ReactivePolicy, ActionAudit, ApprovalPhase, ApprovalDecision}
use reactive_policy.Action.Types.{Target, Result, Plugin}
use reactive_policy.Controller.System.{System}
use reactive_policy.Controller.Policy.Trigger.{run_targets}
use reactive_policy.Controller.Policy.Confined.{run_targets-Confined, with_plugins}
use reactive_policy.Action.Registry.{lookup_plugin}
use reactive_policy.Action.Executor.Reach.{Agree}
use reactive_policy.Examples.World.{
  World, cluster, pipeline, policy_with, audit_with, gate, world, web, system, wiring, plugins,
  plugin_named, done, called,
}

abbrev held : ReactivePolicy
held = policy_with pipeline "slow-web-1" none

abbrev open_audit : ActionAudit
open_audit = audit_with ApprovalPhase.pending (some (gate ApprovalDecision.unset ""))

abbrev state : ReactivePolicy → System World
state policy = system (world policy open_audit)

abbrev found : List Target
found = web ∷ []

abbrev pub InShop : Target → Type 0
InShop t = t.namespace ≡ "shop"

-- A plugin that behaves outside of the shop as it does not within.
abbrev two_faced : String → Bool → Plugin World
two_faced name reversible = record (plugin_named name reversible) {
  execute = λ input w.
      if str_eq input.target.namespace "shop"
      then ((done name, none), called name w)
      else ((done name, none), called "elsewhere" w);
}

abbrev pub others : Assoc (Plugin World)
others = ("shift", two_faced "shift" true) ∷ ("page", two_faced "page" false) ∷ []

two_faced-Agree :
    (name : String) (reversible : Bool)
    → Agree InShop (some (plugin_named name reversible)) (some (two_faced name reversible))
two_faced-Agree name reversible = (refl, (λ input w shop. rw shop refl), (λ res w shop. refl))

pub agree : (name : String) → Agree InShop (lookup_plugin plugins name) (lookup_plugin others name)
unfolding lookup_plugin lookup
agree name = elim (Bool-cases (str_eq "shift" name)) [
  | inl e ↦ rw e (two_faced-Agree "shift" true)
  | inr e ↦ elim (Bool-cases (str_eq "page" name)) [
    | inl e' ↦ rw (e, e') (two_faced-Agree "page" false)
    | inr e' ↦ rw (e, e') tt
  ]
]

run_targets-Confined_example :
    let out = run_targets cluster wiring held "7" (pos 0) (pos 2) found [] none (state held) in
    (out
      ≡ run_targets cluster
          (with_plugins cluster wiring others)
          held
          "7"
          (pos 0)
          (pos 2)
          found
          []
          none
          (state held))
    × All (λ (r : Result). InShop r.target) out.0.0
run_targets-Confined_example =
    run_targets-Confined cluster wiring InShop others held "7" 0 2 found (state held) agree
      (omega arith) (omega arith) (refl, tt)
