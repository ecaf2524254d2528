-- ===== src/Controller/Policy/Confined.antt =====
-- What a trigger acts on: the targets that it resolves are capped, and a pipeline stays with them.
use reactive_policy.Common.{
  Fallible, Assoc, refl, ℕ, ◌≤◌, pos, String, List, [], ◌∷◌, Option, none, Error, All, All-imp,
  All-append, length, ◌≡◌, sym, subst,
}
use reactive_policy.Api.{ReactivePolicy}
use reactive_policy.Platform.{Platform}
use reactive_policy.Action.Types.{Target, Result, Plugin}
use reactive_policy.Action.Registry.{lookup_plugin}
use reactive_policy.Action.Executor.Reach.{Agree, run_range-Agree}
use reactive_policy.Action.Executor.{run_range}
use reactive_policy.Action.Executor.Aimed.{run_range-confined}
use reactive_policy.Controller.System.{System, Wiring}
use reactive_policy.Controller.Policy.Trigger.{list_kinds, run_targets}

module _ {W F : Type 0} (p : Platform W F) (wiring : Wiring W F) where
  -- What the kinds of the policy list
  abbrev pub all_listed : ReactivePolicy → System W → Fallible (List Target) × System W
  all_listed policy s =
      list_kinds p policy.metadata.namespace policy.spec.target.selector policy.spec.target.kinds []
        s

  run_range-All :
      (P : Target → Type 0) (policy : ReactivePolicy) (target : Target) (value : String)
      (from to : ℕ) (s : System W)
      → from ≤ to
      → to ≤ length policy.spec.actions
      → P target
      → All
          (λ (r : Result). P r.target)
          (run_range p wiring.plugins policy target value (pos from) (pos to) s.run).0.0
  run_range-All P policy target value from to s low high good =
      All-imp _ _ (λ (r : Result) same. subst P (sym same) good) _
        (run_range-confined p wiring.plugins policy target value from to s.run low high)

  run_targets-All :
      (P : Target → Type 0) (policy : ReactivePolicy) (value : String) (from to : ℕ)
      (targets : List Target) (results : List Result) (e : Option Error) (s : System W)
      → from ≤ to
      → to ≤ length policy.spec.actions
      → All P targets
      → All (λ (r : Result). P r.target) results
      → All
          (λ (r : Result). P r.target)
          (run_targets p wiring policy value (pos from) (pos to) targets results e s).0.0
  unfolding run_targets
  run_targets-All P policy value from to [] results e s low high goods done = done
  run_targets-All P policy value from to (target ∷ rest) results e s low high (good, goods) done =
      run_targets-All P policy value from to rest _ _ _ low high goods
        (All-append _ results _ done (run_range-All P policy target value from to s low high good))

  -- The wiring with other plugins
  abbrev pub with_plugins : Assoc (Plugin W) → Wiring W F
  with_plugins others = record wiring { plugins = others }

  run_targets-Agree :
      (P : Target → Type 0) (others : Assoc (Plugin W)) (policy : ReactivePolicy) (value : String)
      (from to : ℕ) (targets : List Target) (results : List Result) (e : Option Error)
      (s : System W)
      → ((name : String) → Agree P (lookup_plugin wiring.plugins name) (lookup_plugin others name))
      → from ≤ to
      → to ≤ length policy.spec.actions
      → All P targets
      → run_targets p wiring policy value (pos from) (pos to) targets results e s
        ≡ run_targets p (with_plugins others) policy value (pos from) (pos to) targets results e s
  unfolding run_targets
  run_targets-Agree P others policy value from to [] results e s agree low high goods = refl
  run_targets-Agree P others policy value from to (target ∷ rest) results e s agree low high
        (good, goods) =
      rw
        (run_range-Agree p wiring.plugins others P agree policy target value from to s.run low high
          good)
        (run_targets-Agree P others policy value from to rest _ _ _ agree low high goods)

  -- A pipeline that runs for a list of targets acts on these targets and on no others: of a property
  -- that all of them have, plugins that do the same with every target that has it, be it in Execute
  -- or in Reverse, cannot be told apart, by the results or by the state afterwards; and the target of
  -- every result has it.
  pub run_targets-Confined :
      (P : Target → Type 0) (others : Assoc (Plugin W)) (policy : ReactivePolicy) (value : String)
      (from to : ℕ) (targets : List Target) (s : System W)
      → ((name : String) → Agree P (lookup_plugin wiring.plugins name) (lookup_plugin others name))
      → from ≤ to
      → to ≤ length policy.spec.actions
      → All P targets
      → let out = run_targets p wiring policy value (pos from) (pos to) targets [] none s in
        (out
          ≡ run_targets p (with_plugins others) policy value (pos from) (pos to) targets [] none s)
        × All (λ (r : Result). P r.target) out.0.0
  run_targets-Confined P others policy value from to targets s agree low high goods = (
    run_targets-Agree P others policy value from to targets [] none s agree low high goods,
    run_targets-All P policy value from to targets [] none s low high goods tt,
  )
