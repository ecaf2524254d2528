-- ===== src/Action/Executor/Held.antt =====
-- An approval gate: where it is, and that a pipeline that runs up to it looks at nothing behind it.
use reactive_policy.Common.{
  ℕ, zero, suc, ◌+◌, ◌-◌, ◌≤◌, pos, Time, String, List, [], ◌∷◌, ◌++◌, Option, none, some, Bool,
  true, false, Assoc, Error, Act, All, length, get_elem?, take, ◌≡◌, refl, ap, sym, ◌∙◌, arith,
  if◌then◌else◌,
}
use mathlib.Core.Path.{fun_ext}
use reactive_policy.Api.{ReactivePolicy}
use reactive_policy.Api.Policy.{Action}
use reactive_policy.Platform.{Platform}
use reactive_policy.Action.Types.{Target, Result, Plugin, Details}
use reactive_policy.Action.Executor.{
  Run, run_one, run_loop, run_range, template_data, after_one, gate_from, gate_index,
}
use reactive_policy.Action.Executor.Aimed.{run_range-within, run_range_empty}

-- What GateIndex says of a list of actions counted from `i`.
abbrev GateAt : ℕ → List Action → Option ℕ → Type 0
GateAt i acts none = All (λ (a : Action). a.requires_approval ≡ false) acts
GateAt i acts (some g) =
    (k : ℕ) × (g ≡ i + k)
    × All (λ (a : Action). a.requires_approval ≡ false) (take k acts)
    × ((act : Action) × (get_elem? acts k ≡ some act) × (act.requires_approval ≡ true))

GateAt-cons :
    (i : ℕ) (act : Action) (rest : List Action) (b : Bool)
    → act.requires_approval ≡ b
    → (o : Option ℕ) → GateAt (suc i) rest o
    → GateAt i (act ∷ rest) (if b then some i else o)
GateAt-cons i act rest true e o h = (0, omega arith, tt, (act, refl, e))
GateAt-cons i act rest false e none h = (e, h)
GateAt-cons i act rest false e (some g) (k, at, before, gated) =
    (suc k, omega (arith, at), (e, before), gated)

gate_from-GateAt : (i : ℕ) (acts : List Action) → GateAt i acts (gate_from i acts)
gate_from-GateAt i [] = tt
gate_from-GateAt i (act ∷ rest) =
    GateAt-cons i act rest act.requires_approval refl _ (gate_from-GateAt (suc i) rest)

-- No action before the index asks for approval, and the one at it does; without an index no action
-- does.
abbrev pub IsFirstGate : List Action → Option ℕ → Type 0
IsFirstGate acts none = All (λ (a : Action). a.requires_approval ≡ false) acts
IsFirstGate acts (some g) =
    All (λ (a : Action). a.requires_approval ≡ false) (take g acts)
    × ((act : Action) × (get_elem? acts g ≡ some act) × (act.requires_approval ≡ true))

GateAt-IsFirstGate : (acts : List Action) (o : Option ℕ) → GateAt 0 acts o → IsFirstGate acts o
GateAt-IsFirstGate acts none h = h
GateAt-IsFirstGate acts (some g) (k, at, before, gated) =
    let e : g ≡ k = omega (arith, at) in rw e (before, gated)

-- GateIndex answers with the position of the first action that asks for approval, and with no
-- position exactly when no action of the pipeline does.
pub gate_index-IsFirstGate :
    (policy : ReactivePolicy) → IsFirstGate policy.spec.actions (gate_index policy)
unfolding gate_index
gate_index-IsFirstGate policy =
    GateAt-IsFirstGate policy.spec.actions _ (gate_from-GateAt 0 policy.spec.actions)

module _ {W F : Type 0} (p : Platform W F) (plugins : Assoc (Plugin W)) where
  run_one-metadata :
      (policy other : ReactivePolicy) (act : Action) (target : Target) (value : String) (ts : Time)
      (tmpl : Details) (s : Run W)
      → policy.metadata ≡ other.metadata
      → run_one p plugins policy act target value ts tmpl s
        ≡ run_one p plugins other act target value ts tmpl s
  unfolding run_one
  run_one-metadata policy other act target value ts tmpl s h =
      λ i. run_one p plugins (record policy { metadata = h i }) act target value ts tmpl s

  run_loop-metadata :
      (policy other : ReactivePolicy) (target : Target) (value : String) (ts : Time)
      (tmpl : Details) (i : ℕ) (acts : List Action) (results : List Result) (s : Run W)
      → policy.metadata ≡ other.metadata
      → run_loop p plugins policy target value ts tmpl i acts results s
        ≡ run_loop p plugins other target value ts tmpl i acts results s
  unfolding run_loop
  run_loop-metadata policy other target value ts tmpl i [] results s h = refl
  run_loop-metadata policy other target value ts tmpl i (act ∷ rest) results s h =
      rw (run_one-metadata policy other act target value ts tmpl s h) (
        ap
          (λ (go_on : List Result → Act (Run W) (List Result × Option Error)).
            let out = run_one p plugins other act target value ts tmpl s in
            let results' = results ++ out.0.0 ∷ [] in
            after_one p plugins out.0.1 i act results' (go_on results') out.1)
          (fun_ext λ results'.
            fun_ext
              λ s'. run_loop-metadata policy other target value ts tmpl (suc i) rest results' s' h))

  template_data-metadata :
      (policy other : ReactivePolicy) (target : Target) (value : String) (ts : Time)
      → policy.metadata ≡ other.metadata
      → template_data p plugins policy target value ts
        ≡ template_data p plugins other target value ts
  unfolding template_data
  template_data-metadata policy other target value ts h =
      λ i. template_data p plugins (record policy { metadata = h i }) target value ts

  -- A pipeline that runs up to its gate does the same, with the same results, for every policy of
  -- the same metadata whose actions before the gate are the same, whatever stands behind the gate.
  pub run_range_held :
      (policy other : ReactivePolicy) (target : Target) (value : String) (g : ℕ) (s : Run W)
      → g ≤ length policy.spec.actions
      → g ≤ length other.spec.actions
      → policy.metadata ≡ other.metadata
      → take g policy.spec.actions ≡ take g other.spec.actions
      → run_range p plugins policy target value (pos 0) (pos g) s
        ≡ run_range p plugins other target value (pos 0) (pos g) s
  run_range_held policy other target value zero s long long' same acts =
      run_range_empty p plugins policy target value 0 s long
      ∙ sym (run_range_empty p plugins other target value 0 s long')
  run_range_held policy other target value (suc g) s long long' same acts =
      let ts = (p.now s.outside).0 in
      let whole : suc g - 0 ≡ suc g = omega arith in
      run_range-within p plugins policy target value 0 (suc g) s (omega arith) long
      ∙ rw (whole, acts, template_data-metadata policy other target value ts same)
          (run_loop-metadata policy other target value ts _ 0 (take (suc g) other.spec.actions) [] _
            same)
      ∙ sym (run_range-within p plugins other target value 0 (suc g) s (omega arith) long')
