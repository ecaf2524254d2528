-- ===== src/Action/Executor/Keeps.antt =====
-- What a pipeline leaves as it is: a property of the outside that the clock and the plugins keep is
-- kept by RunRange.
use reactive_policy.Common.{
  ℕ, suc, ℤ, pos, leb_ℤ, ltb_ℤ, Time, String, List, [], ◌∷◌, ◌++◌, Option, none, some, Assoc, Error,
  Act, length, ◌≡◌, arith, Option-cases, Bool-cases, inl, inr, if◌then◌else◌,
}
use reactive_policy.Api.{ReactivePolicy, FailurePolicy}
use reactive_policy.Api.Policy.{Action}
use reactive_policy.Platform.{Platform}
use reactive_policy.Action.Types.{Target, Result, ExecuteInput, Plugin, Details}
use reactive_policy.Action.Registry.{lookup_plugin}
use reactive_policy.Action.Executor.{
  Run, run_one, normalize, roll_back_one, rollback, run_loop, run_range, after_one, on_failed,
  is_succeeded,
}

-- The clock and the registered plugins keep a property of the outside.
pub record KeptByPlugins {W F : Type 0} (p : Platform W F) (plugins : Assoc (Plugin W))
    (K : W → Type 0) : Type 0 where
  pub kept_now : (w : W) → K w → K (p.now w).1
  pub kept_execute :
      (name : String) (plugin : Plugin W) (input : ExecuteInput) (w : W)
      → lookup_plugin plugins name ≡ some plugin
      → K w
      → K (plugin.execute input w).1
  pub kept_reverse :
      (name : String) (plugin : Plugin W) (res : Result) (w : W)
      → lookup_plugin plugins name ≡ some plugin
      → K w
      → K (plugin.reverse res w).1

module _ {W F : Type 0} (p : Platform W F) (plugins : Assoc (Plugin W)) (K : W → Type 0)
    (kept : KeptByPlugins p plugins K) where
  normalize-Keeps :
      (plugin : Plugin W) (target : Target) (out : Result × Option Error) (s : Run W)
      → K s.outside
      → K (normalize p plugins plugin target out s).1.outside
  unfolding normalize
  normalize-Keeps plugin target (res, e) s h =
      let later = kept.kept_now s.outside h in ground (arith, later, h)

  run_one-Keeps :
      (policy : ReactivePolicy) (act : Action) (target : Target) (value : String) (ts : Time)
      (tmpl : Details) (s : Run W)
      → K s.outside
      → K (run_one p plugins policy act target value ts tmpl s).1.outside
  unfolding run_one
  run_one-Keeps policy act target value ts tmpl s h =
      elim (Option-cases (lookup_plugin plugins act.plugin)) [
        | inl e ↦ rw (e, run_one) (kept.kept_now s.outside h)
        | inr (plugin, e) ↦
            rw (e, run_one)
              (normalize-Keeps plugin target _ _ (
                kept.kept_now _
                  (kept.kept_execute act.plugin plugin _ _ e (kept.kept_now s.outside h))))
      ]

  roll_back_one-Keeps :
      (res : Result) (s : Run W) → K s.outside → K (roll_back_one p plugins res s).1.outside
  unfolding roll_back_one
  roll_back_one-Keeps res s h = elim (Bool-cases (is_succeeded res.status)) [
    | inl e ↦ elim (Option-cases (lookup_plugin plugins res.plugin_name)) [
      | inl e' ↦ rw (e, e', roll_back_one) h
      | inr (plugin, e') ↦
          rw (e, e', roll_back_one) (kept.kept_reverse res.plugin_name plugin res s.outside e' h)
    ]
    | inr e ↦ rw (e, roll_back_one) h
  ]

  rollback-Keeps :
      (results : List Result) (s : Run W) → K s.outside → K (rollback p plugins results s).1.outside
  unfolding rollback
  rollback-Keeps [] s h = h
  rollback-Keeps (res ∷ rest) s h = roll_back_one-Keeps res _ (rollback-Keeps rest s h)

  after_one-Keeps :
      (i : ℕ) (act : Action) (results : List Result) (o : Option Error)
      (go_on : Act (Run W) (List Result × Option Error)) (s : Run W)
      → K s.outside
      → K (go_on s).1.outside
      → K (after_one p plugins o i act results go_on s).1.outside
  unfolding after_one
  after_one-Keeps i act results none go_on s h next = next
  after_one-Keeps i act results (some e) go_on s h next = go act.on_failure
    where
      go : (f : FailurePolicy) → K (on_failed p plugins f i act e results go_on s).1.outside
      go FailurePolicy.continue = next
      go FailurePolicy.rollback = rollback-Keeps results s h
      go _ = h

  run_loop-Keeps :
      (policy : ReactivePolicy) (target : Target) (value : String) (ts : Time) (tmpl : Details)
      (i : ℕ) (acts : List Action) (results : List Result) (s : Run W)
      → K s.outside
      → K (run_loop p plugins policy target value ts tmpl i acts results s).1.outside
  unfolding run_loop
  run_loop-Keeps policy target value ts tmpl i [] results s h = h
  run_loop-Keeps policy target value ts tmpl i (act ∷ rest) results s h =
      let out = run_one p plugins policy act target value ts tmpl s in
      let ran = run_one-Keeps policy act target value ts tmpl s h in
      after_one-Keeps i act (results ++ out.0.0 ∷ []) out.0.1 _ out.1 ran
        (run_loop-Keeps policy target value ts tmpl (suc i) rest _ out.1 ran)

  pub run_range-Keeps :
      (policy : ReactivePolicy) (target : Target) (value : String) (from to : ℤ) (s : Run W)
      → K s.outside
      → K (run_range p plugins policy target value from to s).1.outside
  unfolding run_range
  run_range-Keeps policy target value from to s h =
      let n = length policy.spec.actions in
      let from' = if ltb_ℤ from (pos 0) then pos 0 else from in
      let to' = if ltb_ℤ (pos n) to then pos n else to in
      elim (Bool-cases (leb_ℤ to' from')) [
        | inl e ↦ rw (e, run_range) h
        | inr e ↦
            rw (e, run_range)
              (run_loop-Keeps policy target value _ _ _ _ [] _ (kept.kept_now s.outside h))
      ]
