-- ===== src/Action/Executor/Aimed.antt =====
-- RunRange within the bounds of the pipeline, and the target of every result.
use reactive_policy.Common.{
  ℕ, suc, ◌-◌, ◌≤◌, ◌<◌, pos, Time, String, List, [], ◌∷◌, ◌++◌, Option, none, some, true, false,
  Assoc, Error, length, take, drop, All, Act, ltb_ℤ, leb_ℤ, ◌≡◌, refl, inl, inr, arith,
  Option-cases, ◌∙◌,
}
use native.Mathlib.Decide.{dec_lt}
use reactive_policy.Api.{ReactivePolicy, FailurePolicy}
use reactive_policy.Api.Policy.{Action}
use reactive_policy.Platform.{Platform}
use reactive_policy.Action.Types.{Target, Result, Plugin, Details}
use reactive_policy.Action.Registry.{lookup_plugin}
use reactive_policy.Action.Executor.{
  Run, run_one, normalize, roll_back_one, rollback, run_loop, run_range, annotate, after_one,
  on_failed, template_data,
}

module _ {W F : Type 0} (p : Platform W F) (plugins : Assoc (Plugin W)) where
  normalize-target :
      (plugin : Plugin W) (target : Target) (out : Result × Option Error) (s : Run W)
      → (normalize p plugins plugin target out s).0.target ≡ target
  unfolding normalize
  normalize-target plugin target (res, none) s = ground arith
  normalize-target plugin target (res, some e) s = ground arith

  -- runOne answers for the target that it was given, whatever the plugin wrote there.
  pub run_one-target :
      (policy : ReactivePolicy) (act : Action) (target : Target) (value : String) (ts : Time)
      (tmpl : Details) (s : Run W)
      → (run_one p plugins policy act target value ts tmpl s).0.0.target ≡ target
  unfolding run_one
  run_one-target policy act target value ts tmpl s =
      elim (Option-cases (lookup_plugin plugins act.plugin)) [
        | inl e ↦ rw (e, run_one)
        | inr (plugin, e) ↦ rw (e, run_one) (normalize-target plugin target _ _)
      ]

  roll_back_one-target :
      (res : Result) (s : Run W) → (roll_back_one p plugins res s).0.target ≡ res.target
  unfolding roll_back_one annotate
  roll_back_one-target res s = ground arith

  rollback-target :
      (target : Target) (results : List Result) (s : Run W)
      → All (λ (r : Result). r.target ≡ target) results
      → All (λ (r : Result). r.target ≡ target) (rollback p plugins results s).0
  unfolding rollback
  rollback-target target [] s h = tt
  rollback-target target (res ∷ rest) s h =
      (roll_back_one-target res _ ∙ h.0, rollback-target target rest s h.1)

  pub All-snoc :
      (P : Result → Type 0) (results : List Result) (res : Result)
      → All P results
      → P res
      → All P (results ++ res ∷ [])
  All-snoc P [] res h q = (q, tt)
  All-snoc P (r ∷ results) res h q = (h.0, All-snoc P results res h.1 q)

  after_one-confined :
      (target : Target) (i : ℕ) (act : Action) (results : List Result) (o : Option Error)
      (go_on : Act (Run W) (List Result × Option Error)) (s : Run W)
      → All (λ (r : Result). r.target ≡ target) results
      → All (λ (r : Result). r.target ≡ target) (go_on s).0.0
      → All (λ (r : Result). r.target ≡ target) (after_one p plugins o i act results go_on s).0.0
  unfolding after_one
  after_one-confined target i act results none go_on s h next = next
  after_one-confined target i act results (some e) go_on s h next = go act.on_failure
    where
      go :
          (f : FailurePolicy)
          → All
              (λ (r : Result). r.target ≡ target)
              (on_failed p plugins f i act e results go_on s).0.0
      go FailurePolicy.continue = next
      go FailurePolicy.rollback = rollback-target target results s h
      go _ = h

  run_loop-confined :
      (policy : ReactivePolicy) (target : Target) (value : String) (ts : Time) (tmpl : Details)
      (i : ℕ) (acts : List Action) (results : List Result) (s : Run W)
      → All (λ (r : Result). r.target ≡ target) results
      → All
          (λ (r : Result). r.target ≡ target)
          (run_loop p plugins policy target value ts tmpl i acts results s).0.0
  unfolding run_loop
  run_loop-confined policy target value ts tmpl i [] results s h = h
  run_loop-confined policy target value ts tmpl i (act ∷ rest) results s h =
      let out = run_one p plugins policy act target value ts tmpl s in
      let h' =
        All-snoc (λ r. r.target ≡ target) results out.0.0 h
          (run_one-target policy act target value ts tmpl s) in
      after_one-confined target i act (results ++ out.0.0 ∷ []) out.0.1 _ out.1 h'
        (run_loop-confined policy target value ts tmpl (suc i) rest _ out.1 h')

  -- RunRange within the bounds of the pipeline is its loop, after a reading of the clock.
  pub run_range-within :
      (policy : ReactivePolicy) (target : Target) (value : String) (from to : ℕ) (s : Run W)
      → from < to
      → to ≤ length policy.spec.actions
      → run_range p plugins policy target value (pos from) (pos to) s ≡ (
          let ts = (p.now s.outside).0 in
          run_loop p plugins policy target value ts
            (template_data p plugins policy target value ts)
            from
            (take (to - from) (drop from policy.spec.actions))
            []
            (record s { outside = (p.now s.outside).1 }))
  unfolding run_range
  run_range-within policy target value from to s low high =
      let n = length policy.spec.actions in
      let e1 : ltb_ℤ (pos from) (pos 0) ≡ false = ground arith in
      let e2 : ltb_ℤ (pos n) (pos to) ≡ false = ground arith in
      let e3 : leb_ℤ (pos to) (pos from) ≡ false = ground arith in rw (e1, e2, e3) refl

  pub run_range_empty :
      (policy : ReactivePolicy) (target : Target) (value : String) (from : ℕ) (s : Run W)
      → from ≤ length policy.spec.actions
      → run_range p plugins policy target value (pos from) (pos from) s ≡ (([], none), s)
  unfolding run_range
  run_range_empty policy target value from s high =
      let n = length policy.spec.actions in
      let e1 : ltb_ℤ (pos from) (pos 0) ≡ false = ground arith in
      let e2 : ltb_ℤ (pos n) (pos from) ≡ false = ground arith in
      let e3 : leb_ℤ (pos from) (pos from) ≡ true = ground arith in rw (e1, e2, e3) refl

  -- Every result of RunRange is for the target that it was given.
  pub run_range-confined :
      (policy : ReactivePolicy) (target : Target) (value : String) (from to : ℕ) (s : Run W)
      → from ≤ to
      → to ≤ length policy.spec.actions
      → All
          (λ (r : Result). r.target ≡ target)
          (run_range p plugins policy target value (pos from) (pos to) s).0.0
  run_range-confined policy target value from to s low high = elim (dec_lt from to) [
    | yes h ↦ rw (run_range-within policy target value from to s h high) (
        run_loop-confined policy target value _ _ from
          (take (to - from) (drop from policy.spec.actions)) [] _ tt)
    | no h ↦
        let same : to ≡ from = omega arith in
        rw (same, run_range_empty policy target value from s (omega arith)) tt
  ]
