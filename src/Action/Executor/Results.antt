-- ===== src/Action/Executor/Results.antt =====
-- What RunRange returns: which actions ran, and how the first failure that is not passed over ends
-- it.
use reactive_policy.Common.{
  ℕ, suc, ◌-◌, ◌≤◌, ◌<◌, pos, Time, String, List, [], ◌∷◌, ◌++◌, Option, none, some, Assoc, Error,
  length, take, drop, Act, ◌≡◌, refl, ◌≢◌, inl, inr, ap, ◌∙◌, sym, subst, ◌⊎◌, append_assoc,
  append-nil,
}
use reactive_policy.Api.{ReactivePolicy, FailurePolicy}
use reactive_policy.Api.Policy.{Action}
use reactive_policy.Platform.{Platform}
use reactive_policy.Action.Types.{Target, Result, Plugin, Details}
use reactive_policy.Action.Executor.{
  Run, run_one, rollback, run_loop, run_range, after_one, on_failed, template_data,
}
use reactive_policy.Action.Executor.Aimed.{run_range-within}

module _ {W F : Type 0} (p : Platform W F) (plugins : Assoc (Plugin W)) where
  module _ (policy : ReactivePolicy) (target : Target) (value : String) (ts : Time)
      (tmpl : Details) where
    abbrev attempt : Action → Run W → (Result × Option Error) × Run W
    attempt act s = run_one p plugins policy act target value ts tmpl s

    -- The actions ran one after another, from one state to the other, with these results; each of
    -- them succeeded, or its failures are to be passed over.
    abbrev pub Passed : List Action → Run W → List Result → Run W → Type 0
    Passed [] s results s' = (results ≡ []) × (s ≡ s')
    Passed (act ∷ acts) s [] s' = ⊥
    Passed (act ∷ acts) s (r ∷ results) s' =
        let out = attempt act s in
        (out.0.0 ≡ r)
        × ((out.0.1 ≡ none) ⊎ (act.on_failure ≡ FailurePolicy.continue))
        × Passed acts out.1 results s'

    -- All actions ran, and there is no error.
    abbrev RanThrough :
        List Action → Run W → List Result → (List Result × Option Error) × Run W → Type 0
    RanThrough acts s before out =
        (results : List Result) × Passed acts s results out.1 × (out.0 ≡ (before ++ results, none))

    -- What is returned after an action that failed and may not: the results, or what the rollback
    -- makes of them, and an error.
    abbrev GivenUp : Action → List Result → Run W → (List Result × Option Error) × Run W → Type 0
    GivenUp act results s out =
        (error : Error) × ((act.on_failure ≡ FailurePolicy.rollback)
            × (out ≡ (
              ((rollback p plugins results s).0, some error),
              (rollback p plugins results s).1,
            ))
          ⊎ (act.on_failure ≢ FailurePolicy.rollback) × (out ≡ ((results, some error), s)))

    -- The actions up to one that failed and may not fail ran, and those after it did not.
    pub record StoppedAt (acts : List Action) (s : Run W) (before : List Result)
        (out : (List Result × Option Error) × Run W) : Type 0 where
      pub passed : List Action
      pub act : Action
      pub rest : List Action
      pub split : acts ≡ passed ++ act ∷ rest
      pub results : List Result
      pub then : Run W
      pub went : Passed passed s results then
      pub failure : Error
      pub failed : (attempt act then).0.1 ≡ some failure
      pub hard : act.on_failure ≢ FailurePolicy.continue
      pub ended :
          GivenUp act (before ++ (results ++ (attempt act then).0.0 ∷ [])) (attempt act then).1 out

    abbrev pub Outcome :
        List Action → Run W → List Result → (List Result × Option Error) × Run W → Type 0
    Outcome acts s before out = RanThrough acts s before out ⊎ StoppedAt acts s before out

    Outcome-next :
        (act : Action) (rest : List Action) (before : List Result) (s : Run W)
        (out : (List Result × Option Error) × Run W)
        → ((attempt act s).0.1 ≡ none) ⊎ (act.on_failure ≡ FailurePolicy.continue)
        → Outcome rest (attempt act s).1 (before ++ (attempt act s).0.0 ∷ []) out
        → Outcome (act ∷ rest) s before out
    Outcome-next act rest before s out soft (inl (results, went, done)) =
        let r = (attempt act s).0.0 in
        inl (
          r ∷ results,
          (refl, soft, went),
          done ∙ ap (λ rs. (rs, none)) (append_assoc before (r ∷ []) results),
        )
    Outcome-next act rest before s out soft (inr h) =
        let r = (attempt act s).0.0 in
        inr (record {
          passed = act ∷ h.passed;
          act = h.act;
          rest = h.rest;
          split = ap (λ more. act ∷ more) h.split;
          results = r ∷ h.results;
          then = h.then;
          went = (refl, soft, h.went);
          failure = h.failure;
          failed = h.failed;
          hard = h.hard;
          ended =
              subst (λ rs. GivenUp h.act rs (attempt h.act h.then).1 out)
                (append_assoc before (r ∷ []) (h.results ++ (attempt h.act h.then).0.0 ∷ []))
                h.ended;
        })

    Outcome-stop :
        (act : Action) (rest : List Action) (before : List Result) (s : Run W) (failure : Error)
        (out : (List Result × Option Error) × Run W)
        → (attempt act s).0.1 ≡ some failure
        → act.on_failure ≢ FailurePolicy.continue
        → GivenUp act (before ++ (attempt act s).0.0 ∷ []) (attempt act s).1 out
        → Outcome (act ∷ rest) s before out
    Outcome-stop act rest before s failure out failed hard ended = inr (record {
      passed = [];
      act = act;
      rest = rest;
      split = refl;
      results = [];
      then = s;
      went = (refl, refl);
      failure = failure;
      failed = failed;
      hard = hard;
      ended = ended;
    })

    after_one-Outcome :
        (i : ℕ) (act : Action) (rest : List Action) (before : List Result) (s : Run W)
        (o : Option Error)
        → (attempt act s).0.1 ≡ o
        → (go_on : Act (Run W) (List Result × Option Error))
        → let s' = (attempt act s).1 in
          let before' = before ++ (attempt act s).0.0 ∷ [] in
          Outcome rest s' before' (go_on s')
          → Outcome (act ∷ rest) s before (after_one p plugins o i act before' go_on s')
    unfolding after_one
    after_one-Outcome i act rest before s none e go_on next =
        Outcome-next act rest before s _ (inl e) next
    after_one-Outcome i act rest before s (some failure) e go_on next = go act.on_failure refl
      where
        go :
            (f : FailurePolicy)
            → act.on_failure ≡ f
            → Outcome (act ∷ rest) s before (
                on_failed p plugins f i act failure
                  (before ++ (attempt act s).0.0 ∷ [])
                  go_on
                  (attempt act s).1)
        go FailurePolicy.continue q = Outcome-next act rest before s _ (inr q) next
        go FailurePolicy.rollback q =
            Outcome-stop act rest before s failure _ e (λ r. cc) (_, inl (q, refl))
        go _ q = Outcome-stop act rest before s failure _ e (λ r. cc) (_, inr ((λ r. cc), refl))

    run_loop-Outcome :
        (i : ℕ) (acts : List Action) (before : List Result) (s : Run W)
        → Outcome acts s before (run_loop p plugins policy target value ts tmpl i acts before s)
    unfolding run_loop
    run_loop-Outcome i [] before s =
        inl ([], (refl, refl), ap (λ rs. (rs, none)) (sym (append-nil before)))
    run_loop-Outcome i (act ∷ rest) before s =
        after_one-Outcome i act rest before s _ refl _
          (run_loop-Outcome (suc i) rest (before ++ (attempt act s).0.0 ∷ []) (attempt act s).1)

  -- RunRange over [from, to), within the pipeline, after a reading of the clock. Either all actions
  -- of the range ran in their order, each of them succeeded or has the onFailure `continue`, and
  -- their results are returned without an error. Or it ended with an error at an action that failed
  -- and has another onFailure: those before it ran and succeeded or had `continue`, those after it
  -- did not run, and the results up to it are returned, rolled back if its onFailure says so.
  pub run_range-Outcome :
      (policy : ReactivePolicy) (target : Target) (value : String) (from to : ℕ) (s : Run W)
      → from < to
      → to ≤ length policy.spec.actions
      → let ts = (p.now s.outside).0 in
        Outcome policy target value ts
          (template_data p plugins policy target value ts)
          (take (to - from) (drop from policy.spec.actions))
          (record s { outside = (p.now s.outside).1 })
          []
          (run_range p plugins policy target value (pos from) (pos to) s)
  run_range-Outcome policy target value from to s low high =
      rw (run_range-within p plugins policy target value from to s low high) (
        run_loop-Outcome policy target value _ _ from
          (take (to - from) (drop from policy.spec.actions)) [] _)
