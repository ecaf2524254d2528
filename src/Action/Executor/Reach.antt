-- ===== src/Action/Executor/Reach.antt =====
-- Which targets the plugins of a pipeline are handed: plugins that agree on the target of a pipeline
-- cannot be told apart by it.
use reactive_policy.Common.{
  ℕ, suc, ◌-◌, ◌≤◌, pos, Time, time_sub, String, List, [], ◌∷◌, ◌++◌, Option, none, some, Assoc,
  Error, Act, All, length, take, drop, ◌≡◌, refl, sym, subst, ◌∙◌, arith,
}
use native.Mathlib.Decide.{dec_lt}
use reactive_policy.Api.{ReactivePolicy, FailurePolicy}
use reactive_policy.Api.Policy.{Action}
use reactive_policy.Metrics.{observe_action_duration, record_action}
use reactive_policy.Platform.{Platform}
use reactive_policy.Action.Types.{Target, Result, ExecuteInput, Plugin, Details}
use reactive_policy.Action.Registry.{lookup_plugin}
use reactive_policy.Action.Executor.{
  Run, run_one, normalize, roll_back_one, rollback, run_loop, run_range, after_one, on_failed,
  template_data, input_of, status_text,
}
use reactive_policy.Action.Executor.Aimed.{
  All-snoc, run_one-target, run_range-within, run_range_empty,
}

-- Two plugins with one name that do the same with the targets that have the property, or none.
abbrev pub Agree : {W : Type 0} → (Target → Type 0) → Option (Plugin W) → Option (Plugin W) → Type 0
Agree P none none = Unit
Agree {W} P (some a) (some b) =
    (a.name ≡ b.name)
    × ((input : ExecuteInput) (w : W) → P input.target → a.execute input w ≡ b.execute input w)
    × ((res : Result) (w : W) → P res.target → a.reverse res w ≡ b.reverse res w)
Agree P _ _ = ⊥

module _ {W F : Type 0} (p : Platform W F) (plugins others : Assoc (Plugin W)) (P : Target → Type 0)
    (agree : (name : String)
      → Agree P (lookup_plugin plugins name) (lookup_plugin others name)) where
  -- What runOne does with what the plugin `name` after_execute
  abbrev after_execute :
      Plugin W
      → Target
      → Run W
      → String
      → (Result × Option Error) × W
      → (Result × Option Error) × Run W
  after_execute plugin target s name out =
      let (finish, w) = p.now out.1 in
      let m = observe_action_duration name (time_sub finish (p.now s.outside).0) s.metrics in
      let (res, r) =
        normalize p others (record plugin { name = name }) target out.0
          (record { outside = w; metrics = m }) in
      (
        (res, out.0.1),
        record r { metrics = record_action name target.kind (status_text res.status) r.metrics },
      )

  run_one-Agree :
      (policy : ReactivePolicy) (act : Action) (target : Target) (value : String) (ts : Time)
      (tmpl : Details) (s : Run W)
      → P target
      → run_one p plugins policy act target value ts tmpl s
        ≡ run_one p others policy act target value ts tmpl s
  unfolding run_one normalize
  run_one-Agree policy act target value ts tmpl s good =
      go (lookup_plugin plugins act.plugin) (lookup_plugin others act.plugin) refl refl
        (agree act.plugin)
    where
      go :
          (a b : Option (Plugin W))
          → lookup_plugin plugins act.plugin ≡ a
          → lookup_plugin others act.plugin ≡ b
          → Agree P a b
          → run_one p plugins policy act target value ts tmpl s
            ≡ run_one p others policy act target value ts tmpl s
      go none none ea eb h = rw (run_one, ea, eb) refl
      go (some a) (some b) ea eb (named, executes, reverses) =
          let input = input_of p plugins policy act target value ts tmpl in
          let same = executes input (p.now s.outside).1 good in
          rw (run_one, ea, eb) (λ i. after_execute b target s (named i) (same i))
      go none (some b) ea eb h = absurd h
      go (some a) none ea eb h = absurd h

  roll_back_one-Agree :
      (res : Result) (s : Run W)
      → P res.target
      → roll_back_one p plugins res s ≡ roll_back_one p others res s
  unfolding roll_back_one
  roll_back_one-Agree res s good =
      go (lookup_plugin plugins res.plugin_name) (lookup_plugin others res.plugin_name) refl refl
        (agree res.plugin_name)
    where
      go :
          (a b : Option (Plugin W))
          → lookup_plugin plugins res.plugin_name ≡ a
          → lookup_plugin others res.plugin_name ≡ b
          → Agree P a b
          → roll_back_one p plugins res s ≡ roll_back_one p others res s
      go none none ea eb h = rw (roll_back_one, ea, eb) refl
      go (some a) (some b) ea eb (named, executes, reverses) =
          rw (roll_back_one, ea, eb) (ground (arith, reverses res s.outside good))
      go none (some b) ea eb h = absurd h
      go (some a) none ea eb h = absurd h

  rollback-Agree :
      (results : List Result) (s : Run W)
      → All (λ (r : Result). P r.target) results
      → rollback p plugins results s ≡ rollback p others results s
  unfolding rollback
  rollback-Agree [] s h = refl
  rollback-Agree (res ∷ rest) s (good, h) =
      rw (rollback-Agree rest s h, roll_back_one-Agree res (rollback p others rest s).1 good) refl

  after_one-Agree :
      (i : ℕ) (act : Action) (results : List Result) (o : Option Error)
      (go_on go_on' : Act (Run W) (List Result × Option Error)) (s : Run W)
      → All (λ (r : Result). P r.target) results
      → go_on s ≡ go_on' s
      → after_one p plugins o i act results go_on s ≡ after_one p others o i act results go_on' s
  unfolding after_one
  after_one-Agree i act results none go_on go_on' s h next = next
  after_one-Agree i act results (some e) go_on go_on' s h next = go act.on_failure
    where
      go :
          (f : FailurePolicy)
          → on_failed p plugins f i act e results go_on s
            ≡ on_failed p others f i act e results go_on' s
      go FailurePolicy.continue = next
      go FailurePolicy.rollback = rw (rollback-Agree results s h) refl
      go _ = refl

  run_loop-Agree :
      (policy : ReactivePolicy) (target : Target) (value : String) (ts : Time) (tmpl : Details)
      (i : ℕ) (acts : List Action) (results : List Result) (s : Run W)
      → P target
      → All (λ (r : Result). P r.target) results
      → run_loop p plugins policy target value ts tmpl i acts results s
        ≡ run_loop p others policy target value ts tmpl i acts results s
  unfolding run_loop
  run_loop-Agree policy target value ts tmpl i [] results s good h = refl
  run_loop-Agree policy target value ts tmpl i (act ∷ rest) results s good h =
      let out = run_one p others policy act target value ts tmpl s in
      let results' = results ++ out.0.0 ∷ [] in
      let h' =
        All-snoc p others (λ r. P r.target) results out.0.0 h
          (subst P (sym (run_one-target p others policy act target value ts tmpl s)) good) in
      rw (run_one-Agree policy act target value ts tmpl s good) (
        after_one-Agree i act results' out.0.1 _ _ out.1 h'
          (run_loop-Agree policy target value ts tmpl (suc i) rest results' out.1 good h'))

  -- RunRange hands its target to the plugins, and no other one.
  pub run_range-Agree :
      (policy : ReactivePolicy) (target : Target) (value : String) (from to : ℕ) (s : Run W)
      → from ≤ to
      → to ≤ length policy.spec.actions
      → P target
      → run_range p plugins policy target value (pos from) (pos to) s
        ≡ run_range p others policy target value (pos from) (pos to) s
  unfolding template_data
  run_range-Agree policy target value from to s low high good = elim (dec_lt from to) [
    | yes h ↦
        run_range-within p plugins policy target value from to s h high
        ∙ run_loop-Agree policy target value _ _ from
            (take (to - from) (drop from policy.spec.actions)) [] _ good tt
        ∙ sym (run_range-within p others policy target value from to s h high)
    | no h ↦
        let same : to ≡ from = omega arith in
        rw (same, run_range_empty p plugins policy target value from s (omega arith))
          (sym (run_range_empty p others policy target value from s (omega arith)))
  ]
