-- ===== src/Action/Executor/Rollback.antt =====
-- What a rollback does to the cluster and to the results.
use reactive_policy.Common.{
  List, [], ◌∷◌, ◌++◌, none, some, Assoc, map, keep_if, reverse, ◌≡◌, refl, ap, ◌∙◌, arith,
  Bool-cases, inl, inr, if◌then◌else◌,
}
use mathlib.Core.Path.{ap₂}
use mathlib.Core.List.{reverse-append}
use reactive_policy.Api.{ResultStatus}
use reactive_policy.Platform.{Platform}
use reactive_policy.Action.Types.{Result, Plugin}
use reactive_policy.Action.Registry.{lookup_plugin}
use reactive_policy.Action.Executor.{Run, roll_back_one, rollback, annotate, is_succeeded}

module _ {W : Type 0} (plugins : Assoc (Plugin W)) where
  -- The specification: the plugin's Reverse on one result, if the plugin is registered.
  abbrev pub undo : Result → W → W
  undo res w = elim (lookup_plugin plugins res.plugin_name) [
    | none ↦ w
    | some plugin ↦ (plugin.reverse res w).1
  ]

  abbrev pub undo_all : List Result → W → W
  undo_all [] w = w
  undo_all (res ∷ rest) w = undo_all rest (undo res w)

  undo_all-append :
      (xs ys : List Result) (w : W) → undo_all (xs ++ ys) w ≡ undo_all ys (undo_all xs w)
  undo_all-append [] ys w = refl
  undo_all-append (x ∷ xs) ys w = undo_all-append xs ys (undo x w)

  undo_all-reverse :
      (x : Result) (xs : List Result) (w : W)
      → undo_all (reverse (x ∷ xs)) w ≡ undo x (undo_all (reverse xs) w)
  undo_all-reverse x xs w =
      rw (reverse-append (x ∷ []) xs) (undo_all-append (reverse xs) (x ∷ []) w)

-- The results whose action succeeded.
abbrev pub succeeded : List Result → List Result
succeeded results = keep_if (λ (r : Result). is_succeeded r.status) results

module _ {W F : Type 0} (p : Platform W F) (plugins : Assoc (Plugin W)) where
  roll_back_one-outside :
      (res : Result) (s : Run W)
      → (roll_back_one p plugins res s).1.outside
        ≡ (if is_succeeded res.status then undo plugins res s.outside else s.outside)
  unfolding roll_back_one
  roll_back_one-outside res s = ground arith

  roll_back_one-metrics :
      (res : Result) (s : Run W) → (roll_back_one p plugins res s).1.metrics ≡ s.metrics
  unfolding roll_back_one
  roll_back_one-metrics res s = ground arith

  roll_back_one-status :
      (res : Result) (s : Run W) → (roll_back_one p plugins res s).0.status ≡ res.status
  unfolding roll_back_one annotate
  roll_back_one-status res s = ground arith

  rollback-outside :
      (results : List Result) (s : Run W)
      → (rollback p plugins results s).1.outside
        ≡ undo_all plugins (reverse (succeeded results)) s.outside
  unfolding rollback
  rollback-outside [] s = refl
  rollback-outside (res ∷ rest) s = elim (Bool-cases (is_succeeded res.status)) [
    | inl e ↦
        rw (roll_back_one-outside, e)
          (rw (undo_all-reverse plugins res (succeeded rest) s.outside)
            (ap (undo plugins res) (rollback-outside rest s)))
    | inr e ↦ rw (roll_back_one-outside, e) (rollback-outside rest s)
  ]

  rollback-status :
      (results : List Result) (s : Run W)
      → map (λ (r : Result). r.status) (rollback p plugins results s).0
        ≡ map (λ (r : Result). r.status) results
  unfolding rollback
  rollback-status [] s = refl
  rollback-status (res ∷ rest) s =
      ap₂ {A = ResultStatus} (λ x xs. x ∷ xs) (roll_back_one-status res _) (rollback-status rest s)

  rollback-metrics :
      (results : List Result) (s : Run W) → (rollback p plugins results s).1.metrics ≡ s.metrics
  unfolding rollback
  rollback-metrics [] s = refl
  rollback-metrics (res ∷ rest) s = roll_back_one-metrics res _ ∙ rollback-metrics rest s

  -- A rollback reverses, from the last result to the first, exactly the results that succeeded and
  -- whose plugin is registered; an error of one does not stop the others. It leaves the metrics and
  -- the status of every result, so a reversed action still reads as succeeded.
  pub rollback_lem :
      (results : List Result) (s : Run W)
      → let out = rollback p plugins results s in
        (out.1.outside ≡ undo_all plugins (reverse (succeeded results)) s.outside)
        × (out.1.metrics ≡ s.metrics)
        × (map (λ (r : Result). r.status) out.0 ≡ map (λ (r : Result). r.status) results)
  rollback_lem results s =
      (rollback-outside results s, rollback-metrics results s, rollback-status results s)
