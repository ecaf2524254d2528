-- ===== src/Controller/Audit/Reversal.antt =====
-- What a revert does to the outside and writes down.
use reactive_policy.Common.{
  Time, List, [], ◌∷◌, none, some, true, ◌&&◌, Error, ok, err, is_conflict, reverse, ◌≡◌, refl, ap,
  subst, ◌∙◌, inl, inr, arith, Option-cases, Fallible-cases, if◌then◌else◌,
}
use reactive_policy.Api.{ActionAudit, ActionRecord, RevertResult, ResultStatus}
use reactive_policy.Platform.{Platform}
use reactive_policy.Action.Types.{Plugin}
use reactive_policy.Action.Registry.{lookup_plugin}
use reactive_policy.Action.Executor.{is_succeeded}
use reactive_policy.Controller.AuditWriter.{record_to_result}
use reactive_policy.Controller.System.{System, Answer, Wiring}
use reactive_policy.Controller.Audit.Revert.{reverse_one, reverse_each, revert, reverted, again}

module _ {W F : Type 0} (p : Platform W F) (wiring : Wiring W F) where
  -- The specification: only what succeeded and was recorded as reversible is handed to its plugin.
  abbrev pub undo_record : ActionRecord → W → W
  undo_record rec w =
      if is_succeeded rec.status && rec.reversible
      then elim (lookup_plugin wiring.plugins rec.plugin) [
        | none ↦ w
        | some plugin ↦ (plugin.reverse (record_to_result p wiring.plugins rec) w).1
      ]
      else w

  abbrev pub undo_records : List ActionRecord → W → W
  undo_records [] w = w
  undo_records (rec ∷ rest) w = undo_records rest (undo_record rec w)

  -- The result stands for the record, and claims success only where the plugin was asked and had
  -- no error.
  pub record Answers (rec : ActionRecord) (w : W) (res : RevertResult) : Type 0 where
    pub same_index : res.index ≡ rec.index
    pub same_plugin : res.plugin ≡ rec.plugin
    pub honest :
        res.status ≡ ResultStatus.succeeded
        → (plugin : Plugin W) × (lookup_plugin wiring.plugins rec.plugin ≡ some plugin)
          × ((plugin.reverse (record_to_result p wiring.plugins rec) w).0 ≡ none)

  -- One result for each record, in the order of the records.
  abbrev pub AllAnswer : List ActionRecord → W → List RevertResult → Type 0
  AllAnswer [] w [] = Unit
  AllAnswer [] w (res ∷ results) = ⊥
  AllAnswer (rec ∷ rest) w [] = ⊥
  AllAnswer (rec ∷ rest) w (res ∷ results) =
      Answers rec w res × AllAnswer rest (undo_record rec w) results

  reverse_one-outside :
      (rec : ActionRecord) (s : System W)
      → (reverse_one p wiring rec s).1.run.outside ≡ undo_record rec s.run.outside
  unfolding reverse_one
  reverse_one-outside rec s = ground arith

  reverse_one-Answers :
      (rec : ActionRecord) (s : System W) → Answers rec s.run.outside (reverse_one p wiring rec s).0
  unfolding reverse_one
  reverse_one-Answers rec s = record {
    same_index = ground arith;
    same_plugin = ground arith;
    honest = λ q. elim (Option-cases (lookup_plugin wiring.plugins rec.plugin)) [
      | inl e ↦ ground arith
      | inr (plugin, e) ↦ (plugin, e, ground arith)
    ];
  }

  reverse_each-Answers :
      (records : List ActionRecord) (s : System W)
      → let out = reverse_each p wiring records s in
        AllAnswer records s.run.outside out.0
        × (out.1.run.outside ≡ undo_records records s.run.outside)
  unfolding reverse_each
  reverse_each-Answers [] s = (tt, refl)
  reverse_each-Answers (rec ∷ rest) s =
      let ih = reverse_each-Answers rest (reverse_one p wiring rec s).1 in
      let e = reverse_one-outside rec s in
      ((reverse_one-Answers rec s, rw e at ih.0), ih.1 ∙ ap (undo_records rest) e)

  -- How the revert ends when the reversals left the outside in `w` with these results.
  abbrev pub Written : ActionAudit → Time → System W → List RevertResult → W → Type 0
  Written audit expiry s results w =
      let marked = reverted p wiring audit (p.now w).0 results in
      let written = p.update_audit_status marked (p.now w).1 in
      (marked.status.reverted ≡ true)
      × (marked.status.revert_results ≡ results)
      × ((e : Error)
          → written.0 ≡ err e
          → is_conflict e ≡ true
          → (revert p wiring audit expiry s).0 ≡ ok again)
      × ((stored : ActionAudit)
          → written.0 ≡ ok stored
          → (a : Answer) × ((revert p wiring audit expiry s).0 ≡ ok a))

  revert-Written :
      (audit : ActionAudit) (expiry : Time) (s : System W)
      → let out = reverse_each p wiring (reverse audit.spec.actions) s in
        Written audit expiry s out.0 out.1.run.outside
  unfolding revert
  revert-Written audit expiry s = (
    refl,
    refl,
    λ e bad conflict. ground arith,
    λ stored good. elim (Fallible-cases (revert p wiring audit expiry s).0) [
      | inl a ↦ a
      | inr (e, bad) ↦ ground arith
    ],
  )

  -- A revert goes through the records from the last to the first. Exactly the actions that succeeded
  -- and were recorded as reversible are handed to their plugin's Reverse, if it is registered; there
  -- is one result for each record, and one that says `succeeded` stands for a plugin that was asked
  -- and had no error. The results are what is written to the record's status, which then says that
  -- the record is reverted; and a conflict of that write asks for another round, after the actions
  -- were reversed.
  pub revert_lem :
      (audit : ActionAudit) (expiry : Time) (s : System W)
      → let backwards = reverse audit.spec.actions in
        let w = undo_records backwards s.run.outside in
        (results : List RevertResult) × AllAnswer backwards s.run.outside results
        × Written audit expiry s results w
  revert_lem audit expiry s =
      let backwards = reverse audit.spec.actions in
      let out = reverse_each-Answers backwards s in
      (
        (reverse_each p wiring backwards s).0,
        out.0,
        subst (Written audit expiry s (reverse_each p wiring backwards s).0) out.1
            (revert-Written audit expiry s),
      )
