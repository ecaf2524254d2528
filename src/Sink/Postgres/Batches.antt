-- ===== src/Sink/Postgres/Batches.antt =====
-- internal/audit/sink/postgres/pgxwriter.go: writeTriggers and writeReverts on a database that takes
-- a batch as a whole or not at all.
use reactive_policy.Common.{
  ℕ, suc, ℤ, String, List, [], ◌∷◌, map, Option, none, some, Error, ◌≡◌, refl, sym, ap, ◌∙◌, inl,
  inr, Option-cases, subst,
}
use reactive_policy.Platform.{Platform}
use reactive_policy.Sink.{Event, RevertEvent}
use reactive_policy.Sink.Postgres.Writer.{
  Statement, Pool, row_of, execution_statements, revert_statements, first_failure, or_later,
  write_triggers, find_row, insert_rows, Tables, run_batch,
}
use reactive_policy.Sink.Postgres.Rows.{
  first_of, Distinct, find_row-insert_rows, insert_rows_twice, insert_rows-Distinct,
}

abbrev pub find_execution : String → ℤ → List Event → Option Event
find_execution = find_row (λ (r : Event). r.audit_uid) (λ (r : Event). r.action_index)

-- No action of an audit has two rows.
abbrev pub DistinctActions : List Event → Type 0
DistinctActions = Distinct (λ (r : Event). r.audit_uid) (λ (r : Event). r.action_index)

abbrev insert_executions : List Event → List Event → List Event
insert_executions = insert_rows (λ (r : Event). r.audit_uid) (λ (r : Event). r.action_index)

abbrev insert_reverts : List RevertEvent → List RevertEvent → List RevertEvent
insert_reverts =
    insert_rows (λ (r : RevertEvent). r.audit_uid) (λ (r : RevertEvent). r.action_index)

-- What pgx and the database document of a batch: it is one transaction. `tables` is what a state of
-- the outside holds.
pub record IsTransactional {W : Type 0} (pool : Pool W) (tables : W → Tables) : Type 0 where
  pub committed :
      (batch : List Statement) (w : W)
      → first_failure (pool.send_batch batch w).0 0 batch ≡ none
      → tables (pool.send_batch batch w).1 ≡ run_batch batch (tables w)
  pub rolled_back :
      (batch : List Statement) (w : W) (e : Error)
      → first_failure (pool.send_batch batch w).0 0 batch ≡ some e
      → tables (pool.send_batch batch w).1 ≡ tables w

first_failure-map :
    {A B : Type 0} (f : A → B) (exec : ℕ → Option Error) (i : ℕ) (xs : List A)
    → first_failure exec i (map f xs) ≡ first_failure exec i xs
unfolding first_failure
first_failure-map f exec i [] = refl
first_failure-map f exec i (x ∷ xs) = ap (or_later (exec i)) (first_failure-map f exec (suc i) xs)

run_batch-executions :
    (events : List Event) (t : Tables)
    → run_batch (execution_statements events) t
      ≡ record t { executions = insert_executions (map row_of events) t.executions }
unfolding run_batch insert_rows
run_batch-executions [] t = refl
run_batch-executions (e ∷ rest) t = run_batch-executions rest _

run_batch-reverts :
    (events : List RevertEvent) (t : Tables)
    → run_batch (revert_statements events) t
      ≡ record t { reverts = insert_reverts events t.reverts }
unfolding run_batch insert_rows
run_batch-reverts [] t = refl
run_batch-reverts (e ∷ rest) t = run_batch-reverts rest _

module _ {W F : Type 0} (p : Platform W F) (pool : Pool W) (tables : W → Tables)
    (one : IsTransactional pool tables) where
  abbrev WrittenTriggers : List Event → W → Option Error → Type 0
  WrittenTriggers events w none = tables (write_triggers p pool events w).1 ≡ record (tables w) {
    executions = insert_executions (map row_of events) (tables w).executions;
  }
  WrittenTriggers events w (some e) = tables (write_triggers p pool events w).1 ≡ tables w

  write_triggers-Written :
      (events : List Event) (w : W) → WrittenTriggers events w (write_triggers p pool events w).0
  unfolding write_triggers
  write_triggers-Written events w =
      let batch = execution_statements events in
      let exec = (pool.send_batch batch w).0 in
      let same =
        first_failure-map (λ (e : Event). Statement.insert_execution (row_of e)) exec 0 events in
      elim (Option-cases (first_failure exec 0 events)) [
        | inl e ↦ rw e (one.committed batch w (same ∙ e) ∙ run_batch-executions events (tables w))
        | inr (failure, e) ↦ rw e (one.rolled_back batch w failure (same ∙ e))
      ]

  -- A batch of events that is written leaves, under every key, the row that was there, and if there
  -- was none the first of the batch's; one that fails leaves the rows as they were. The reverts are
  -- untouched.
  pub find_row-write_triggers :
      (events : List Event) (w : W) (uid : String) (index : ℤ)
      → let (answer, w') = write_triggers p pool events w in
        (find_execution uid index (tables w').executions ≡ elim answer [
          | none ↦
              first_of
                (find_execution uid index (tables w).executions)
                (find_execution uid index (map row_of events))
          | some e ↦ find_execution uid index (tables w).executions
        ])
        × ((tables w').reverts ≡ (tables w).reverts)
  find_row-write_triggers events w uid index =
      let how = write_triggers-Written events w in
      elim (Option-cases (write_triggers p pool events w).0) [
        | inl e ↦
            let done = rw e at how in
            (
              rw e (
                  ap (λ (t : Tables). find_execution uid index t.executions) done
                  ∙ find_row-insert_rows _ _ uid index (map row_of events) (tables w).executions),
              ap (λ (t : Tables). t.reverts) done,
            )
        | inr (failure, e) ↦
            let kept = rw e at how in
            (
              rw e (ap (λ (t : Tables). find_execution uid index t.executions) kept),
              ap (λ (t : Tables). t.reverts) kept,
            )
      ]

  again_same :
      (events : List Event) (w : W)
      → (write_triggers p pool events w).0 ≡ none
      → let w1 = (write_triggers p pool events w).1 in
        tables (write_triggers p pool events w1).1 ≡ tables w1
  again_same events w e =
      let w1 = (write_triggers p pool events w).1 in
      let first = write_triggers-Written events w in
      let done = rw e at first in
      let how = write_triggers-Written events w1 in
      elim (Option-cases (write_triggers p pool events w1).0) [
        | inl e' ↦
            let again = rw e' at how in
            again
            ∙ ap
                (λ (t : Tables). record t {
                  executions = insert_executions (map row_of events) t.executions;
                })
                done
            ∙ ap (λ rows. record (tables w) { executions = rows })
                (insert_rows_twice _ _ (map row_of events) (tables w).executions)
            ∙ sym done
        | inr (failure, e') ↦ rw e' at how
      ]

  -- A batch of events that is written to tables in which no action of an audit has two rows leaves
  -- tables of which that still holds; and if it is sent again, with whatever answer, they stay as
  -- they are.
  pub write_triggers_again :
      (events : List Event) (w : W)
      → (write_triggers p pool events w).0 ≡ none
      → DistinctActions (tables w).executions
      → let w1 = (write_triggers p pool events w).1 in
        DistinctActions (tables w1).executions
        × (tables (write_triggers p pool events w1).1 ≡ tables w1)
  write_triggers_again events w e alone =
      let first = write_triggers-Written events w in
      let done = rw e at first in
      (
        subst (λ (t : Tables). DistinctActions t.executions) (sym done)
            (insert_rows-Distinct _ _ (map row_of events) (tables w).executions alone),
        again_same events w e,
      )
