-- ===== src/Examples/Store.antt =====
-- The PostgreSQL writer at work on the lab's tables.
use reactive_policy.Common.{ℕ, suc, pos, List, [], ◌∷◌, map, none, some, ◌≡◌, refl, arith}
use reactive_policy.Sink.{Event}
use reactive_policy.Sink.Postgres.Writer.{
  Statement, Pool, row_of, first_failure, find_row, run_batch, write_triggers,
}
use reactive_policy.Sink.Postgres.Rows.{first_of}
use reactive_policy.Sink.Postgres.Batches.{
  IsTransactional, DistinctActions, find_execution, find_row-write_triggers, write_triggers_again,
}
use reactive_policy.Examples.Lab.{Lab, lab, lab_platform}
use reactive_policy.Examples.Queue.{event}

abbrev pool : Pool Lab
pool = record {
  ping = λ w. (none, w);
  apply_schema = λ w. (none, w);
  send_batch = λ batch w. ((λ i. none), record w { store = run_batch batch w.store });
  close = λ w. w;
}

never_fails : (i : ℕ) (batch : List Statement) → first_failure (λ j. none) i batch ≡ none
unfolding first_failure
never_fails i [] = refl
never_fails i (s ∷ rest) = never_fails (suc i) rest

one : IsTransactional pool (λ (w : Lab). w.store)
one = record {
  committed = λ batch w h. refl;
  rolled_back = λ batch w e h. let fine = never_fails 0 batch in ground (arith, fine);
}

-- Two actions of an audit, and the first of them once more under another name.
abbrev batch : List Event
batch =
    event
    ∷ record event { action_index = pos 1; plugin = "notify" }
    ∷ record event { plugin = "late" }
    ∷ []

find_row-write_triggers_example :
    let (answer, w) = write_triggers lab_platform pool batch lab in
    (find_execution "a1" (pos 0) w.store.executions ≡ elim answer [
      | none ↦
          first_of
            (find_execution "a1" (pos 0) lab.store.executions)
            (find_execution "a1" (pos 0) (map row_of batch))
      | some e ↦ find_execution "a1" (pos 0) lab.store.executions
    ])
    × (w.store.reverts ≡ lab.store.reverts)
find_row-write_triggers_example =
    find_row-write_triggers lab_platform pool (λ (w : Lab). w.store) one batch lab "a1" (pos 0)

accepted : (write_triggers lab_platform pool batch lab).0 ≡ none
unfolding write_triggers first_failure
accepted = refl

write_triggers_again_example :
    let w = (write_triggers lab_platform pool batch lab).1 in
    DistinctActions w.store.executions
    × ((write_triggers lab_platform pool batch w).1.store ≡ w.store)
write_triggers_again_example =
    write_triggers_again lab_platform pool (λ (w : Lab). w.store) one batch lab accepted tt

-- The first of the two rows with the same key is kept.
kept :
    find_execution "a1" (pos 0) (write_triggers lab_platform pool batch lab).1.store.executions
    ≡ some (row_of event)
unfolding write_triggers find_row run_batch
kept = refl
