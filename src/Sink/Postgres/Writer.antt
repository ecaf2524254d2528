-- ===== src/Sink/Postgres/Writer.antt =====
-- internal/audit/sink/postgres/pgxwriter.go: the statements that are sent to the database, and the
-- rows that they leave by `ON CONFLICT (audit_uid, action_index) DO NOTHING`. The connection is
-- pgx's.
use reactive_policy.Common.{
  ℕ, suc, ℤ, leb_ℤ, String, List, [], ◌∷◌, map, Option, none, some, Bool, ◌&&◌, Error, Fallible, ok,
  err, str_eq, if◌then◌else◌,
}
use reactive_policy.Platform.{Platform, wrap}
use reactive_policy.Sink.{Event, RevertEvent}
use reactive_policy.Sink.Postgres.{PostgresSink, new_sink}

-- insertExecutionSQL and insertRevertSQL with their arguments
pub data Statement : Type 0 where
  insert_execution : Event → Statement
  insert_revert : RevertEvent → Statement

-- pgxpool.Pool. A batch is answered by what each call of Exec on its results returns.
pub record Pool (W : Type 0) : Type 0 where
  pub ping : W → Option Error × W
  pub apply_schema : W → Option Error × W
  pub send_batch : List Statement → W → (ℕ → Option Error) × W
  pub close : W → W

-- `len(e.DetailsJSON) > 0`, or else NULL
abbrev pub or_null_json : Option String → Option String
or_null_json none = none
or_null_json (some raw) = if str_eq raw "" then none else some raw

abbrev pub row_of : Event → Event
row_of e = record e { details_json = or_null_json e.details_json }

abbrev pub execution_statements : List Event → List Statement
execution_statements = map (λ (e : Event). Statement.insert_execution (row_of e))

abbrev pub revert_statements : List RevertEvent → List Statement
revert_statements = map (λ (e : RevertEvent). Statement.insert_revert e)

abbrev pub or_later : Option Error → Option Error → Option Error
or_later (some failure) later = some failure
or_later none later = later

-- The loop over the results: one Exec for each event, from the `i`-th
unfoldable pub first_failure : {A : Type 0} → (ℕ → Option Error) → ℕ → List A → Option Error
first_failure exec i [] = none
first_failure exec i (e ∷ rest) = or_later (exec i) (first_failure exec (suc i) rest)

module _ {W F : Type 0} (p : Platform W F) where
  abbrev wrap_failure : String → Option Error → Option Error
  wrap_failure format none = none
  wrap_failure format (some e) = some (wrap p format [] e)

  module _ (pool : Pool W) where
    -- writeTriggers
    unfoldable pub write_triggers : List Event → W → Option Error × W
    unfolding first_failure
    write_triggers events w =
        let (exec, w') = pool.send_batch (execution_statements events) w in
        (wrap_failure "postgres sink: insert executions: %w" (first_failure exec 0 events), w')

    -- writeReverts
    unfoldable pub write_reverts : List RevertEvent → W → Option Error × W
    unfolding first_failure
    write_reverts events w =
        let (exec, w') = pool.send_batch (revert_statements events) w in
        (wrap_failure "postgres sink: insert reverts: %w" (first_failure exec 0 events), w')

  abbrev unless :
      {A : Type 0} → Pool W → String → Option Error → (W → Fallible A × W) → W → Fallible A × W
  unless pool format (some e) next w = (err (wrap p format [] e), pool.close w)
  unless pool format none next w = next w

  abbrev prepared : ℤ → Pool W → W → Fallible (PostgresSink × Pool W) × W
  prepared queue_size pool w =
      let (ping, w1) = pool.ping w in
      unless pool "postgres sink: ping: %w" ping
        (λ w1.
          let (schema, w2) = pool.apply_schema w1 in
          unless pool "postgres sink: applying schema: %w" schema
            (λ w2. (ok (new_sink queue_size, pool), w2)) w2)
        w1

  -- New; `connect` is pgxpool.New on the DSN
  unfoldable pub new_postgres :
      (W → Fallible (Pool W) × W) → ℤ → W → Fallible (PostgresSink × Pool W) × W
  unfolding new_sink
  new_postgres connect queue_size w =
      let (answer, w') = connect w in
      elim answer [
        | err e ↦ (err (wrap p "postgres sink: connecting: %w" [] e), w')
        | ok pool ↦ prepared queue_size pool w'
      ]

-- A table that is unique in the audit's UID and the index of the action
module _ {R : Type 0} (uid : R → String) (index : R → ℤ) where
  abbrev pub at_key : String → ℤ → R → Bool
  at_key u i row = str_eq (uid row) u && (leb_ℤ (index row) i && leb_ℤ i (index row))

  unfoldable pub find_row : String → ℤ → List R → Option R
  find_row u i [] = none
  find_row u i (row ∷ rest) = if at_key u i row then some row else find_row u i rest

  -- INSERT … ON CONFLICT (audit_uid, action_index) DO NOTHING
  unfoldable pub insert_row : R → List R → List R
  insert_row new [] = new ∷ []
  insert_row new (row ∷ rest) =
      if at_key (uid new) (index new) row then row ∷ rest else row ∷ insert_row new rest

  unfoldable pub insert_rows : List R → List R → List R
  unfolding insert_row
  insert_rows [] rows = rows
  insert_rows (new ∷ rest) rows = insert_rows rest (insert_row new rows)

-- The two tables after a batch
pub record Tables : Type 0 where
  pub executions : List Event
  pub reverts : List RevertEvent

abbrev pub run_statement : Statement → Tables → Tables
run_statement (Statement.insert_execution e) t = record t {
  executions =
      insert_row (λ (r : Event). r.audit_uid) (λ (r : Event). r.action_index) e t.executions;
}
run_statement (Statement.insert_revert e) t = record t {
  reverts =
      insert_row (λ (r : RevertEvent). r.audit_uid) (λ (r : RevertEvent). r.action_index) e
        t.reverts;
}

unfoldable pub run_batch : List Statement → Tables → Tables
unfolding insert_row
run_batch [] t = t
run_batch (s ∷ rest) t = run_batch rest (run_statement s t)
