-- ===== src/Sink/Postgres.antt =====
-- internal/audit/sink/postgres/postgres.go: the queue between the operator and the database. The
-- channel and the worker are a state with one step for each thing that can happen; the database is
-- the list of the calls made on the writer, whose errors the worker only logs.
pub mod Delivery
pub mod Closed
pub mod Writer
pub mod Rows
pub mod Batches
use reactive_policy.Common.{
  ℕ, ltb, ℤ, pos, pos_part, leb_ℤ, String, List, [], ◌∷◌, ◌++◌, Option, none, some, Bool, true,
  false, ◌&&◌, not, Error, ErrorKind, length, if◌then◌else◌,
}
use reactive_policy.Sink.{Event, RevertEvent}

pub record WorkItem : Type 0 where
  pub triggers : List Event
  pub reverts : List RevertEvent

-- A call of writeTriggers or writeReverts.
pub data Write : Type 0 where
  write_triggers : List Event → Write
  write_reverts : List RevertEvent → Write

-- `written` and `queue` have the oldest first; `connected` until the writer is closed.
pub record PostgresSink : Type 0 where
  pub capacity : ℕ
  pub queue : List WorkItem
  pub closed : Bool
  pub written : List Write
  pub connected : Bool

abbrev pub default_queue_size : ℕ
default_queue_size = 1024

-- newSink
unfoldable pub new_sink : ℤ → PostgresSink
new_sink queue_size = record {
  capacity = if leb_ℤ queue_size (pos 0) then default_queue_size else pos_part queue_size;
  queue = [];
  closed = false;
  written = [];
  connected = true;
}

abbrev pub err_backpressure : Error
err_backpressure = record {
  kind = ErrorKind.other;
  message = "audit sink: queue full, dropping batch";
}

-- A send on a closed channel panics, in a select with a default too.
abbrev pub send_on_closed : Error
send_on_closed = record { kind = ErrorKind.panicked; message = "send on closed channel" }

-- The select that sends without waiting: whether the channel is closed, and whether it has room.
unfoldable pub send : Bool → Bool → WorkItem → PostgresSink → Option Error × PostgresSink
send true room item s = (some send_on_closed, s)
send false true item s = (none, record s { queue = s.queue ++ item ∷ [] })
send false false item s = (some err_backpressure, s)

unfoldable pub enqueue : WorkItem → PostgresSink → Option Error × PostgresSink
enqueue item s = send s.closed (ltb (length s.queue) s.capacity) item s

-- RecordTrigger
unfoldable pub record_triggers : List Event → PostgresSink → Option Error × PostgresSink
record_triggers [] s = (none, s)
record_triggers (e ∷ events) s = enqueue (record { triggers = e ∷ events; reverts = [] }) s

-- RecordRevert
unfoldable pub record_reverts : List RevertEvent → PostgresSink → Option Error × PostgresSink
record_reverts [] s = (none, s)
record_reverts (e ∷ events) s = enqueue (record { triggers = []; reverts = e ∷ events }) s

abbrev trigger_calls : List Event → List Write
trigger_calls [] = []
trigger_calls (e ∷ events) = Write.write_triggers (e ∷ events) ∷ []

abbrev revert_calls : List RevertEvent → List Write
revert_calls [] = []
revert_calls (e ∷ events) = Write.write_reverts (e ∷ events) ∷ []

-- The body of the worker's loop, for one item.
unfoldable pub writes_of : WorkItem → List Write
writes_of item = trigger_calls item.triggers ++ revert_calls item.reverts

abbrev pub pull : List WorkItem → PostgresSink → PostgresSink
pull [] s = s
pull (item ∷ rest) s = record s { queue = rest; written = s.written ++ writes_of item }

-- run: one turn of the worker, which waits while the queue is empty
unfoldable pub work : PostgresSink → PostgresSink
work s = pull s.queue s

-- Close, its first line
unfoldable pub close_queue : PostgresSink → PostgresSink
close_queue s = record s { closed = true }

abbrev pub is_drained : List WorkItem → Bool
is_drained [] = true
is_drained (item ∷ rest) = false

-- Close, its wait: the writer is closed once the worker has ended; `false` is the context's error.
unfoldable pub finish : Bool → PostgresSink → Bool × PostgresSink
finish true s = (true, record s { connected = false })
finish false s = (false, s)

unfoldable pub await_drained : PostgresSink → Bool × PostgresSink
await_drained s = finish (s.closed && is_drained s.queue) s
