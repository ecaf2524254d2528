-- ===== src/Sink/Postgres/Closed.antt =====
-- What becomes of a sink after it was closed.
use reactive_policy.Common.{List, [], ◌∷◌, ◌++◌, some, Bool, true, false, ◌≡◌, refl, ap, ◌∙◌, arith}
use reactive_policy.Sink.{Event, RevertEvent}
use reactive_policy.Sink.Postgres.{
  WorkItem, PostgresSink, send, enqueue, pull, finish, record_triggers, record_reverts, Write,
  writes_of, work, close_queue, await_drained, send_on_closed,
}
use reactive_policy.Sink.Postgres.Delivery.{Happening, happen, all_happen}

-- Nothing was accepted, and the sink is still closed.
abbrev Refused : List Write × PostgresSink → Type 0
Refused out = (out.0 ≡ []) × (out.1.closed ≡ true)

send_closed :
    (closed room : Bool) (item : WorkItem) (s : PostgresSink)
    → closed ≡ true
    → send closed room item s ≡ (some send_on_closed, s)
unfolding send
send_closed true room item s e = refl
send_closed false room item s e = ground arith

record_triggers_closed :
    (e : Event) (events : List Event) (s : PostgresSink)
    → s.closed ≡ true
    → record_triggers (e ∷ events) s ≡ (some send_on_closed, s)
unfolding record_triggers enqueue
record_triggers_closed e events s closed = send_closed s.closed _ _ s closed

record_reverts_closed :
    (e : RevertEvent) (events : List RevertEvent) (s : PostgresSink)
    → s.closed ≡ true
    → record_reverts (e ∷ events) s ≡ (some send_on_closed, s)
unfolding record_reverts enqueue
record_reverts_closed e events s closed = send_closed s.closed _ _ s closed

pull-closed : (q : List WorkItem) (s : PostgresSink) → (pull q s).closed ≡ s.closed
pull-closed [] s = refl
pull-closed (item ∷ rest) s = refl

finish-closed : (b : Bool) (s : PostgresSink) → (finish b s).1.closed ≡ s.closed
unfolding finish
finish-closed true s = refl
finish-closed false s = refl

happen-Refused : (h : Happening) (s : PostgresSink) → s.closed ≡ true → Refused (happen h s)
unfolding work close_queue await_drained record_triggers record_reverts writes_of
happen-Refused (Happening.triggers []) s closed = (refl, closed)
happen-Refused (Happening.triggers (e ∷ events)) s closed =
    rw (record_triggers_closed e events s closed) (refl, closed)
happen-Refused (Happening.reverts []) s closed = (refl, closed)
happen-Refused (Happening.reverts (e ∷ events)) s closed =
    rw (record_reverts_closed e events s closed) (refl, closed)
happen-Refused Happening.worker s closed = (refl, pull-closed s.queue s ∙ closed)
happen-Refused Happening.close s closed = (refl, refl)
happen-Refused Happening.await s closed = (refl, finish-closed _ s ∙ closed)

all_happen-Refused :
    (hs : List Happening) (s : PostgresSink) → s.closed ≡ true → Refused (all_happen hs s)
all_happen-Refused [] s closed = (refl, closed)
all_happen-Refused (h ∷ hs) s closed =
    let first = happen-Refused h s closed in
    let rest = all_happen-Refused hs (happen h s).1 first.1 in
    (ap (λ t. t ++ (all_happen hs (happen h s).1).0) first.0 ∙ rest.0, rest.1)

-- Once a sink is closed nothing that comes in is accepted any more; but a batch that is recorded
-- then, at any later moment, is not answered with an error: it panics.
pub closed_lem :
    (hs : List Happening) (s : PostgresSink) (e : Event) (events : List Event)
    → s.closed ≡ true
    → let out = all_happen hs s in
      (out.0 ≡ []) × (record_triggers (e ∷ events) out.1 ≡ (some send_on_closed, out.1))
closed_lem hs s e events closed =
    let refused = all_happen-Refused hs s closed in
    (refused.0, record_triggers_closed e events (all_happen hs s).1 refused.1)
