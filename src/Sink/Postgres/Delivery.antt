-- ===== src/Sink/Postgres/Delivery.antt =====
-- What the queue delivers: every accepted batch, once and in order, while the connection is open.
use reactive_policy.Common.{
  suc, ◌≤◌, ltb, ltb→lt, ℤ, List, [], ◌∷◌, ◌++◌, append-nil, append_assoc, Option, none, some, Bool,
  true, false, ◌&&◌, both, Error, length, length-append, ◌≡◌, refl, ap, sym, ◌∙◌, arith,
}
use reactive_policy.Sink.{Event, RevertEvent}
use reactive_policy.Sink.Postgres.{
  WorkItem, Write, PostgresSink, new_sink, send, enqueue, pull, finish, is_drained, record_triggers,
  record_reverts, writes_of, work, close_queue, await_drained,
}

-- The calls that a queue still stands for.
abbrev pub outstanding : List WorkItem → List Write
outstanding [] = []
outstanding (item ∷ rest) = writes_of item ++ outstanding rest

-- What happens to a sink: a batch comes in, the worker takes one, or somebody closes it.
pub data Happening : Type 0 where
  triggers : List Event → Happening
  reverts : List RevertEvent → Happening
  worker : Happening
  close : Happening
  await : Happening

-- The sink afterwards, and the calls that the caller was told are accepted.
abbrev accepted : WorkItem → Option Error → List Write
accepted item none = writes_of item
accepted item (some e) = []

abbrev pub happen : Happening → PostgresSink → List Write × PostgresSink
happen (triggers events) s =
    let out = record_triggers events s in
    (accepted (record { triggers = events; reverts = [] }) out.0, out.1)
happen (reverts events) s =
    let out = record_reverts events s in
    (accepted (record { triggers = []; reverts = events }) out.0, out.1)
happen worker s = ([], work s)
happen close s = ([], close_queue s)
happen await s = ([], (await_drained s).1)

-- In the order in which the list has it.
abbrev pub all_happen : List Happening → PostgresSink → List Write × PostgresSink
all_happen [] s = ([], s)
all_happen (h ∷ hs) s =
    let out = happen h s in let rest = all_happen hs out.1 in (out.0 ++ rest.0, rest.1)

-- Written and outstanding calls, in order.
abbrev pub owed : PostgresSink → List Write
owed s = s.written ++ outstanding s.queue

outstanding-append :
    (xs ys : List WorkItem) → outstanding (xs ++ ys) ≡ outstanding xs ++ outstanding ys
outstanding-append [] ys = refl
outstanding-append (x ∷ xs) ys =
    ap (λ t. writes_of x ++ t) (outstanding-append xs ys) ∙ sym (append_assoc (writes_of x) _ _)

-- The queue is within its capacity, and a closed connection has nothing left to write.
pub record Sound (s : PostgresSink) : Type 0 where
  pub bounded : length s.queue ≤ s.capacity
  pub spent : s.connected ≡ false → (s.closed ≡ true) × (s.queue ≡ [])

-- One thing that happened kept the sink sound and lost nothing that was accepted.
abbrev Kept : PostgresSink → List Write × PostgresSink → Type 0
Kept s out = Sound out.1 × (owed out.1 ≡ owed s ++ out.0)

unchanged-Kept : (s : PostgresSink) → Sound s → Kept s ([], s)
unchanged-Kept s sound = (sound, sym (append-nil (owed s)))

queued :
    (written : List Write) (queue : List WorkItem) (item : WorkItem)
    → written ++ outstanding (queue ++ item ∷ []) ≡ (written ++ outstanding queue) ++ writes_of item
queued written queue item =
    ap (λ t. written ++ t)
      (outstanding-append queue (item ∷ [])
        ∙ ap (λ t. outstanding queue ++ t) (append-nil (writes_of item)))
    ∙ sym (append_assoc written (outstanding queue) (writes_of item))

send-Kept :
    (item : WorkItem) (s : PostgresSink) (closed room : Bool)
    → s.closed ≡ closed
    → ltb (length s.queue) s.capacity ≡ room
    → Sound s
    → Kept s (accepted item (send closed room item s).0, (send closed room item s).1)
unfolding send
send-Kept item s true room e f sound = unchanged-Kept s sound
send-Kept item s false false e f sound = unchanged-Kept s sound
send-Kept item s false true e f sound = (
  record {
    bounded =
        omega (arith, ltb→lt (length s.queue) s.capacity f, length-append s.queue (item ∷ []));
    spent = λ gone. cc ((sound.spent gone).0, e);
  },
  queued s.written s.queue item,
)

triggers-Kept :
    (events : List Event) (s : PostgresSink) → Sound s → Kept s (happen (triggers events) s)
unfolding record_triggers enqueue writes_of
triggers-Kept [] s sound = unchanged-Kept s sound
triggers-Kept (e ∷ events) s sound = send-Kept _ s _ _ refl refl sound

reverts-Kept :
    (events : List RevertEvent) (s : PostgresSink) → Sound s → Kept s (happen (reverts events) s)
unfolding record_reverts enqueue writes_of
reverts-Kept [] s sound = unchanged-Kept s sound
reverts-Kept (e ∷ events) s sound = send-Kept _ s _ _ refl refl sound

pull-Kept : (s : PostgresSink) (q : List WorkItem) → s.queue ≡ q → Sound s → Kept s ([], pull q s)
pull-Kept s [] e sound = unchanged-Kept s sound
pull-Kept s (item ∷ rest) e sound =
    let long : length s.queue ≡ suc (length rest) = ap length e in
    (
      record {
        bounded = omega (arith, long, sound.bounded);
        spent = λ gone. let none_left = (sound.spent gone).1 in cc;
      },
      append_assoc s.written (writes_of item) (outstanding rest)
          ∙ ap (λ q. s.written ++ outstanding q) (sym e)
          ∙ sym (append-nil (owed s)),
    )

drained-nil : (q : List WorkItem) → is_drained q ≡ true → q ≡ []
drained-nil [] h = refl
drained-nil (item ∷ rest) h = ground arith

finish-Kept :
    (s : PostgresSink) (b : Bool)
    → s.closed && is_drained s.queue ≡ b
    → Sound s
    → Kept s ([], (finish b s).1)
unfolding finish
finish-Kept s false e sound = unchanged-Kept s sound
finish-Kept s true e sound =
    let parts = both s.closed _ e in
    (
      record { bounded = sound.bounded; spent = λ gone. (parts.0, drained-nil s.queue parts.1) },
      sym (append-nil (owed s)),
    )

happen-Kept : (h : Happening) (s : PostgresSink) → Sound s → Kept s (happen h s)
unfolding work close_queue await_drained
happen-Kept (triggers events) s sound = triggers-Kept events s sound
happen-Kept (reverts events) s sound = reverts-Kept events s sound
happen-Kept worker s sound = pull-Kept s s.queue refl sound
happen-Kept close s sound = (
  record { bounded = sound.bounded; spent = λ gone. (refl, (sound.spent gone).1) },
  sym (append-nil (owed s)),
)
happen-Kept await s sound = finish-Kept s _ refl sound

all_happen-Kept : (hs : List Happening) (s : PostgresSink) → Sound s → Kept s (all_happen hs s)
all_happen-Kept [] s sound = unchanged-Kept s sound
all_happen-Kept (h ∷ hs) s sound =
    let first = happen-Kept h s sound in
    let rest = all_happen-Kept hs _ first.0 in
    (
      rest.0,
      rest.1
          ∙ ap (λ t. t ++ (all_happen hs (happen h s).1).0) first.1
          ∙ append_assoc (owed s) (happen h s).0 (all_happen hs (happen h s).1).0,
    )

new_sink-Sound : (size : ℤ) → Sound (new_sink size)
unfolding new_sink
new_sink-Sound size = record { bounded = omega arith; spent = λ gone. cc }

-- Whatever comes in, however the worker keeps up, and whenever the sink is closed: the calls on the
-- database so far, and then those that the queue still stands for, are the batches whose callers
-- were told that they are accepted, each once and in their order; the queue holds at most its
-- capacity; and when the connection is closed nothing is left to write.
pub all_happen-Sound :
    (size : ℤ) (hs : List Happening)
    → let out = all_happen hs (new_sink size) in Sound out.1 × (owed out.1 ≡ out.0)
unfolding new_sink
all_happen-Sound size hs = all_happen-Kept hs (new_sink size) (new_sink-Sound size)
