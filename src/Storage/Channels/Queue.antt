-- ===== src/Storage/Channels/Queue.antt =====
-- The messages of a broadcast channel as queues, one for each subscriber: PublishToChannel,
-- GetPendingChannelMessagesForInstance and UpdateDeliveryCursor of internal/storage/sqlite.go.
use romancy.Base.{
  ◌+◌, String, ℕ, ◌≤◌, ◌<◌, ◌≡◌, refl, subst, ◌∙◌, inl, inr, Bool-cases, Bool, true, false, Option,
  none, some, List, [], ◌∷◌, ◌++◌, suc, ltb, ◌≟◌, ◌&&◌, any, find, select, select-append,
  append-nil, arith, if◌then◌else◌,
}
use romancy.Json.{Json}
use romancy.Errors.{Result, ok, err, unique_violation}
use romancy.Storage.Models.{Db, ChannelMessage, ChannelDeliveryCursor}
use romancy.Storage.World.{now_ns_again, World, seconds, ◌>>=◌, now, now_ns}
use romancy.Storage.World.Keeps.{statement_cases}
use romancy.Storage.Channels.{
  on_channel, is_cursor, cursor_of, messages_after, message_ref, publish_to_channel,
}

-- The messages that wait for a subscriber, the oldest first.
unfoldable pub queue : String → String → Db → List ChannelMessage
queue id channel d = messages_after channel (cursor_of id channel d) d

-- The numbers of the messages rise, above a number and below another one.
abbrev pub Between : ℕ → ℕ → List ChannelMessage → Type 0
Between low high [] = Unit
Between low high (m ∷ rows) = (low < m.id) × (m.id < high) × Between m.id high rows

-- The numbers of the messages rise, below the next one, and no cursor is past them.
abbrev pub CursorsBelow : ℕ → List ChannelDeliveryCursor → Type 0
CursorsBelow n [] = Unit
CursorsBelow n (c ∷ rows) = (c.last_delivered_id < n) × CursorsBelow n rows

abbrev pub Queued : Db → Type 0
Queued d =
    Between 0 d.next_message_id d.messages
    × CursorsBelow d.next_message_id d.cursors
    × (0 < d.next_message_id)

cursor_below :
    (id channel : String) (n : ℕ) (rows : List ChannelDeliveryCursor)
    → 0 < n
    → CursorsBelow n rows
    → (elim (find (is_cursor id channel) rows) [ none ↦ 0 | some c ↦ c.last_delivered_id ]) < n
cursor_below id channel n [] p b = p
cursor_below id channel n (c ∷ rows) p b = ground (arith, cursor_below id channel n rows p b.1)

-- Below all the numbers, a cursor hides nothing.
after_below :
    (channel : String) (low high j k : ℕ) (rows : List ChannelMessage)
    → Between low high rows
    → j ≤ low
    → k ≤ low
    → select (λ x. on_channel channel x && ltb j x.id) rows
      ≡ select (λ x. on_channel channel x && ltb k x.id) rows
after_below channel low high j k [] b p q = refl
after_below channel low high j k (x ∷ rows) b p q = ground (
  arith,
  after_below channel x.id high j k rows b.2 (omega (arith, b.0, p)) (omega (arith, b.0, q)),
)

head_above :
    (channel : String) (low high n : ℕ) (rows : List ChannelMessage) (m : ChannelMessage)
    (rest : List ChannelMessage)
    → Between low high rows
    → select (λ x. on_channel channel x && ltb n x.id) rows ≡ m ∷ rest
    → low < m.id
head_above channel low high n [] m rest b e = cc
head_above channel low high n (x ∷ rows) m rest b e =
    ground (arith, head_above channel x.id high n rows m rest b.2)

-- Above the number of the first message, the queue has lost it alone.
pub after_head :
    (channel : String) (low high n : ℕ) (rows : List ChannelMessage) (m : ChannelMessage)
    (rest : List ChannelMessage)
    → Between low high rows
    → select (λ x. on_channel channel x && ltb n x.id) rows ≡ m ∷ rest
    → select (λ x. on_channel channel x && ltb m.id x.id) rows ≡ rest
after_head channel low high n [] m rest b e = cc
after_head channel low high n (x ∷ rows) m rest b e =
    elim (Bool-cases (on_channel channel x && ltb n x.id)) [
      | inl taken ↦
          let it : x ≡ m = ground arith in
          let others : select (λ z. on_channel channel z && ltb n z.id) rows ≡ rest =
            ground arith in
          subst (λ y. select (λ z. on_channel channel z && ltb y.id z.id) (x ∷ rows) ≡ rest) it
            (ground (
              arith,
              after_below channel x.id high x.id n rows b.2 (omega arith) (ground arith),
              others,
            ))
      | inr passed ↦
          let later = head_above channel x.id high n rows m rest b.2 (ground arith) in
          ground (arith, later, after_head channel x.id high n rows m rest b.2)
    ]

Between-append :
    (low n : ℕ) (rows : List ChannelMessage) (m : ChannelMessage)
    → Between low n rows
    → low < n
    → m.id ≡ n
    → Between low (suc n) (rows ++ m ∷ [])
Between-append low n [] m b l e = (omega (arith, l, e), omega (arith, e), tt)
Between-append low n (x ∷ rows) m b l e =
    (b.0, omega (arith, b.1), Between-append x.id n rows m b.2 b.1 e)

CursorsBelow-suc :
    (n : ℕ) (rows : List ChannelDeliveryCursor) → CursorsBelow n rows → CursorsBelow (suc n) rows
CursorsBelow-suc n [] b = tt
CursorsBelow-suc n (c ∷ rows) b = (omega (arith, b.0), CursorsBelow-suc n rows b.1)

-- The row that PublishToChannel adds.
abbrev pub published : String → Json → Option Json → World → ChannelMessage
published channel payload metadata w = record {
  id = w.db.next_message_id;
  channel = channel;
  message_id = message_ref w.clock (w.clock + w.tick);
  payload = payload;
  metadata = metadata;
  published_at = seconds w;
}

-- The queue, with a message of its channel at its end.
abbrev pub enqueued : String → ChannelMessage → List ChannelMessage → List ChannelMessage
enqueued channel m q = if on_channel channel m then q ++ m ∷ [] else q

-- What PublishToChannel does to every queue, by its answer.
abbrev pub Publishes : World → ChannelMessage → Result ℕ × World → Type 0
Publishes w m (ok n, v) =
    (n ≡ m.id)
    × Queued v.db
    × ((id channel : String) → queue id channel v.db ≡ enqueued channel m (queue id channel w.db))
Publishes w m (err e, v) = (id channel : String) → queue id channel v.db ≡ queue id channel w.db

-- The tables of messages and cursors implement a queue for each instance and channel: where
-- PublishToChannel succeeds, it returns the number of a new message that is then at the end of every
-- queue of its channel, and every queue of another channel is as it was; where it fails every queue
-- is as it was. The numbers of the messages rise below the next one, with no cursor past them, and
-- where it succeeds so they do after it.
pub publish_to_channel-Publishes :
    (channel : String) (payload : Json) (metadata : Option Json) (w : World)
    → Queued w.db
    → Publishes w
        (published channel payload metadata w)
        (publish_to_channel channel payload metadata w)
unfolding publish_to_channel ◌>>=◌ now now_ns now_ns_again queue
publish_to_channel-Publishes channel payload metadata w q =
    statement_cases (Publishes w (published channel payload metadata w)) _ w (λ rest i c. refl)
      (λ rest.
        go rest (any (λ m. m.message_id ≟ message_ref w.clock (w.clock + w.tick)) w.db.messages))
  where
    row : ChannelMessage
    row = published channel payload metadata w

    fits :
        (c : String) (b : Bool) (rows : List ChannelMessage)
        → b ≡ true
        → (rows ++ (if on_channel c row && b then row ∷ [] else [])) ≡ enqueued c row rows
    fits c b rows e = elim (Bool-cases (on_channel c row)) [
      | inl own ↦ ground arith
      | inr other ↦ ground (arith, append-nil rows)
    ]

    go :
        (rest : List Bool) (b : Bool)
        → let out : Result ℕ × Db = if b then (err unique_violation, w.db) else (
          ok w.db.next_message_id,
          record w.db {
            messages = w.db.messages ++ row ∷ [];
            next_message_id = suc w.db.next_message_id;
          },
        ) in
          Publishes w row (out.0, record w { db = out.1; faults = rest })
    go rest true = λ i c. refl
    go rest false = (
      refl,
      (
        Between-append 0 w.db.next_message_id w.db.messages row q.0 q.2 refl,
        CursorsBelow-suc w.db.next_message_id w.db.cursors q.1,
        omega arith,
      ),
      λ i c.
          select-append (λ m. on_channel c m && ltb (cursor_of i c w.db) m.id) w.db.messages
            (row ∷ [])
          ∙ fits c (ltb (cursor_of i c w.db) w.db.next_message_id) _
              (ground (arith, cursor_below i c w.db.next_message_id w.db.cursors q.2 q.1)),
    )
