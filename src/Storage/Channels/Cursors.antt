-- ===== src/Storage/Channels/Cursors.antt =====
-- The cursors of internal/storage/sqlite.go, and the queues of messages after them.
use romancy.Base.{
  String, ℕ, ◌≡◌, refl, Bool, true, false, none, some, List, [], ◌∷◌, ◌++◌, ltb, ◌&&◌, any, find,
  select, update, arith, if◌then◌else◌,
}
use romancy.Storage.Models.{Db, ChannelMessage, ChannelDeliveryCursor}
use romancy.Storage.Channels.{on_channel, is_cursor, cursor_of, set_cursor, new_cursor}
use romancy.Storage.Channels.Queue.{queue, Queued, after_head}

cursor_in : String → String → List ChannelDeliveryCursor → ℕ
cursor_in id channel rows = elim (find (is_cursor id channel) rows) [
  | none ↦ 0
  | some c ↦ c.last_delivered_id
]

update_cursor-own :
    (id channel : String) (n : ℕ) (rows : List ChannelDeliveryCursor)
    → any (is_cursor id channel) rows ≡ true
    → cursor_in id channel
        (update (is_cursor id channel) (λ c. record c { last_delivered_id = n }) rows)
      ≡ n
unfolding cursor_in
update_cursor-own id channel n [] h = cc
update_cursor-own id channel n (c ∷ rows) h = ground (arith, update_cursor-own id channel n rows)

append_cursor-own :
    (id channel : String) (n : ℕ) (rows : List ChannelDeliveryCursor)
    → any (is_cursor id channel) rows ≡ false
    → cursor_in id channel (rows ++ new_cursor id channel n ∷ []) ≡ n
unfolding cursor_in
append_cursor-own id channel n [] h = ground arith
append_cursor-own id channel n (c ∷ rows) h = ground (arith, append_cursor-own id channel n rows)

update_cursor-other :
    (id channel i k : String) (n : ℕ) (rows : List ChannelDeliveryCursor)
    → ((i ≡ id) × (k ≡ channel) → ⊥)
    → cursor_in i k (update (is_cursor id channel) (λ c. record c { last_delivered_id = n }) rows)
      ≡ cursor_in i k rows
unfolding cursor_in
update_cursor-other id channel i k n [] other = refl
update_cursor-other id channel i k n (c ∷ rows) other =
    ground (arith, update_cursor-other id channel i k n rows other)

append_cursor-other :
    (id channel i k : String) (n : ℕ) (rows : List ChannelDeliveryCursor)
    → ((i ≡ id) × (k ≡ channel) → ⊥)
    → cursor_in i k (rows ++ new_cursor id channel n ∷ []) ≡ cursor_in i k rows
unfolding cursor_in
append_cursor-other id channel i k n [] other = ground (arith, other)
append_cursor-other id channel i k n (c ∷ rows) other =
    ground (arith, append_cursor-other id channel i k n rows other)

-- The queue of a subscriber after its cursor was set.
pub set_cursor-own :
    (id channel : String) (d : Db) (m : ChannelMessage) (rest : List ChannelMessage)
    → Queued d
    → queue id channel d ≡ m ∷ rest
    → queue id channel (set_cursor id channel m.id d) ≡ rest
unfolding queue cursor_in
set_cursor-own id channel d m rest q e = go (any (is_cursor id channel) d.cursors) refl
  where
    head : select (λ x. on_channel channel x && ltb m.id x.id) d.messages ≡ rest
    head = after_head channel 0 d.next_message_id (cursor_of id channel d) d.messages m rest q.0 e

    go :
        (b : Bool)
        → any (is_cursor id channel) d.cursors ≡ b
        → queue id channel (
            if b
            then record d {
              cursors =
                  update
                    (is_cursor id channel)
                    (λ c. record c { last_delivered_id = m.id })
                    d.cursors;
            }
            else record d { cursors = d.cursors ++ new_cursor id channel m.id ∷ [] })
          ≡ rest
    go true known = rw (update_cursor-own id channel m.id d.cursors known) head
    go false fresh = rw (append_cursor-own id channel m.id d.cursors fresh) head

pub set_cursor-other :
    (id channel i k : String) (n : ℕ) (d : Db)
    → ((i ≡ id) × (k ≡ channel) → ⊥)
    → queue i k (set_cursor id channel n d) ≡ queue i k d
unfolding queue cursor_in
set_cursor-other id channel i k n d other = go (any (is_cursor id channel) d.cursors)
  where
    go :
        (b : Bool)
        → queue i k (
            if b
            then record d {
              cursors =
                  update (is_cursor id channel) (λ c. record c { last_delivered_id = n }) d.cursors;
            }
            else record d { cursors = d.cursors ++ new_cursor id channel n ∷ [] })
          ≡ queue i k d
    go true = rw (update_cursor-other id channel i k n d.cursors other) refl
    go false = rw (append_cursor-other id channel i k n d.cursors other) refl
