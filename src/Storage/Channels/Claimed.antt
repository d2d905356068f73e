-- ===== src/Storage/Channels/Claimed.antt =====
-- What a claim of a message does to the messages that are pending for competing receivers:
-- `ClaimChannelMessage` and `GetPendingChannelMessagesForInstance` of internal/storage/sqlite.go.
use romancy.Base.{
  String, ℕ, ◌%◌, ◌≡◌, refl, Bool, true, false, List, [], ◌∷◌, ◌++◌, arith, ◌≟◌, ◌&&◌, ◌||◌, not,
  itoa, itoa-ne-dashed, any, select, ltb, if◌then◌else◌,
}
use romancy.Storage.Models.{Db, ChannelMessage, ChannelMessageClaim}
use romancy.Storage.World.{World, ◌>>=◌, exec, pure}
use romancy.Storage.World.Keeps.{statement_cases}
use romancy.Storage.Channels.{message_ref, unclaimed, on_channel, claim_channel_message}

-- The messages were published by `PublishToChannel`, which read the clock twice for each.
abbrev pub Published : List ChannelMessage → List (ℕ × ℕ) → Type 0
Published [] [] = Unit
Published (m ∷ rows) ((t, u) ∷ times) = (m.message_id ≡ message_ref t u) × Published rows times
Published _ _ = ⊥

ref-ne-number : (t u n : ℕ) (s : String) → s ≡ message_ref t u → (itoa n ≟ s) ≡ false
unfolding message_ref
ref-ne-number t u n s e = ground (arith, itoa-ne-dashed n t (itoa (u % 1000000)))

any-append :
    (p : ChannelMessageClaim → Bool) (xs ys : List ChannelMessageClaim)
    → any p (xs ++ ys) ≡ any p xs || any p ys
any-append p [] ys = refl
any-append p (x ∷ xs) ys = ground (arith, any-append p xs ys)

-- The rows that the query for competing receivers selects, by the claims.
abbrev pending_by : String → List ChannelMessageClaim → List ChannelMessage → List ChannelMessage
pending_by channel claims =
    select (λ m. on_channel channel m && not (any (λ c. c.message_id ≟ m.message_id) claims))

pending_by-append :
    (channel : String) (claims : List ChannelMessageClaim) (c : ChannelMessageClaim) (n : ℕ)
    (rows : List ChannelMessage) (times : List (ℕ × ℕ))
    → c.message_id ≡ itoa n
    → Published rows times
    → pending_by channel (claims ++ c ∷ []) rows ≡ pending_by channel claims rows
pending_by-append channel claims c n [] times e p = refl
pending_by-append channel claims c n (m ∷ rows) [] e p = absurd p
pending_by-append channel claims c n (m ∷ rows) ((t, u) ∷ times) e p = ground (
  arith,
  pending_by-append channel claims c n rows times,
  any-append (λ x. x.message_id ≟ m.message_id) claims (c ∷ []),
  ref-ne-number t u n m.message_id,
)

-- A claim hides nothing: for messages that were published, whatever the claim answers, the
-- messages that are pending for the competing receivers of any channel are the same after it.
pub claim_channel_message-unclaimed :
    (channel instance_id : String) (n : ℕ) (w : World) (times : List (ℕ × ℕ))
    → Published w.db.messages times
    → unclaimed channel (claim_channel_message n instance_id w).1.db ≡ unclaimed channel w.db
unfolding claim_channel_message ◌>>=◌ exec pure
claim_channel_message-unclaimed channel instance_id n w times p =
    statement_cases
      (λ out.
        unclaimed channel (((λ (u : World). out) >>= λ affected. pure (ltb 0 affected)) w).1.db
        ≡ unclaimed channel w.db)
      _ w (λ rest. refl) (λ rest. go (any (λ c. c.message_id ≟ itoa n) w.db.claims))
  where
    claim : ChannelMessageClaim
    claim = record { message_id = itoa n; instance_id = instance_id }

    claimed : Db
    claimed = record (w.db) { claims = (w.db).claims ++ claim ∷ [] }

    go :
        (b : Bool)
        → let (k, d) : ℕ × Db = if b then (0, w.db) else (1, claimed) in
          unclaimed channel d ≡ unclaimed channel w.db
    go true = refl
    go false = pending_by-append channel w.db.claims claim n w.db.messages times refl p
