-- ===== src/Operations/Transactions/Deferred.antt =====
-- What becomes of the deliveries that a transaction puts off (channels.go and the transactions of
-- internal/storage/sqlite.go).
use romancy.Base.{
  ◌+◌, ◌/◌, any, suc, ◌++◌, ◌≟◌, Bool, String, ℕ, ◌≡◌, refl, ap, sym, ◌∙◌, true, false, Option,
  List, [], ◌∷◌, subst,
}
use romancy.Json.{Json}
use romancy.Errors.{Error, Result, ok, err}
use romancy.Storage.Models.{Db, ChannelMessage}
use romancy.Storage.World.{
  now_ns_again, World, in_context, now, now_ns, query, statement, ◌>>=◌, ignore,
}
use romancy.Storage.World.Keeps.{statement_cases}
use romancy.Storage.Channels.{
  get_channel_subscribers_waiting, add_message, message_ref, publish_to_channel,
}
use romancy.Operations.Wake.{wake_waiting_subscribers}
use romancy.Operations.Transactions.{
  Wakeup, Transaction, woken_by, method_in, register_post_commit_callback, with_transaction,
  run_callbacks, put_off, publish_in_transaction, committed, commit_transaction,
}

-- The search for subscribers fails at its one statement.
woken_by-failing :
    (c : Wakeup) (w : World) → (woken_by c (record w { faults = true ∷ w.faults })).1 ≡ w
unfolding wake_waiting_subscribers get_channel_subscribers_waiting ignore ◌>>=◌ query statement
woken_by-failing c w = refl

abbrev ended : World → Db → List Wakeup → Transaction
ended w saved callbacks = record {
  world = w;
  saved = saved;
  is_open = false;
  callbacks = callbacks;
}

run_callbacks-ended :
    (callbacks registered : List Wakeup) (w : World) (saved : Db)
    → run_callbacks callbacks (ended w saved registered) ≡ ended w saved registered
unfolding run_callbacks with_transaction
run_callbacks-ended [] registered w saved = refl
run_callbacks-ended (c ∷ callbacks) registered w saved =
    ap (λ (v : World). run_callbacks callbacks (ended v saved registered)) (woken_by-failing c w)
    ∙ run_callbacks-ended callbacks registered w saved

-- The tables after a commit, by what it answers.
abbrev Leaves : Transaction → Result (Unit {0}) × Transaction → Type 0
Leaves t (ok _, u) = u.world.db ≡ t.world.db
Leaves t (err e, u) = u.world.db ≡ t.saved

commit_transaction-Leaves : (t : Transaction) → Leaves t (commit_transaction t)
unfolding commit_transaction
commit_transaction-Leaves t =
    statement_cases (λ out. Leaves t (committed t out)) (λ d. (ok tt, d)) t.world (λ rest. refl)
      (λ rest.
        ap (λ (u : Transaction). u.world.db)
          (run_callbacks-ended t.callbacks t.callbacks (record (t.world) { faults = rest })
            t.world.db))

module _ (channel : String) (payload : Json) (metadata : Option Json) (t : Transaction) where
  -- The tables with one more message, at the end.
  abbrev pub HasMessage : Db → Type 0
  HasMessage d =
      (m : ChannelMessage) × (m.channel ≡ channel)
      × (m.payload ≡ payload)
      × (m.metadata ≡ metadata)
      × (d ≡ record (t.world.db) {
        messages = t.world.db.messages ++ m ∷ [];
        next_message_id = suc (t.world.db).next_message_id;
      })

  -- What publishing leaves of the transaction's tables.
  abbrev pub Publishes : Result (Unit {0}) × Transaction → Type 0
  Publishes (ok _, u) = HasMessage u.world.db × (u.saved ≡ t.saved)
  Publishes (err e, u) = u.world.db ≡ t.world.db

  abbrev after_publish : Result ℕ × World → Result (Unit {0}) × Transaction
  after_publish out = put_off channel payload metadata (out.0, record t { world = out.1 })

  added :
      (msg_id : String) (time : ℕ) (rest : List Bool) (taken : Bool)
      → any (λ m. m.message_id ≟ msg_id) t.world.db.messages ≡ taken
      → Publishes (
          after_publish (
            (add_message msg_id time channel payload metadata t.world.db).0,
            record (t.world) {
              db = (add_message msg_id time channel payload metadata t.world.db).1;
              faults = rest;
            },
          ))
  unfolding register_post_commit_callback
  added msg_id time rest true e = rw e refl
  added msg_id time rest false e = rw e (
    (
      record {
        id = t.world.db.next_message_id;
        channel = channel;
        message_id = msg_id;
        payload = payload;
        metadata = metadata;
        published_at = time;
      },
      refl,
      refl,
      refl,
      refl,
    ),
    refl,
  )

  wrapped-Publishes :
      (context : String) (out : Result ℕ × World)
      → Publishes (after_publish out)
      → Publishes (after_publish (in_context context (λ u. out) t.world))
  unfolding in_context
  wrapped-Publishes context (ok n, w) h = h
  wrapped-Publishes context (err e, w) h = h

  publish-Publishes :
      (context : String)
      → t.is_open ≡ true
      → Publishes (publish_in_transaction context channel payload metadata t)
  unfolding publish_in_transaction with_transaction publish_to_channel in_context ◌>>=◌ now now_ns
      now_ns_again
  publish-Publishes context opened =
      let msg_id : String = message_ref t.world.clock (t.world.clock + t.world.tick) in
      let write = add_message msg_id (t.world.clock / 1000000000) channel payload metadata in
      subst
        (λ (b : Bool). Publishes (
          after_publish (
            method_in b (in_context context (publish_to_channel channel payload metadata))
              t.world)))
        (sym opened)
        (statement_cases (λ out. Publishes (after_publish (in_context context (λ u. out) t.world)))
          write t.world (λ rest. refl)
          (λ rest.
            wrapped-Publishes context
              ((write t.world.db).0, record (t.world) { db = (write t.world.db).1; faults = rest })
              (added msg_id (t.world.clock / 1000000000) rest
                (any (λ m. m.message_id ≟ msg_id) t.world.db.messages) refl)))

  -- What is known at the end, after a publish that was answered with success and a commit.
  abbrev pub Ends : Result (Unit {0}) × Transaction → Type 0
  Ends (ok _, u) = HasMessage u.world.db
  Ends (err e, u) = u.world.db ≡ t.saved

  commit-Ends :
      (u : Transaction) (out : Result (Unit {0}) × Transaction)
      → HasMessage u.world.db
      → u.saved ≡ t.saved
      → Leaves u out
      → Ends out
  commit-Ends u (ok _, v) h s l = subst HasMessage (sym l) h
  commit-Ends u (err e, v) h s l = l ∙ s

  -- A message that is published in a transaction is delivered to nobody by its commit: in an open
  -- transaction, a publish that fails leaves the tables as they were. After one that succeeds, a
  -- commit that succeeds leaves the tables of the transaction with the message as their one change,
  -- so that no subscription stops waiting and no history has the message, although the delivery was
  -- put off to the commit; and a commit that fails leaves the tables from before the transaction.
  -- This is so whatever else was put off, and whichever statements the driver fails.
  pub publish_in_transaction-commit :
      (context : String)
      → t.is_open ≡ true
      → let out : Result (Unit {0}) × Transaction =
          publish_in_transaction context channel payload metadata t in
        ((e : Error) → out.0 ≡ err e → out.1.world.db ≡ t.world.db)
        × (out.0 ≡ ok tt → Ends (commit_transaction out.1))
  publish_in_transaction-commit context opened =
      go (publish_in_transaction context channel payload metadata t)
        (publish-Publishes context opened)
    where
      go :
          (out : Result (Unit {0}) × Transaction)
          → Publishes out
          → ((e : Error) → ◌≡◌ {0} (out.0) (err e) → ◌≡◌ {0} (out.1.world.db) (t.world.db))
            × (◌≡◌ {0} (out.0) (ok tt) → Ends (commit_transaction out.1))
      go (ok _, u) p = (
        λ e h. cc,
        λ h. commit-Ends u (commit_transaction u) p.0 p.1 (commit_transaction-Leaves u),
      )
      go (err x, u) p = (λ e h. p, λ h. cc)
