-- ===== src/Operations/Receive/Claimed.antt =====
-- `Receive` (channels.go) of a competing channel whose oldest message another instance has claimed.
use romancy.Base.{
  String, ◌<>◌, ℕ, ◌≡◌, refl, sym, ap, subst, ◌∙◌, zero, suc, true, false, Option, none, some, List,
  [], ◌∷◌, any, find, take, itoa, ◌≟◌,
}
use romancy.Errors.{ok}
use romancy.Storage.Models.{competing, ChannelMessage, ChannelSubscription}
use romancy.Storage.World.{World, pure, in_context, query, exec, statement, ◌>>=◌}
use romancy.Storage.World.Runs.{bind-ok}
use romancy.Storage.Channels.{
  is_subscription, unclaimed, pending_in, pending_for, get_pending_channel_messages_for_instance,
  claim_channel_message,
}
use romancy.Activity.{ExecutionContext, Step, generate_activity_id, get_cached_result}
use romancy.Operations.Message.{Decoder}
use romancy.Operations.Receive.{
  chosen_channel, take_message, after_take, take_pending, if_subscribed, receive_or_replay, receive,
}
use romancy.Operations.Receive.Taken.{subscription_read}

pending_unclaimed :
    (id channel : String) (s : ChannelSubscription) (m : ChannelMessage)
    (rest : List ChannelMessage) (w : World)
    → w.faults ≡ []
    → find (is_subscription id channel) w.db.subscriptions ≡ some s
    → s.mode ≡ competing
    → unclaimed channel w.db ≡ m ∷ rest
    → get_pending_channel_messages_for_instance id channel w ≡ (ok (m ∷ take 9 rest), w)
unfolding get_pending_channel_messages_for_instance ◌>>=◌ query statement pure
pending_unclaimed id channel s m rest w f found mode e =
    subst
      (λ fs.
        get_pending_channel_messages_for_instance id channel (record w { faults = fs })
        ≡ (ok (m ∷ take 9 rest), record w { faults = fs }))
      (sym f)
      (ap (λ x. pending_for id channel x (record w { faults = [] })) found
        ∙ ap (λ x. pending_in id channel x (record w { faults = [] })) mode
        ∙ ap (λ x. (ok (take 10 x), record w { faults = [] })) e)

claim_refused :
    (id : String) (n : ℕ) (w : World)
    → w.faults ≡ []
    → any (λ c. c.message_id ≟ itoa n) w.db.claims ≡ true
    → in_context "failed to claim message" (claim_channel_message n id) w ≡ (ok false, w)
unfolding in_context claim_channel_message ◌>>=◌ exec statement pure
claim_refused id n w f claimed =
    subst
      (λ fs.
        in_context "failed to claim message" (claim_channel_message n id) (record w { faults = fs })
        ≡ (ok false, record w { faults = fs }))
      (sym f) (rw claimed refl)

take_refused :
    (t : Decoder) (id channel actual i : String) (m : ChannelMessage) (w : World)
    → w.faults ≡ []
    → any (λ c. c.message_id ≟ itoa m.id) w.db.claims ≡ true
    → take_message t id channel actual i competing m w ≡ (ok none, w)
unfolding take_message pure
take_refused t id channel actual i m w f claimed =
    bind-ok (λ out. out ≡ (ok none, w)) _ _ w w false (claim_refused id m.id w f claimed) refl

-- A competing `Receive` never returns once the oldest message is claimed: where the driver does not
-- fail, the instance is subscribed to the channel in competing mode, nothing is in the caches, and
-- the first message that is pending has been claimed, no fuel is enough, for it asks for the same
-- message again and again.
pub receive-claimed :
    (fuel : ℕ) (t : Decoder) (channel : String) (timeout : Option ℕ) (ec : ExecutionContext)
    (w : World) (s : ChannelSubscription) (m : ChannelMessage) (rest : List ChannelMessage)
    → w.faults ≡ []
    → ((i : String) → get_cached_result i ec ≡ none)
    → find (is_subscription ec.instance_id (chosen_channel channel ec)) w.db.subscriptions ≡ some s
    → s.mode ≡ competing
    → unclaimed (chosen_channel channel ec) w.db ≡ m ∷ rest
    → any (λ c. c.message_id ≟ itoa m.id) w.db.claims ≡ true
    → receive fuel t channel timeout ec w ≡ none
unfolding receive receive_or_replay generate_activity_id get_cached_result
receive-claimed zero t channel timeout ec w s m rest f fresh found mode e claimed = refl
receive-claimed (suc fuel) t channel timeout ec w s m rest f fresh found mode e claimed =
    ap (receive_or_replay again t channel i timeout ec1 w) (fresh i)
    ∙ ap (if_subscribed again t channel actual i timeout ec1)
        (subscription_read ec.instance_id actual s w f found)
    ∙ ap
        (λ x.
          take_pending again t channel actual i timeout x ec1
            (get_pending_channel_messages_for_instance ec.instance_id actual w))
        mode
    ∙ ap (take_pending again t channel actual i timeout competing ec1)
        (pending_unclaimed ec.instance_id actual s m rest w f found mode e)
    ∙ ap (after_take again t i ec1) (take_refused t ec.instance_id channel actual i m w f claimed)
    ∙ receive-claimed fuel t channel timeout ec1 w s m rest f fresh found mode e claimed
  where
    i : String
    i = (generate_activity_id ("receive_" <> channel) ec).0

    ec1 : ExecutionContext
    ec1 = (generate_activity_id ("receive_" <> channel) ec).1

    again : ExecutionContext → World → Option Step
    again = receive fuel t channel timeout

    actual : String
    actual = chosen_channel channel ec
