-- ===== src/Operations/Once.antt =====
-- events.go and channels.go: the operations that need no answer.
use romancy.Base.{
  leb, ◌-◌, if◌then◌else◌, String, ◌<>◌, ℕ, ◌+◌, ◌/◌, Bool, true, false, Option, none, some, ite,
  same, ◌≟◌, not, if◌then◌else◌,
}
use romancy.Json.{Json, null, bool, encodable}
use romancy.Errors.{Result, ok, err, mode_conflict, suspended, timer}
use romancy.Storage.Models.{ChannelMode, broadcast, direct}
use romancy.Storage.Channels.{subscribe_to_channel, unsubscribe_from_channel, get_channel_mode}
use romancy.Storage.Groups.{join_group, leave_group}
use romancy.Storage.World.{World, M, raise, in_context, ◌>>=◌}
use romancy.Activity.{
  ExecutionContext, held, Reply, result, Step, generate_activity_id, get_cached_result,
  set_cached_result, hit, put,
}
use romancy.Operations.Modes.{mode_text, is_direct, direct_channel}
use romancy.Operations.Wake.{publish_and_wake}

-- An operation that is done once: its id is generated, and a cached one is not done again. That it
-- was done is noted in the context only.
abbrev pub noted_once : String → ExecutionContext → Result (Unit {0}) × World → Step
noted_once activity_id ec (ok _, w) = (
  ok (encodable null),
  set_cached_result activity_id (result (held "bool" (encodable (bool true)))) ec,
  w,
)
noted_once activity_id ec (err e, w) = (err e, ec, w)

abbrev pub once_or_cached : String → ExecutionContext → M (Unit {0}) → World → Option Reply → Step
once_or_cached activity_id ec m w (some _) = (ok (encodable null), hit ec, w)
once_or_cached activity_id ec m w none = noted_once activity_id ec (m w)

unfoldable pub once : String → M (Unit {0}) → ExecutionContext → World → Step
unfolding get_cached_result
once function_name m ec w =
    let (activity_id, ec') = generate_activity_id function_name ec in
    once_or_cached activity_id ec' m w (get_cached_result activity_id ec')

-- `Sleep`; the duration in nanoseconds
abbrev pub slept : String → ℕ → ExecutionContext → World → Option Reply → Step
slept timer_id duration ec w (some _) = (ok (encodable null), hit ec, w)
slept timer_id duration ec w none =
    (err (suspended (timer timer_id timer_id ((w.clock + duration) / 1000000000))), ec, w)

unfoldable pub sleep : String → ℕ → ExecutionContext → World → Step
sleep given duration ec w =
    let (timer_id, ec') : String × ExecutionContext =
      ite (same given "") (generate_activity_id "sleep" ec) (given, ec) in
    slept timer_id duration ec' w (get_cached_result timer_id ec')

-- `SleepUntil`; the time in nanoseconds. A time that is not after now needs no sleep.
unfoldable pub sleep_until : String → ℕ → ExecutionContext → World → Step
unfolding sleep
sleep_until given until ec w =
    if leb until w.clock then (ok (encodable null), ec, w) else sleep given (until - w.clock) ec w

abbrev pub same_mode : ChannelMode → ChannelMode → Bool
same_mode a b = mode_text a ≟ mode_text b

abbrev pub conflicts : ChannelMode → Option ChannelMode → Bool
conflicts mode none = false
conflicts mode (some existing) = not (same_mode existing mode)

abbrev pub text_of_mode : Option ChannelMode → String
text_of_mode none = ""
text_of_mode (some mode) = mode_text mode

-- Direct channels are subscribed as broadcast ones.
abbrev pub actual_mode : ChannelMode → ChannelMode
actual_mode direct = broadcast
actual_mode mode = mode

abbrev pub actual_channel : String → ChannelMode → String → String
actual_channel channel direct instance_id = direct_channel channel instance_id
actual_channel channel _ instance_id = channel

unfoldable pub subscribe_checked : String → String → ChannelMode → M (Unit {0})
subscribe_checked instance_id channel mode = do
  existing ←
      in_context "failed to check channel mode"
        (get_channel_mode (actual_channel channel mode instance_id))
  (if conflicts (actual_mode mode) existing
      then raise (mode_conflict channel (text_of_mode existing) (mode_text mode))
      else in_context "failed to subscribe to channel" (
          subscribe_to_channel instance_id (actual_channel channel mode instance_id)
            (actual_mode mode)))

unfoldable pub subscribe : String → ChannelMode → ExecutionContext → World → Step
subscribe channel mode ec w =
    let ec' : ExecutionContext =
      if is_direct mode
      then record ec { direct_subscriptions = put channel true ec.direct_subscriptions }
      else ec in
    once ("subscribe_" <> channel) (subscribe_checked ec.instance_id channel mode) ec' w

unfoldable pub unsubscribe : String → ExecutionContext → World → Step
unsubscribe channel ec w =
    once ("unsubscribe_" <> channel)
      (in_context "failed to unsubscribe from channel"
        (unsubscribe_from_channel ec.instance_id channel))
      ec w

-- The data and the metadata have encodings.
unfoldable pub publish : String → Json → Option Json → ExecutionContext → World → Step
publish channel payload metadata ec w =
    once ("publish_" <> channel)
      (publish_and_wake "failed to publish to channel" channel payload metadata) ec w

unfoldable pub send_to : String → String → Json → Option Json → ExecutionContext → World → Step
send_to target channel payload metadata ec w =
    once ("send_to_" <> (target <> ("_" <> channel)))
      (publish_and_wake "failed to send to instance" (direct_channel channel target) payload
        metadata)
      ec w

unfoldable pub join : String → ExecutionContext → World → Step
join group ec w =
    once ("join_group_" <> group)
      (in_context "failed to join group" (join_group ec.instance_id group)) ec w

unfoldable pub leave : String → ExecutionContext → World → Step
leave group ec w =
    once ("leave_group_" <> group)
      (in_context "failed to leave group" (leave_group ec.instance_id group)) ec w
