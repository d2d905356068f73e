-- ===== src/Operations.antt =====
-- events.go and channels.go: what the code of a workflow asks of the engine besides activities.
pub mod Message
pub mod Modes
pub mod Wake
pub mod Transactions
pub mod Once
pub mod Receive
pub mod Events
use romancy.Base.{String, ℕ, Option, some}
use romancy.Json.{Json}
use romancy.Storage.Models.{ChannelMode}
use romancy.Storage.World.{World}
use romancy.Activity.{ExecutionContext, Step}
use romancy.Operations.Message.{Decoder}
use romancy.Operations.Once.{sleep, subscribe, unsubscribe, publish, send_to, join, leave}
use romancy.Operations.Receive.{receive}
use romancy.Operations.Events.{EventDecoder, wait_event}

-- A call of one of the functions, with its arguments.
pub data Operation : Type 0 where
  sleeps : (sleep_id : String) (duration : ℕ) → Operation
  subscribes : (channel : String) (mode : ChannelMode) → Operation
  unsubscribes : (channel : String) → Operation
  receives : Decoder → (channel : String) (timeout : Option ℕ) → Operation
  waits_for : EventDecoder → (event_type : String) (timeout : Option ℕ) → Operation
  publishes : (channel : String) (payload : Json) (metadata : Option Json) → Operation
  sends_to : (target channel : String) (payload : Json) (metadata : Option Json) → Operation
  joins : (group : String) → Operation
  leaves : (group : String) → Operation

-- What the function returns; the fuel is for `Receive`.
unfoldable pub perform_operation : ℕ → Operation → ExecutionContext → World → Option Step
perform_operation fuel (sleeps given duration) ec w = some (sleep given duration ec w)
perform_operation fuel (subscribes channel mode) ec w = some (subscribe channel mode ec w)
perform_operation fuel (unsubscribes channel) ec w = some (unsubscribe channel ec w)
perform_operation fuel (receives t channel timeout) ec w = receive fuel t channel timeout ec w
perform_operation fuel (waits_for t event_type timeout) ec w =
    wait_event fuel t event_type timeout ec w
perform_operation fuel (publishes channel payload metadata) ec w =
    some (publish channel payload metadata ec w)
perform_operation fuel (sends_to target channel payload metadata) ec w =
    some (send_to target channel payload metadata ec w)
perform_operation fuel (joins group) ec w = some (join group ec w)
perform_operation fuel (leaves group) ec w = some (leave group ec w)
