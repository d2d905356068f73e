-- ===== src/Operations/Modes.antt =====
-- channels.go: the modes of a channel and the name of a direct one.
use romancy.Base.{String, ◌<>◌, Bool, true, false}
use romancy.Storage.Models.{ChannelMode, broadcast, competing, direct}

abbrev pub mode_text : ChannelMode → String
mode_text broadcast = "broadcast"
mode_text competing = "competing"
mode_text direct = "direct"

abbrev pub is_direct : ChannelMode → Bool
is_direct direct = true
is_direct _ = false

-- "channel:instanceID"
abbrev pub direct_channel : String → String → String
direct_channel channel instance_id = channel <> (":" <> instance_id)
