-- ===== src/Desktop/Window.antt =====
-- apps/desktop/src/main.rs: the window's properties, and the functions that move a profile, the
-- relay endpoint and the relay's events into them and back.
pub mod Fields
pub mod Panics
use incom_udon_native_rust.Base.{
  ℕ, zero, suc, ◌-◌, ◌^◌, List, [], ◌∷◌, ◌++◌, Option, none, some, Bool, true, false, ltb,
  if◌then◌else◌, Outcome, ok, err, panic, ◌>>=◌, ◌>>◌, map_err,
}
use incom_udon_native_rust.Base.Text.{Text, codes, trim}
use incom_udon_native_rust.Base.Decimal.{to_string, parse_u32}
use incom_udon_native_rust.Protocol.Types.{
  PacketType, leave, grant, release, deny, Packet, ProtocolError, header_of,
}
use incom_udon_native_rust.Profiles.Store.{
  Codec, opus, codec2, pcm, aes_gcm_v2, TransceiverProfile, RelayEndpoint, ProfileError,
  validate_profile, validate_relay_endpoint,
}
use incom_udon_native_rust.Transport.State.{
  SocketAddr, RelayEvent, connected, sent, received, pcm_received, receive_rejected, io_error,
  stopped,
}

-- Slint's `int`, an `i32`: a number, or the negative of a successor
pub data ℤ : Type 0 where
  pos negsuc : ℕ → ℤ

-- `as i32` of a `u32`
abbrev pub as_i32 : ℕ → ℤ
as_i32 n = if ltb n (2 ^ 31) then pos n else negsuc (2 ^ 32 - 1 - n)

-- `u32::try_from` and `u16::try_from` of an `i32`
abbrev pub u32_try_from : ℤ → Option ℕ
u32_try_from (pos n) = some n
u32_try_from (negsuc n) = none

abbrev pub u16_try_from : ℤ → Option ℕ
u16_try_from (pos n) = if ltb n (2 ^ 16) then some n else none
u16_try_from (negsuc n) = none

-- The properties of the window, which each setter replaces and each getter reads.
pub record AppWindow : Type 0 where
  pub profile_name : Text
  pub channel_id : Text
  pub sender_id : Text
  pub receive_only : Bool
  pub mute_self_id : Bool
  pub codec_index : ℤ
  pub bitrate_bps : ℤ
  pub relay_host : Text
  pub relay_port : ℤ
  pub force_ipv4 : Bool
  pub connection_status : Text
  pub active_talker : Text
  pub profile_save_status : Text

-- `to_string` of what the messages show
pub record Texts : Type 0 where
  pub profile_error : ProfileError → Text
  pub protocol_error : ProtocolError → Text
  pub socket_addr : SocketAddr → Text

unfoldable pub codec_to_index : Codec → ℤ
codec_to_index opus = pos 0
codec_to_index codec2 = pos 1
codec_to_index pcm = pos 2

unfoldable pub codec_from_index : ℤ → Outcome Text Codec
codec_from_index (pos zero) = ok opus
codec_from_index (pos (suc zero)) = ok codec2
codec_from_index (pos (suc (suc zero))) = ok pcm
codec_from_index _ = err (codes "unknown codec selection")

abbrev pub unwrap_or_default : Option ℕ → ℕ
unwrap_or_default none = 0
unwrap_or_default (some n) = n

unfoldable pub apply_profile_to_window : AppWindow → TransceiverProfile → AppWindow
apply_profile_to_window w profile = record w {
  profile_name = profile.name;
  channel_id = to_string profile.channel_id;
  sender_id = to_string profile.sender_id;
  receive_only = profile.receive_only;
  mute_self_id = profile.mute_self_id;
  codec_index = codec_to_index profile.codec;
  bitrate_bps = as_i32 (unwrap_or_default profile.bitrate_bps);
}

unfoldable pub apply_relay_to_window : AppWindow → RelayEndpoint → AppWindow
apply_relay_to_window w relay = record w {
  relay_host = relay.host;
  relay_port = pos relay.port;
  force_ipv4 = relay.force_ipv4;
}

-- `ok_or` and the `map_err` that forgets the error
abbrev pub or_message : Text → Option ℕ → Outcome Text ℕ
or_message message (some n) = ok n
or_message message none = err message

abbrev pub positive : Option ℕ → Option ℕ
positive (some n) = if ltb 0 n then some n else none
positive none = none

unfoldable pub selected_bitrate : Codec → ℤ → Option ℕ
selected_bitrate pcm value = none
selected_bitrate opus value = positive (u32_try_from value)
selected_bitrate codec2 value = positive (u32_try_from value)

-- the profile in front of its validation
unfoldable pub entered_profile : AppWindow → ℕ → ℕ → Codec → TransceiverProfile
entered_profile w channel_id sender_id codec = record {
  name = trim w.profile_name;
  channel_id = channel_id;
  sender_id = sender_id;
  codec = codec;
  bitrate_bps = selected_bitrate codec w.bitrate_bps;
  encryption = aes_gcm_v2;
  receive_only = w.receive_only;
  mute_self_id = w.mute_self_id;
}

unfoldable pub entered_relay : AppWindow → ℕ → RelayEndpoint
entered_relay w port = record { host = trim w.relay_host; port = port; force_ipv4 = w.force_ipv4 }

unfoldable pub set_save_status : AppWindow → Text → AppWindow
set_save_status w status = record w { profile_save_status = status }

abbrev pub set_connection_status : AppWindow → Text → AppWindow
set_connection_status w status = record w { connection_status = status }

abbrev pub set_active_talker : AppWindow → Text → AppWindow
set_active_talker w talker = record w { active_talker = talker }

-- the `match` on the packet's type
unfoldable pub show_packet : AppWindow → PacketType → ℕ → AppWindow
show_packet w grant sender_id = set_active_talker w (codes "Sender " ++ to_string sender_id)
show_packet w release sender_id = set_active_talker w (codes "No active speaker")
show_packet w deny sender_id = set_connection_status w (codes "Talk request denied")
show_packet w _ sender_id = w

unfoldable pub update_talker_from_packet : AppWindow → Packet → AppWindow
update_talker_from_packet w packet =
    show_packet w (header_of packet).packet_type (header_of packet).sender_id

abbrev show_sent : AppWindow → PacketType → AppWindow
show_sent w leave = set_connection_status w (codes "Disconnecting")
show_sent w _ = w

module _ (texts : Texts) where
  unfoldable pub profile_from_window : AppWindow → Outcome Text TransceiverProfile
  profile_from_window w = do
    channel_id ←
        or_message (codes "channel ID must be an unsigned integer") (parse_u32 w.channel_id)
    sender_id ← or_message (codes "sender ID must be an unsigned integer") (parse_u32 w.sender_id)
    codec ← codec_from_index w.codec_index
    map_err texts.profile_error (validate_profile (entered_profile w channel_id sender_id codec))
    ok (entered_profile w channel_id sender_id codec)

  unfoldable pub relay_from_window : AppWindow → Outcome Text RelayEndpoint
  relay_from_window w = do
    port ← or_message (codes "relay port is invalid") (u16_try_from w.relay_port)
    map_err texts.profile_error (validate_relay_endpoint (entered_relay w port))
    ok (entered_relay w port)

  unfoldable pub apply_relay_event : AppWindow → RelayEvent → AppWindow × Bool
  apply_relay_event w (connected local_addr) = (
    set_connection_status w (codes "Connected (" ++ (texts.socket_addr local_addr ++ codes ")")),
    false,
  )
  apply_relay_event w (sent packet_type) = (show_sent w packet_type, false)
  apply_relay_event w (received packet) = (update_talker_from_packet w packet, false)
  apply_relay_event w (pcm_received sender_id frame) = (w, false)
  apply_relay_event w (receive_rejected error) = (
    set_connection_status w (codes "Ignored relay packet: " ++ texts.protocol_error error),
    false,
  )
  apply_relay_event w (io_error message) =
      (set_connection_status w (codes "Relay network error"), false)
  apply_relay_event w stopped = (
    set_active_talker (set_connection_status w (codes "Disconnected")) (codes "No active speaker"),
    true,
  )
