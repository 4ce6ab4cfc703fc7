-- ===== src/Transport/State.antt =====
-- crates/incomudon-transport/src/lib.rs: configuration, commands, events and the worker's state.
-- The UDP socket and the rendering of errors as text are the parameter `Env`; durations and
-- instants are milliseconds.
use incom_udon_native_rust.Base.{
  ℕ, ◌<◌, List, [], Option, none, some, Bool, true, false, if◌then◌else◌, Outcome, ok, err, panic,
}
use incom_udon_native_rust.Base.Text.{Text}
use incom_udon_native_rust.Base.Words.{u16_mod, u32_mod, u64_mod}
use incom_udon_native_rust.Protocol.Types.{PacketType, Packet, ProtocolError}
use incom_udon_native_rust.Profiles.Store.{EncryptionMode, aes_gcm_v2, aes_gcm_v1, no_encryption}
use incom_udon_native_rust.Crypto.Primitives.{Primitives}
use incom_udon_native_rust.Crypto.Keys.{
  normalize_password, derive_password_key, derive_aes_gcm_v2_key,
}

abbrev pub default_keepalive_interval : ℕ
default_keepalive_interval = 10_000

abbrev pub default_command_capacity : ℕ
default_command_capacity = 64

abbrev pub default_event_capacity : ℕ
default_event_capacity = 128

-- `SocketAddr`: the address's bits, its family and the port
pub record SocketAddr : Type 0 where
  pub is_ipv6 : Bool
  pub ip : ℕ
  pub port : ℕ

pub record RelayConfig : Type 0 where
  pub relay_addr : SocketAddr
  pub channel_id : ℕ
  pub sender_id : ℕ
  pub encryption : EncryptionMode
  pub password : Text
  pub keepalive_interval : ℕ

-- `RelayConfig::new`
unfoldable pub new_config : SocketAddr → ℕ → ℕ → EncryptionMode → RelayConfig
new_config relay_addr channel_id sender_id encryption = record {
  relay_addr = relay_addr;
  channel_id = channel_id;
  sender_id = sender_id;
  encryption = encryption;
  password = [];
  keepalive_interval = default_keepalive_interval;
}

pub data RelayCommand : Type 0 where
  send : Packet → RelayCommand
  send_pcm : List ℕ → RelayCommand
  send_control : PacketType → List ℕ → RelayCommand
  disconnect : RelayCommand

pub data RelayEvent : Type 0 where
  connected : SocketAddr → RelayEvent
  sent : PacketType → RelayEvent
  received : Packet → RelayEvent
  pcm_received : ℕ → List ℕ → RelayEvent
  receive_rejected : ProtocolError → RelayEvent
  io_error : Text → RelayEvent
  stopped : RelayEvent

pub record MediaState : Type 0 where
  pub key : Option (List ℕ)
  pub audio_sequence : ℕ
  pub nonce : ℕ

-- The worker's variables, the events that wait in the channel, oldest first, and every datagram
-- that was handed to the socket, in order.
pub record Worker : Type 0 where
  pub sequence : ℕ
  pub media : MediaState
  pub last_keepalive : ℕ
  pub running : Bool
  pub events : List RelayEvent
  pub wire : List (List ℕ)

pub record Env : Type 0 where
  -- the error of the n-th call of `UdpSocket::send`, if it fails
  pub send_result : ℕ → Option Text
  -- `to_string` of a protocol error
  pub error_text : ProtocolError → Text

-- the tests `config.encryption == EncryptionMode::None` and `== EncryptionMode::AesGcmV2`
abbrev pub is_plain : EncryptionMode → Bool
is_plain no_encryption = true
is_plain aes_gcm_v1 = false
is_plain aes_gcm_v2 = false

abbrev pub is_v2 : EncryptionMode → Bool
is_v2 no_encryption = false
is_v2 aes_gcm_v1 = false
is_v2 aes_gcm_v2 = true

abbrev pub ok_value {ℓ κ} : {E : Type ℓ} {A : Type κ} → Outcome E A → Option A
ok_value (ok a) = some a
ok_value (err e) = none
ok_value panic = none

module _ (c : Primitives) where
  unfoldable pub media_key : RelayConfig → Option (List ℕ)
  media_key config =
      if is_v2 config.encryption
      then ok_value (
          derive_aes_gcm_v2_key c
            (derive_password_key c (normalize_password c config.password) config.channel_id))
      else none

  -- `MediaState::new`; the random nonce is an argument
  unfoldable pub new_media : RelayConfig → ℕ → MediaState
  new_media config nonce = record { key = media_key config; audio_sequence = 0; nonce = nonce }

-- The ranges of the integer types in the configuration and in the media state.
pub record ConfigIsTyped (config : RelayConfig) : Type 0 where
  pub channel_id_u32 : config.channel_id < u32_mod
  pub sender_id_u32 : config.sender_id < u32_mod

pub record WorkerIsTyped (w : Worker) : Type 0 where
  pub sequence_u16 : w.sequence < u16_mod
  pub audio_sequence_u16 : w.media.audio_sequence < u16_mod
  pub nonce_u64 : w.media.nonce < u64_mod
