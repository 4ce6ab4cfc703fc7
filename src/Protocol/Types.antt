-- ===== src/Protocol/Types.antt =====
-- crates/incomudon-protocol/src/lib.rs: constants, errors and the data of a packet. Bytes and
-- integers are native numbers; `IsTyped` predicates state the ranges of Rust's integer types.
use incom_udon_native_rust.Base.{ℕ, ◌<◌, ◌≡◌, List}
use incom_udon_native_rust.Base.{length}
use incom_udon_native_rust.Base.Words.{u8_mod, u16_mod, u32_mod, u64_mod, IsBytes}

abbrev pub protocol_version : ℕ
protocol_version = 1

abbrev pub legacy_header_len : ℕ
legacy_header_len = 14

abbrev pub fixed_header_len : ℕ
fixed_header_len = 16

abbrev pub security_header_len : ℕ
security_header_len = 12

abbrev pub auth_tag_len : ℕ
auth_tag_len = 16

abbrev pub flag_aes_gcm_v2 : ℕ
flag_aes_gcm_v2 = 0x0001

pub data ProtocolError : Type 0 where
  packet_too_short : ProtocolError
  unsupported_version : ℕ → ProtocolError
  unsupported_packet_type : ℕ → ProtocolError
  unsupported_header_length : ℕ → ProtocolError
  invalid_packet_length : ProtocolError

pub data PacketType : Type 0 where
  audio ptt_on ptt_off keepalive join leave grant release deny : PacketType
  key_exchange codec_config fec server_config ping pong : PacketType

pub record PacketHeader : Type 0 where
  pub version : ℕ
  pub packet_type : PacketType
  pub header_len : ℕ
  pub channel_id : ℕ
  pub sender_id : ℕ
  pub sequence : ℕ
  pub flags : ℕ

pub record SecurityHeader : Type 0 where
  pub nonce : ℕ
  pub key_id : ℕ

pub data Packet : Type 0 where
  plain : PacketHeader → List ℕ → Packet
  secured : PacketHeader → SecurityHeader → List ℕ → List ℕ → Packet

-- The ranges of the fields' integer types: what Rust's types give.
pub record HeaderIsTyped (h : PacketHeader) : Type 0 where
  pub version_u8 : h.version < u8_mod
  pub header_len_u16 : h.header_len < u16_mod
  pub channel_id_u32 : h.channel_id < u32_mod
  pub sender_id_u32 : h.sender_id < u32_mod
  pub sequence_u16 : h.sequence < u16_mod
  pub flags_u16 : h.flags < u16_mod

pub record SecurityIsTyped (s : SecurityHeader) : Type 0 where
  pub nonce_u64 : s.nonce < u64_mod
  pub key_id_u32 : s.key_id < u32_mod

abbrev pub header_of : Packet → PacketHeader
header_of (plain h payload) = h
header_of (secured h s payload tag) = h

abbrev pub payload_of : Packet → List ℕ
payload_of (plain h payload) = payload
payload_of (secured h s payload tag) = payload

-- `[u8; 16]` and the integer types of a packet.
abbrev pub IsTyped : Packet → Type 0
IsTyped (plain h payload) = HeaderIsTyped h × IsBytes payload
IsTyped (secured h s payload tag) =
    HeaderIsTyped h
    × SecurityIsTyped s
    × IsBytes payload
    × IsBytes tag
    × (length tag ≡ auth_tag_len)
