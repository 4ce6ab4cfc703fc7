-- ===== src/Protocol/Header.antt =====
-- crates/incomudon-protocol/src/lib.rs: `PacketType`, `PacketHeader` and `SecurityHeader`, each
-- with its codec. An index out of range is `panic`.
use incom_udon_native_rust.Base.{
  ℕ, ◌*◌, ◌+◌, List, [], ◌∷◌, ◌++◌, not, ◌&&◌, ltb, ◌==◌, if◌then◌else◌,
}
use incom_udon_native_rust.Base.{length, Outcome, ok, err, ◌>>=◌, index}
use incom_udon_native_rust.Base.Words.{be16, be32, be64, from_be16, from_be32}
use incom_udon_native_rust.Protocol.Types.{
  protocol_version, legacy_header_len, fixed_header_len, security_header_len, ProtocolError,
  packet_too_short, unsupported_version, unsupported_packet_type, unsupported_header_length,
  invalid_packet_length, PacketType, audio, ptt_on, ptt_off, keepalive, join, leave, grant, release,
  deny, key_exchange, codec_config, fec, server_config, ping, pong, PacketHeader, SecurityHeader,
}

-- `self.packet_type as u8`
unfoldable pub type_byte : PacketType → ℕ
type_byte audio = 0x01
type_byte ptt_on = 0x02
type_byte ptt_off = 0x03
type_byte keepalive = 0x04
type_byte join = 0x05
type_byte leave = 0x06
type_byte grant = 0x07
type_byte release = 0x08
type_byte deny = 0x09
type_byte key_exchange = 0x0a
type_byte codec_config = 0x0b
type_byte fec = 0x0c
type_byte server_config = 0x0d
type_byte ping = 0x0e
type_byte pong = 0x0f

-- `PacketType::try_from`
unfoldable pub type_try_from : ℕ → Outcome ProtocolError PacketType
type_try_from value =
    if value == 0x01
    then ok audio
    else if value == 0x02
    then ok ptt_on
    else if value == 0x03
    then ok ptt_off
    else if value == 0x04
    then ok keepalive
    else if value == 0x05
    then ok join
    else if value == 0x06
    then ok leave
    else if value == 0x07
    then ok grant
    else if value == 0x08
    then ok release
    else if value == 0x09
    then ok deny
    else if value == 0x0a
    then ok key_exchange
    else if value == 0x0b
    then ok codec_config
    else if value == 0x0c
    then ok fec
    else if value == 0x0d
    then ok server_config
    else if value == 0x0e
    then ok ping
    else if value == 0x0f
    then ok pong
    else err (unsupported_packet_type value)

-- `PacketHeader::new`
unfoldable pub new_header : PacketType → ℕ → ℕ → ℕ → PacketHeader
new_header packet_type channel_id sender_id sequence = record {
  version = protocol_version;
  packet_type = packet_type;
  header_len = fixed_header_len;
  channel_id = channel_id;
  sender_id = sender_id;
  sequence = sequence;
  flags = 0;
}

unfoldable pub encode_header : PacketHeader → List ℕ
encode_header h =
    (h.version ∷ type_byte h.packet_type ∷ [])
    ++ (be16 h.header_len
        ++ (be32 h.channel_id
            ++ (be32 h.sender_id
                ++ (be16 h.sequence
                    ++ (if not (h.header_len == legacy_header_len) then be16 h.flags else [])))))

-- `u16::from_be_bytes([bytes[i], bytes[j]])`
abbrev pub read_u16 : List ℕ → ℕ → ℕ → Outcome ProtocolError ℕ
read_u16 bytes i j = do a ← index bytes i; b ← index bytes j; ok (from_be16 a b)

-- `u32::from_be_bytes` of the four bytes from `i` on
abbrev pub read_u32 : List ℕ → ℕ → ℕ → ℕ → ℕ → Outcome ProtocolError ℕ
read_u32 bytes i j k l = do
  a ← index bytes i
  b ← index bytes j
  c ← index bytes k
  d ← index bytes l
  ok (from_be32 a b c d)

-- the checks of `PacketHeader::decode`, which end with `header_len`
unfoldable pub checked_header_len : List ℕ → Outcome ProtocolError ℕ
checked_header_len bytes = if ltb (length bytes) legacy_header_len then err packet_too_short else do
  version ← index bytes 0
  if not (version == protocol_version) then err (unsupported_version version) else do
    header_len ← read_u16 bytes 2 3
    if not (header_len == legacy_header_len) && ltb header_len fixed_header_len
        then err (unsupported_header_length header_len)
        else if ltb (length bytes) header_len
        then err invalid_packet_length
        else ok header_len

-- the fields of `PacketHeader::decode`, in the order in which they are evaluated
unfoldable pub decode_fields : List ℕ → ℕ → Outcome ProtocolError PacketHeader
decode_fields bytes header_len = do
  flags ← if header_len == legacy_header_len then ok 0 else read_u16 bytes 14 15
  version ← index bytes 0
  type_value ← index bytes 1
  packet_type ← type_try_from type_value
  channel_id ← read_u32 bytes 4 5 6 7
  sender_id ← read_u32 bytes 8 9 10 11
  sequence ← read_u16 bytes 12 13
  ok (record {
    version = version;
    packet_type = packet_type;
    header_len = header_len;
    channel_id = channel_id;
    sender_id = sender_id;
    sequence = sequence;
    flags = flags;
  })

unfoldable pub decode_header : List ℕ → Outcome ProtocolError PacketHeader
decode_header bytes = checked_header_len bytes >>= decode_fields bytes

unfoldable pub encode_security : SecurityHeader → List ℕ
encode_security s = be64 s.nonce ++ be32 s.key_id

unfoldable pub decode_security : List ℕ → Outcome ProtocolError SecurityHeader
decode_security bytes = if ltb (length bytes) security_header_len then err packet_too_short else do
  high ← read_u32 bytes 0 1 2 3
  low ← read_u32 bytes 4 5 6 7
  key_id ← read_u32 bytes 8 9 10 11
  ok (record { nonce = high * 0x1_0000_0000 + low; key_id = key_id })
