-- ===== src/Protocol/Packets.antt =====
-- crates/incomudon-protocol/src/lib.rs: `Packet::encode`, `Packet::decode`, `Packet::aad`.
use Prim.Native.Nat.{bit_and}
use incom_udon_native_rust.Base.{
  ℕ, ◌+◌, ◌-◌, ◌%◌, List, ◌++◌, Bool, not, ◌&&◌, ltb, ◌==◌, if◌then◌else◌, Option, none, some,
}
use incom_udon_native_rust.Base.{length, Outcome, ok, err, ◌>>=◌, slice, slice_from}
use incom_udon_native_rust.Base.Words.{u16_mod}
use incom_udon_native_rust.Protocol.Types.{
  legacy_header_len, fixed_header_len, security_header_len, auth_tag_len, flag_aes_gcm_v2,
  ProtocolError, unsupported_header_length, invalid_packet_length, PacketHeader, Packet, plain,
  secured,
}
use incom_udon_native_rust.Protocol.Header.{
  encode_header, decode_header, encode_security, decode_security,
}

-- `(FIXED_HEADER_LEN as usize + SECURITY_HEADER_LEN) as u16`
abbrev pub secured_header_len : ℕ
secured_header_len = (fixed_header_len + security_header_len) % u16_mod

unfoldable pub encode : Packet → Outcome ProtocolError (List ℕ)
encode (plain header payload) =
    if not (header.header_len == legacy_header_len) && not (header.header_len == fixed_header_len)
    then err (unsupported_header_length header.header_len)
    else ok (encode_header header ++ payload)
encode (secured header security payload auth_tag) =
    if not (header.header_len == secured_header_len)
    then err (unsupported_header_length header.header_len)
    else ok (encode_header header ++ (encode_security security ++ (payload ++ auth_tag)))

-- the part of `Packet::decode` behind the header
unfoldable pub decode_body : List ℕ → PacketHeader → Outcome ProtocolError Packet
decode_body bytes header =
    let payload_start = header.header_len in
    if ltb header.header_len secured_header_len
    then (do payload ← slice_from bytes payload_start; ok (plain header payload))
    else if ltb (length bytes) (payload_start + auth_tag_len)
    then err invalid_packet_length
    else do
      security_bytes ← slice bytes fixed_header_len payload_start
      security ← decode_security security_bytes
      let tag_start = length bytes - auth_tag_len
      auth_tag ← slice_from bytes tag_start
      payload ← slice bytes payload_start tag_start
      ok (secured header security payload auth_tag)

unfoldable pub decode : List ℕ → Outcome ProtocolError Packet
decode bytes = decode_header bytes >>= decode_body bytes

-- `header.flags & FLAG_AES_GCM_V2 != 0`
abbrev pub has_v2_flag : PacketHeader → Bool
has_v2_flag header = not (bit_and header.flags flag_aes_gcm_v2 == 0)

unfoldable pub aad : Packet → Option (List ℕ)
aad (plain header payload) = none
aad (secured header security payload auth_tag) =
    if has_v2_flag header then some (encode_header header ++ encode_security security) else none
