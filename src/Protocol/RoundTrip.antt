-- ===== src/Protocol/RoundTrip.antt =====
-- crates/incomudon-protocol/src/lib.rs: decoding what `encode` wrote.
use incom_udon_native_rust.Base.{ℕ, ◌≤◌, List, ◌++◌, ◌≡◌, refl, ◌⊎◌, arith}
use incom_udon_native_rust.Base.{length, ok}
use incom_udon_native_rust.Base.Words.{from_be16_lem}
use incom_udon_native_rust.Protocol.Types.{
  protocol_version, legacy_header_len, fixed_header_len, PacketType, audio, PacketHeader,
  HeaderIsTyped,
}
use incom_udon_native_rust.Protocol.Header.{
  type_byte, type_try_from, encode_header, checked_header_len, decode_fields,
}

pub type_try_from-type_byte : (t : PacketType) → type_try_from (type_byte t) ≡ ok t
unfolding type_try_from type_byte
type_try_from-type_byte audio = refl
type_try_from-type_byte _ = refl

module _ (h : PacketHeader) (rest : List ℕ) (typed : HeaderIsTyped h) where
  pub checked-encode_header :
      h.version ≡ protocol_version
      → (h.header_len ≡ legacy_header_len) ⊎ (fixed_header_len ≤ h.header_len)
      → h.header_len ≤ length (encode_header h ++ rest)
      → checked_header_len (encode_header h ++ rest) ≡ ok h.header_len
  unfolding checked_header_len encode_header
  checked-encode_header v k fits = ground (arith, from_be16_lem h.header_len typed.header_len_u16)

  pub fields-encode_header :
      (h.header_len ≡ legacy_header_len → h.flags ≡ 0)
      → decode_fields (encode_header h ++ rest) h.header_len ≡ ok h
  unfolding decode_fields encode_header
  fields-encode_header f = ground (arith, type_try_from-type_byte h.packet_type)
