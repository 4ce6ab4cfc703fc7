-- ===== src/Protocol/Tests.antt =====
-- crates/incomudon-protocol/src/lib.rs: the codec at concrete packets.
use incom_udon_native_rust.Base.{
  ℕ, ◌≡◌, ◌↔◌, refl, arith, List, [], ◌∷◌, replicate, ok, err, some, take,
}
use incom_udon_native_rust.Base.Words.{IsBytes}
use incom_udon_native_rust.Protocol.Types.{
  PacketHeader, SecurityHeader, Packet, plain, secured, audio, ping, IsTyped,
  unsupported_header_length,
}
use incom_udon_native_rust.Protocol.Header.{
  encode_header, encode_security, decode_header, decode_security, checked_header_len, decode_fields,
  type_try_from, type_byte,
}
use incom_udon_native_rust.Protocol.Packets.{encode, decode, decode_body, aad}
use incom_udon_native_rust.Protocol.Frames.{Frames}
use incom_udon_native_rust.Protocol.Complete.{decode-eq-ok_iff}
use incom_udon_native_rust.Protocol.Encode.{decode-encode, encode-decode, aad-decode}
use incom_udon_native_rust.Protocol.Errors.{Settles, decode-Settles}

abbrev long_header : PacketHeader
long_header = record {
  version = 1;
  packet_type = audio;
  header_len = 30;
  channel_id = 258;
  sender_id = 9;
  sequence = 5;
  flags = 1;
}

abbrev security : SecurityHeader
security = record { nonce = 300; key_id = 2 }

-- A secured packet under a header of thirty bytes, two more than this version knows.
abbrev long_packet : Packet
long_packet = secured long_header security (170 ∷ 187 ∷ []) (replicate 16 7)

abbrev long_datagram : List ℕ
long_datagram =
    1
    ∷ 1
    ∷ 0
    ∷ 30
    ∷ 0
    ∷ 0
    ∷ 1
    ∷ 2
    ∷ 0
    ∷ 0
    ∷ 0
    ∷ 9
    ∷ 0
    ∷ 5
    ∷ 0
    ∷ 1
    ∷ 0
    ∷ 0
    ∷ 0
    ∷ 0
    ∷ 0
    ∷ 0
    ∷ 1
    ∷ 44
    ∷ 0
    ∷ 0
    ∷ 0
    ∷ 2
    ∷ 99
    ∷ 98
    ∷ 170
    ∷ 187
    ∷ replicate 16 7

long_datagram-IsBytes : IsBytes long_datagram
long_datagram-IsBytes = omega arith

long_datagram-decodes : decode long_datagram ≡ ok long_packet
unfolding decode decode_header checked_header_len decode_fields type_try_from decode_body
    decode_security
long_datagram-decodes = refl

decode-eq-ok_iff_example :
    (decode long_datagram ≡ ok long_packet) ↔ Frames long_packet long_datagram
decode-eq-ok_iff_example = decode-eq-ok_iff long_datagram long_packet long_datagram-IsBytes

encode-decode_example : encode long_packet ≡ err (unsupported_header_length 30)
encode-decode_example = encode-decode long_datagram long_datagram-IsBytes long_datagram-decodes

aad-decode_example : aad long_packet ≡ some (take 28 long_datagram)
aad-decode_example =
    aad-decode long_datagram long_header security (170 ∷ 187 ∷ []) (replicate 16 7)
      long_datagram-IsBytes long_datagram-decodes refl

-- A packet under a legacy header, whose flags are not sent.
abbrev legacy_header : PacketHeader
legacy_header = record {
  version = 1;
  packet_type = ping;
  header_len = 14;
  channel_id = 7;
  sender_id = 9;
  sequence = 65_535;
  flags = 3;
}

abbrev legacy_datagram : List ℕ
legacy_datagram = 1 ∷ 14 ∷ 0 ∷ 14 ∷ 0 ∷ 0 ∷ 0 ∷ 7 ∷ 0 ∷ 0 ∷ 0 ∷ 9 ∷ 255 ∷ 255 ∷ 42 ∷ []

legacy_packet-IsTyped : IsTyped (plain legacy_header (42 ∷ []))
legacy_packet-IsTyped = omega arith

legacy_packet-encodes : encode (plain legacy_header (42 ∷ [])) ≡ ok legacy_datagram
unfolding encode encode_header type_byte
legacy_packet-encodes = refl

decode-encode_example :
    decode legacy_datagram ≡ ok (plain (record legacy_header { flags = 0 }) (42 ∷ []))
decode-encode_example =
    decode-encode (plain legacy_header (42 ∷ [])) legacy_packet-IsTyped legacy_packet-encodes

decode-Settles_example : Settles (1 ∷ 2 ∷ []) (decode (1 ∷ 2 ∷ []))
decode-Settles_example = decode-Settles (1 ∷ 2 ∷ [])

-- The unit test `aes_gcm_v2_header_matches_spec_vector`.
abbrev vector_packet : Packet
vector_packet =
    secured
      (record {
        version = 1;
        packet_type = audio;
        header_len = 28;
        channel_id = 1_234;
        sender_id = 5_678;
        sequence = 42;
        flags = 1;
      })
      (record { nonce = 0x0102_0304_0506_0708; key_id = 2 }) [] (replicate 16 0)

aes_gcm_v2_header_matches_spec_vector :
    aad vector_packet
    ≡ some (
        0x01 ∷ 0x01 ∷ 0x00 ∷ 0x1c ∷ 0x00 ∷ 0x00 ∷ 0x04 ∷ 0xd2 ∷ 0x00 ∷ 0x00 ∷ 0x16 ∷ 0x2e ∷ 0x00
        ∷ 0x2a ∷ 0x00 ∷ 0x01 ∷ 0x01 ∷ 0x02 ∷ 0x03 ∷ 0x04 ∷ 0x05 ∷ 0x06 ∷ 0x07 ∷ 0x08 ∷ 0x00 ∷ 0x00
        ∷ 0x00 ∷ 0x02 ∷ [])
unfolding aad encode_header encode_security type_byte
aes_gcm_v2_header_matches_spec_vector = refl
