-- ===== src/Protocol/Frames.antt =====
-- crates/incomudon-protocol/src/lib.rs: the wire format as a relation between packets and
-- datagrams, stated without the decoder. Bytes of a header behind those that this version knows
-- (`extension`) are skipped by a receiver.
use incom_udon_native_rust.Base.{ℕ, ◌≤◌, ◌<◌, List, ◌++◌, ◌≡◌, ◌⊎◌, length}
use incom_udon_native_rust.Protocol.Types.{
  protocol_version, legacy_header_len, fixed_header_len, auth_tag_len, PacketHeader, SecurityHeader,
  HeaderIsTyped, SecurityIsTyped, Packet, plain, secured,
}
use incom_udon_native_rust.Protocol.Header.{encode_header, encode_security}
use incom_udon_native_rust.Protocol.Packets.{secured_header_len}

-- A header that a receiver accepts: this version, and the legacy length with no flags or a length
-- that holds the fixed header.
pub record HeaderIsAccepted (h : PacketHeader) : Type 0 where
  pub typed : HeaderIsTyped h
  pub version_is : h.version ≡ protocol_version
  pub len_is :
      ((h.header_len ≡ legacy_header_len) × (h.flags ≡ 0)) ⊎ (fixed_header_len ≤ h.header_len)

-- The datagram starts with this header, and is long enough for it.
pub record HeaderFrames (h : PacketHeader) (bs : List ℕ) : Type 0 where
  pub accepted : HeaderIsAccepted h
  pub fits : h.header_len ≤ length bs
  pub rest : List ℕ
  pub splits : bs ≡ encode_header h ++ rest

pub record PlainFrames (h : PacketHeader) (payload bs : List ℕ) : Type 0 where
  pub accepted : HeaderIsAccepted h
  pub short : h.header_len < secured_header_len
  pub extension : List ℕ
  pub header_size : length (encode_header h ++ extension) ≡ h.header_len
  pub splits : bs ≡ encode_header h ++ (extension ++ payload)

pub record SecuredFrames (h : PacketHeader) (s : SecurityHeader) (payload tag bs : List ℕ)
    : Type 0 where
  pub accepted : HeaderIsAccepted h
  pub long : secured_header_len ≤ h.header_len
  pub security_typed : SecurityIsTyped s
  pub tag_size : length tag ≡ auth_tag_len
  pub extension : List ℕ
  pub header_size : length (encode_header h ++ (encode_security s ++ extension)) ≡ h.header_len
  pub splits : bs ≡ encode_header h ++ (encode_security s ++ (extension ++ (payload ++ tag)))

-- The datagram `bs` carries the packet.
abbrev pub Frames : Packet → List ℕ → Type 0
Frames (plain h payload) bs = PlainFrames h payload bs
Frames (secured h s payload tag) bs = SecuredFrames h s payload tag bs
