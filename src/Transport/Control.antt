-- ===== src/Transport/Control.antt =====
-- crates/incomudon-transport/src/lib.rs: what a control packet is to carry, field by field.
use incom_udon_native_rust.Base.{
  ℕ, ◌+◌, ◌%◌, ◌<◌, List, [], ◌∷◌, ◌++◌, true, false, replicate, length, ok, ◌≡◌, refl, inl, inr,
  Bool-cases,
}
use incom_udon_native_rust.Base.Words.{u16_mod}
use incom_udon_native_rust.Protocol.Types.{
  PacketType, leave, Packet, plain, secured, header_of, payload_of,
}
use incom_udon_native_rust.Protocol.Packets.{decode}
use incom_udon_native_rust.Transport.State.{RelayConfig, Worker, Env, is_plain, ConfigIsTyped}
use incom_udon_native_rust.Transport.Send.{send_control, control_packet}
use incom_udon_native_rust.Transport.Wire.{send_control-wire}

-- The part of a packet in front of its payload and behind it: without encryption the short header
-- and nothing else, otherwise the long one, a security header of zeros and a tag of zeros.
abbrev pub Unsealed : RelayConfig → Packet → Type 0
Unsealed config (plain h payload) = (is_plain config.encryption ≡ true) × (h.header_len ≡ 16)
Unsealed config (secured h s payload tag) =
    (is_plain config.encryption ≡ false)
    × (h.header_len ≡ 28)
    × (s.nonce ≡ 0)
    × (s.key_id ≡ 0)
    × (tag ≡ replicate 16 0)

-- The packet is of version 1, of this type, from this sender on this channel, with this number and
-- this payload, and it is not encrypted.
pub record Carries (config : RelayConfig) (number : ℕ) (t : PacketType) (body : List ℕ) (p : Packet)
    : Type 0 where
  pub version : (header_of p).version ≡ 1
  pub packet_type : (header_of p).packet_type ≡ t
  pub channel : (header_of p).channel_id ≡ config.channel_id
  pub sender : (header_of p).sender_id ≡ config.sender_id
  pub sequence : (header_of p).sequence ≡ number
  pub flags : (header_of p).flags ≡ 0
  pub payload : payload_of p ≡ body
  pub unsealed : Unsealed config p

pub control_packet-Carries :
    (config : RelayConfig) (sequence : ℕ) (t : PacketType) (payload : List ℕ)
    → Carries config sequence t payload (control_packet config sequence t payload)
unfolding control_packet
control_packet-Carries config sequence t payload = elim (Bool-cases (is_plain config.encryption)) [
  | inl e ↦ rw e (record {
    version = refl;
    packet_type = refl;
    channel = refl;
    sender = refl;
    sequence = refl;
    flags = refl;
    payload = refl;
    unsealed = (e, refl);
  })
  | inr e ↦ rw e (record {
    version = refl;
    packet_type = refl;
    channel = refl;
    sender = refl;
    sequence = refl;
    flags = refl;
    payload = refl;
    unsealed = (e, refl, refl, refl, refl);
  })
]

-- The last datagram of the wire is decoded to a leave packet with the number of the datagrams
-- before it.
abbrev pub EndsInLeave : RelayConfig → List (List ℕ) → Type 0
EndsInLeave config wire =
    (before : List (List ℕ)) × (bytes : List ℕ) × (p : Packet) × (wire ≡ before ++ bytes ∷ [])
    × (decode bytes ≡ ok p)
    × Carries config (length before % u16_mod) leave [] p

module _ (env : Env) (config : RelayConfig) (typed : ConfigIsTyped config) where
  -- For a configuration and a sequence number in the range of their types, a control packet goes
  -- out as one datagram, whatever the mode. The datagram is decoded to a packet of version 1 with
  -- the type and the payload of the call, the configured channel and sender, the worker's sequence
  -- number and no flags; it is a plain packet with 16 bytes of header if the mode is no encryption,
  -- and otherwise it has 28 bytes of header, and nonce, key id and tag are zeros. The sequence
  -- number then moves on by one and wraps; the media state stays.
  pub send_control-Carries :
      (w : Worker) (t : PacketType) (payload : List ℕ)
      → w.sequence < u16_mod
      → (bytes : List ℕ) × (p : Packet) × ((send_control env config w t payload).wire
          ≡ w.wire ++ bytes ∷ [])
        × (decode bytes ≡ ok p)
        × Carries config w.sequence t payload p
        × ((send_control env config w t payload).sequence ≡ (w.sequence + 1) % u16_mod)
        × ((send_control env config w t payload).media ≡ w.media)
  send_control-Carries w t payload h =
      let (bytes, d, wire, seq, media) = send_control-wire env config typed w t payload h in
      (
        bytes,
        control_packet config w.sequence t payload,
        wire,
        d,
        control_packet-Carries config w.sequence t payload,
        seq,
        media,
      )
