-- ===== src/Transport/Receive.antt =====
-- crates/incomudon-transport/src/lib.rs: `decode_pcm`, and the events of a received datagram.
use incom_udon_native_rust.Base.{
  ℕ, List, ◌++◌, Option, none, some, Bool, true, false, ◌&&◌, not, ◌==◌, if◌then◌else◌, length,
  drop, Outcome, ok, err, panic,
}
use incom_udon_native_rust.Protocol.Types.{
  PacketType, audio, PacketHeader, SecurityHeader, Packet, plain, secured, ProtocolError,
}
use incom_udon_native_rust.Protocol.Packets.{has_v2_flag, decode, aad}
use incom_udon_native_rust.Crypto.Primitives.{Primitives}
use incom_udon_native_rust.Crypto.Keys.{decrypt_aes_gcm_v2}
use incom_udon_native_rust.Transport.State.{
  RelayEvent, received, pcm_received, receive_rejected, Worker, ok_value,
}
use incom_udon_native_rust.Transport.Send.{send_event}

-- `header.packet_type == PacketType::Audio`
abbrev pub is_audio : PacketType → Bool
is_audio audio = true
is_audio _ = false

-- the check of the length behind the `match`
unfoldable pub pcm_payload : PacketHeader → Option (List ℕ) → Option (ℕ × List ℕ)
pcm_payload header none = none
pcm_payload header (some payload) =
    if not (length payload == 322) then none else some (header.sender_id, drop 2 payload)

module _ (c : Primitives) where
  -- `key.as_ref()?` and the decryption under `packet.aad()?`
  unfoldable pub decrypt_payload :
      Option (List ℕ) → SecurityHeader → List ℕ → Option (List ℕ) → Option (List ℕ)
  decrypt_payload none security encrypted aad = none
  decrypt_payload (some key) security encrypted none = none
  decrypt_payload (some key) security encrypted (some aad) =
      ok_value (decrypt_aes_gcm_v2 c key security.nonce encrypted aad)

  unfoldable pub decode_pcm : Packet → Option (List ℕ) → Option (ℕ × List ℕ)
  decode_pcm (plain header payload) key =
      if is_audio header.packet_type then pcm_payload header (some payload) else none
  decode_pcm (secured header security payload auth_tag) key =
      if is_audio header.packet_type && has_v2_flag header
      then pcm_payload header (
          decrypt_payload key security (payload ++ auth_tag)
            (aad (secured header security payload auth_tag)))
      else none

  -- the event of a decoded packet
  abbrev pub packet_event : Packet → Option (ℕ × List ℕ) → RelayEvent
  packet_event packet none = received packet
  packet_event packet (some (sender_id, frame)) = pcm_received sender_id frame

  -- `match Packet::decode(&buffer[..length])`
  unfoldable pub receive_outcome : Worker → Outcome ProtocolError Packet → Worker
  receive_outcome w (ok packet) = send_event w (packet_event packet (decode_pcm packet w.media.key))
  receive_outcome w (err error) = send_event w (receive_rejected error)
  receive_outcome w panic = w

  unfoldable pub receive : Worker → List ℕ → Worker
  receive w datagram = receive_outcome w (decode datagram)
