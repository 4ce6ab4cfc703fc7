-- ===== src/Transport/Send.antt =====
-- crates/incomudon-transport/src/lib.rs: `send_event`, `send_packet`, `send_control`, `send_pcm`.
use incom_udon_native_rust.Base.{
  ℕ, ◌-◌, List, [], ◌∷◌, ◌++◌, Option, none, some, not, ltb, ◌==◌, if◌then◌else◌, length, take,
  drop, replicate, Outcome, ok, err, panic,
}
use incom_udon_native_rust.Base.Text.{Text, codes}
use incom_udon_native_rust.Base.Words.{be16, wrapping_add16, wrapping_add64}
use incom_udon_native_rust.Protocol.Types.{
  protocol_version, fixed_header_len, auth_tag_len, flag_aes_gcm_v2, PacketType, audio,
  PacketHeader, SecurityHeader, Packet, plain, secured, header_of, ProtocolError,
}
use incom_udon_native_rust.Protocol.Header.{encode_header, encode_security}
use incom_udon_native_rust.Protocol.Packets.{secured_header_len, encode}
use incom_udon_native_rust.Crypto.Primitives.{Primitives}
use incom_udon_native_rust.Crypto.Keys.{aes_gcm_v2_key_id, CryptoError, encrypt_aes_gcm_v2}
use incom_udon_native_rust.Transport.State.{
  default_event_capacity, RelayConfig, RelayEvent, sent, io_error, Worker, Env, is_plain, is_v2,
}

-- `try_send` on the bounded channel; a full channel drops the event
unfoldable pub send_event : Worker → RelayEvent → Worker
send_event w event =
    if ltb (length w.events) default_event_capacity
    then record w { events = w.events ++ event ∷ [] }
    else w

-- the packet that `send_control` builds
unfoldable pub control_packet : RelayConfig → ℕ → PacketType → List ℕ → Packet
control_packet config sequence packet_type payload =
    let header : PacketHeader = record {
      version = protocol_version;
      packet_type = packet_type;
      header_len = if is_plain config.encryption then fixed_header_len else secured_header_len;
      channel_id = config.channel_id;
      sender_id = config.sender_id;
      sequence = sequence;
      flags = 0;
    } in
    if is_plain config.encryption
    then plain header payload
    else secured header (record { nonce = 0; key_id = 0 }) payload (replicate auth_tag_len 0)

-- the header of an audio packet
abbrev pub pcm_header : RelayConfig → ℕ → PacketHeader
pcm_header config sequence = record {
  version = protocol_version;
  packet_type = audio;
  header_len = if is_plain config.encryption then fixed_header_len else 28;
  channel_id = config.channel_id;
  sender_id = config.sender_id;
  sequence = sequence;
  flags = if is_v2 config.encryption then flag_aes_gcm_v2 else 0;
}

module _ (env : Env) where
  -- the result of `socket.send`, as an event
  abbrev pub send_outcome : Option Text → PacketType → RelayEvent
  send_outcome none packet_type = sent packet_type
  send_outcome (some error) packet_type = io_error error

  -- the part of `send_packet` behind `encode`
  unfoldable pub send_encoded : Worker → PacketType → Outcome ProtocolError (List ℕ) → Worker
  send_encoded w packet_type (err error) = send_event w (io_error (env.error_text error))
  send_encoded w packet_type panic = w
  send_encoded w packet_type (ok bytes) =
      send_event (record w { wire = w.wire ++ bytes ∷ [] })
        (send_outcome (env.send_result (length w.wire)) packet_type)

  unfoldable pub send_packet : Worker → Packet → Worker
  send_packet w packet = send_encoded w (header_of packet).packet_type (encode packet)

  unfoldable pub send_control : RelayConfig → Worker → PacketType → List ℕ → Worker
  send_control config w packet_type payload =
      send_packet (record w { sequence = wrapping_add16 w.sequence 1 })
        (control_packet config w.sequence packet_type payload)

  module _ (c : Primitives) where
    -- the result of the cipher; on less than a tag the code panics, and nothing more is done
    unfoldable pub send_encrypted :
        Worker → PacketHeader → SecurityHeader → Outcome CryptoError (List ℕ) → Worker
    send_encrypted w header security (ok encrypted) =
        let tag_start = length encrypted - auth_tag_len in
        if ltb (length encrypted) auth_tag_len
        then w
        else send_packet w
            (secured header security (take tag_start encrypted) (drop tag_start encrypted))
    send_encrypted w header security (err error) =
        send_event w (io_error (codes "PCM encryption failed"))
    send_encrypted w header security panic = w

    -- the branch that has a media key, or lacks it
    unfoldable pub send_secured : Worker → PacketHeader → List ℕ → Option (List ℕ) → Worker
    send_secured w header plaintext none =
        send_event w (io_error (codes "AES-GCM v2 media key is unavailable"))
    send_secured w header plaintext (some key) =
        let security : SecurityHeader = record {
          nonce = w.media.nonce;
          key_id = aes_gcm_v2_key_id;
        } in
        let w' = record w { media = record w.media { nonce = wrapping_add64 w.media.nonce 1 } } in
        send_encrypted w' header security (
          encrypt_aes_gcm_v2 c key security.nonce plaintext
            (encode_header header ++ encode_security security))

    unfoldable pub send_pcm : RelayConfig → Worker → List ℕ → Worker
    send_pcm config w frame =
        if not (length frame == 320)
        then send_event w (io_error (codes "invalid PCM frame length"))
        else (let plaintext = be16 w.media.audio_sequence ++ frame in
            let w' = record w {
              sequence = wrapping_add16 w.sequence 1;
              media = record w.media { audio_sequence = wrapping_add16 w.media.audio_sequence 1 };
            } in
            let header = pcm_header config w.sequence in
            if is_plain config.encryption
            then send_packet w' (plain header plaintext)
            else send_secured w' header plaintext w.media.key)
