-- ===== src/Transport/Wire.antt =====
-- crates/incomudon-transport/src/lib.rs: what the handlers put on the wire.
use incom_udon_native_rust.Base.{
  ℕ, ◌+◌, ◌-◌, ◌%◌, ◌≤◌, ◌<◌, List, [], ◌∷◌, ◌++◌, some, true, false, ◌==◌, if◌then◌else◌, length,
  take, drop, ok, ◌≡◌, refl, ap, ◌∙◌, arith, inl, inr, Bool-cases, ge→ltb, ==_iff, length-drop,
}
use incom_udon_native_rust.Base.Words.{be16, wrapping_add16, wrapping_add64, u16_mod, u64_mod}
use incom_udon_native_rust.Protocol.Types.{
  protocol_version, fixed_header_len, auth_tag_len, PacketType, PacketHeader, SecurityHeader,
  HeaderIsTyped, SecurityIsTyped, Packet, plain, secured, header_of,
}
use incom_udon_native_rust.Protocol.Header.{encode_header, encode_security}
use incom_udon_native_rust.Protocol.Packets.{secured_header_len, encode, decode}
use incom_udon_native_rust.Protocol.Encode.{
  received-PlainFrames, received-SecuredFrames, encode-current_plain, encode-current_secured,
}
use incom_udon_native_rust.Protocol.Complete.{Frames-decode}
use incom_udon_native_rust.Crypto.Primitives.{Primitives}
use incom_udon_native_rust.Crypto.Keys.{aes_gcm_v2_key_id, encrypt_aes_gcm_v2, packet_nonce}
use incom_udon_native_rust.Transport.State.{
  RelayConfig, RelayEvent, Worker, Env, is_plain, ConfigIsTyped,
}
use incom_udon_native_rust.Transport.Send.{
  send_event, send_outcome, send_encoded, send_packet, control_packet, send_control, pcm_header,
  send_encrypted, send_secured, send_pcm,
}

-- A packet as this version writes it: the current header lengths, typed fields, a whole tag.
abbrev pub IsCurrent : Packet → Type 0
IsCurrent (plain h payload) =
    HeaderIsTyped h × (h.version ≡ protocol_version) × (h.header_len ≡ fixed_header_len)
IsCurrent (secured h s payload tag) =
    HeaderIsTyped h
    × (h.version ≡ protocol_version)
    × (h.header_len ≡ secured_header_len)
    × SecurityIsTyped s
    × (length tag ≡ auth_tag_len)

plain-survives :
    (h : PacketHeader) (payload : List ℕ)
    → IsCurrent (plain h payload)
    → (bytes : List ℕ) × (encode (plain h payload) ≡ ok bytes)
      × (decode bytes ≡ ok (plain h payload))
plain-survives h payload (t, v, l) =
    let e = encode-current_plain h payload (ground arith) in
    let f = received-PlainFrames h payload t v e in
    (
      encode_header h ++ payload,
      e,
      Frames-decode (plain (if h.header_len == 14 then record h { flags = 0 } else h) payload) _ f
          ∙ ap (λ h. ok (plain h payload)) (ground arith),
    )

secured-survives :
    (h : PacketHeader) (s : SecurityHeader) (payload tag : List ℕ)
    → IsCurrent (secured h s payload tag)
    → (bytes : List ℕ) × (encode (secured h s payload tag) ≡ ok bytes)
      × (decode bytes ≡ ok (secured h s payload tag))
secured-survives h s payload tag (t, v, l, st, n) =
    let e = encode-current_secured h s payload tag (ground arith) in
    let f = received-SecuredFrames h s payload tag t st n v e in
    (
      encode_header h ++ (encode_security s ++ (payload ++ tag)),
      e,
      Frames-decode
            (secured (if h.header_len == 14 then record h { flags = 0 } else h) s payload tag) _ f
          ∙ ap (λ h. ok (secured h s payload tag)) (ground arith),
    )

pub IsCurrent-survives :
    (p : Packet) → IsCurrent p → (bytes : List ℕ) × (encode p ≡ ok bytes) × (decode bytes ≡ ok p)
IsCurrent-survives (plain h payload) i = plain-survives h payload i
IsCurrent-survives (secured h s payload tag) i = secured-survives h s payload tag i

-- Events do not touch the rest of the worker.
pub send_event-rest :
    (w : Worker) (e : RelayEvent)
    → ((send_event w e).wire ≡ w.wire)
      × ((send_event w e).sequence ≡ w.sequence)
      × ((send_event w e).media ≡ w.media)
      × ((send_event w e).running ≡ w.running)
unfolding send_event
send_event-rest w e = ground arith

module _ (env : Env) where
  -- Sending a packet of this version puts one datagram on the wire, from which it is decoded.
  pub send_packet-wire :
      (w : Worker) (p : Packet)
      → IsCurrent p
      → (bytes : List ℕ) × (decode bytes ≡ ok p)
        × ((send_packet env w p).wire ≡ w.wire ++ bytes ∷ [])
        × ((send_packet env w p).sequence ≡ w.sequence)
        × ((send_packet env w p).media ≡ w.media)
  unfolding send_packet send_encoded
  send_packet-wire w p i =
      let (bytes, e, d) = IsCurrent-survives p i in
      let rest =
        send_event-rest (record w { wire = w.wire ++ bytes ∷ [] })
          (send_outcome env (env.send_result (length w.wire)) (header_of p).packet_type) in
      (bytes, d, rw e (rest.0), rw e (rest.1), rw e (rest.2))

-- The packet that carries an encrypted frame.
abbrev pub encrypted_packet : RelayConfig → Worker → List ℕ → Packet
encrypted_packet config w out =
    secured (pcm_header config w.sequence)
      (record { nonce = w.media.nonce; key_id = aes_gcm_v2_key_id })
      (take (length out - auth_tag_len) out) (drop (length out - auth_tag_len) out)

abbrev pub plaintext_of : Worker → List ℕ → List ℕ
plaintext_of w frame = be16 w.media.audio_sequence ++ frame

-- the additional data
abbrev pub aad_of : RelayConfig → Worker → List ℕ
aad_of config w =
    encode_header (pcm_header config w.sequence)
    ++ encode_security (record { nonce = w.media.nonce; key_id = aes_gcm_v2_key_id })

-- the worker behind the statements that count
abbrev pub counted : Worker → Worker
counted w = record w {
  sequence = wrapping_add16 w.sequence 1;
  media = record w.media {
    audio_sequence = wrapping_add16 w.media.audio_sequence 1;
    nonce = wrapping_add64 w.media.nonce 1;
  };
}

-- past the check of the length
abbrev pub pcm_counted : Worker → Worker
pcm_counted w = record w {
  sequence = wrapping_add16 w.sequence 1;
  media = record w.media { audio_sequence = wrapping_add16 w.media.audio_sequence 1 };
}

module _ (env : Env) (config : RelayConfig) (c : Primitives) where
  send_pcm-secured :
      (w : Worker) (frame : List ℕ)
      → length frame ≡ 320
      → is_plain config.encryption ≡ false
      → send_pcm env c config w frame
        ≡ send_secured env c
            (pcm_counted w)
            (pcm_header config w.sequence)
            (plaintext_of w frame)
            w.media.key
  unfolding send_pcm
  send_pcm-secured w frame n m = rw ((==_iff (length frame) 320).1 n, m)

  pub send_pcm-plain :
      (w : Worker) (frame : List ℕ)
      → length frame ≡ 320
      → is_plain config.encryption ≡ true
      → send_pcm env c config w frame
        ≡ send_packet env
            (pcm_counted w)
            (plain (pcm_header config w.sequence) (plaintext_of w frame))
  unfolding send_pcm
  send_pcm-plain w frame n m = rw ((==_iff (length frame) 320).1 n, m)

  encrypt-ok :
      (key msg aad out : List ℕ) (counter : ℕ)
      → c.aes_gcm_encrypt key (packet_nonce c counter) msg aad ≡ some out
      → encrypt_aes_gcm_v2 c key counter msg aad ≡ ok out
  unfolding encrypt_aes_gcm_v2
  encrypt-ok key msg aad out counter e = rw (e, encrypt_aes_gcm_v2)

  send_encrypted-ok :
      (w : Worker) (header : PacketHeader) (security : SecurityHeader) (out : List ℕ)
      → 16 ≤ length out
      → send_encrypted env c w header security (ok out)
        ≡ send_packet env w (
            secured header security
              (take (length out - auth_tag_len) out)
              (drop (length out - auth_tag_len) out))
  unfolding send_encrypted
  send_encrypted-ok w header security out l = rw (ge→ltb (length out) auth_tag_len l)

  pub send_pcm-encrypted :
      (w : Worker) (frame key out : List ℕ)
      → length frame ≡ 320
      → is_plain config.encryption ≡ false
      → w.media.key ≡ some key
      → c.aes_gcm_encrypt key
          (packet_nonce c w.media.nonce)
          (plaintext_of w frame)
          (aad_of config w)
        ≡ some out
      → 16 ≤ length out
      → send_pcm env c config w frame ≡ send_packet env (counted w) (encrypted_packet config w out)
  unfolding send_secured
  send_pcm-encrypted w frame key out n m k e l =
      send_pcm-secured w frame n m
      ∙ ap
          (send_secured env c (pcm_counted w) (pcm_header config w.sequence) (plaintext_of w frame))
          k
      ∙ ap
          (send_encrypted env c (counted w) (pcm_header config w.sequence)
            (record { nonce = w.media.nonce; key_id = aes_gcm_v2_key_id }))
          (encrypt-ok key (plaintext_of w frame) (aad_of config w) out w.media.nonce e)
      ∙ send_encrypted-ok (counted w) (pcm_header config w.sequence)
          (record { nonce = w.media.nonce; key_id = aes_gcm_v2_key_id }) out l

module _ (config : RelayConfig) (typed : ConfigIsTyped config) where
  pub pcm_header-IsTyped :
      (sequence : ℕ) → sequence < u16_mod → HeaderIsTyped (pcm_header config sequence)
  pcm_header-IsTyped sequence h = ground (arith, typed.channel_id_u32, typed.sender_id_u32)

  pub encrypted_packet-IsCurrent :
      (w : Worker) (out : List ℕ)
      → w.sequence < u16_mod
      → w.media.nonce < u64_mod
      → is_plain config.encryption ≡ false
      → 16 ≤ length out
      → IsCurrent (encrypted_packet config w out)
  encrypted_packet-IsCurrent w out s n m l = (
    pcm_header-IsTyped w.sequence s,
    refl,
    rw m,
    record { nonce_u64 = n; key_id_u32 = omega arith },
    omega (arith, length-drop (length out - auth_tag_len) out),
  )

module _ (env : Env) (config : RelayConfig) (typed : ConfigIsTyped config) where
  control_packet-IsCurrent :
      (sequence : ℕ) (t : PacketType) (payload : List ℕ)
      → sequence < u16_mod
      → IsCurrent (control_packet config sequence t payload)
  unfolding control_packet
  control_packet-IsCurrent sequence t payload h = elim (Bool-cases (is_plain config.encryption)) [
    | inl e ↦ rw e (omega (arith, typed.channel_id_u32, typed.sender_id_u32))
    | inr e ↦ rw e (omega (arith, typed.channel_id_u32, typed.sender_id_u32))
  ]

  -- For a configuration and a sequence number in the range of their types, a control packet goes
  -- out as one datagram, whatever the mode. The datagram is decoded to the packet that was meant,
  -- with the worker's sequence number, which then moves on by one and wraps; the media state
  -- stays.
  pub send_control-wire :
      (w : Worker) (t : PacketType) (payload : List ℕ)
      → w.sequence < u16_mod
      → (bytes : List ℕ) × (decode bytes ≡ ok (control_packet config w.sequence t payload))
        × ((send_control env config w t payload).wire ≡ w.wire ++ bytes ∷ [])
        × ((send_control env config w t payload).sequence ≡ (w.sequence + 1) % u16_mod)
        × ((send_control env config w t payload).media ≡ w.media)
  unfolding send_control
  send_control-wire w t payload h =
      send_packet-wire env (record w { sequence = wrapping_add16 w.sequence 1 })
        (control_packet config w.sequence t payload)
        (control_packet-IsCurrent w.sequence t payload h)
