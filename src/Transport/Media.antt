-- ===== src/Transport/Media.antt =====
-- crates/incomudon-transport/src/lib.rs: audio from `send_pcm` over the wire to `decode_pcm`.
use incom_udon_native_rust.Base.{
  ℕ, ◌+◌, ◌-◌, ◌%◌, List, [], ◌∷◌, ◌++◌, Option, some, true, false, if◌then◌else◌, length, take,
  drop, ok, ◌≡◌, refl, ap, ◌∙◌, arith, ◌⊎◌, inl, inr, ==_iff, take-append-drop,
}
use incom_udon_native_rust.Base.Words.{u16_mod}
use incom_udon_native_rust.Protocol.Types.{
  audio, PacketHeader, SecurityHeader, Packet, plain, secured, auth_tag_len, header_of,
}
use incom_udon_native_rust.Protocol.Packets.{decode, aad, has_v2_flag}
use incom_udon_native_rust.Protocol.Encode.{aad-secured}
use incom_udon_native_rust.Profiles.Store.{EncryptionMode, aes_gcm_v2, aes_gcm_v1, no_encryption}
use incom_udon_native_rust.Crypto.Primitives.{Primitives, IsLawful}
use incom_udon_native_rust.Crypto.Keys.{aes_gcm_v2_key_id, decrypt_aes_gcm_v2, packet_nonce}
use incom_udon_native_rust.Transport.State.{
  RelayConfig, Worker, Env, is_plain, is_v2, ConfigIsTyped, WorkerIsTyped,
}
use incom_udon_native_rust.Transport.Send.{pcm_header, send_pcm}
use incom_udon_native_rust.Transport.Receive.{pcm_payload, decrypt_payload, decode_pcm}
use incom_udon_native_rust.Transport.Wire.{
  IsCurrent, send_packet-wire, encrypted_packet, plaintext_of, aad_of, counted, pcm_counted,
  send_pcm-plain, send_pcm-encrypted, pcm_header-IsTyped, encrypted_packet-IsCurrent,
}

pub is_v2-not_plain : (m : EncryptionMode) → is_v2 m ≡ true → is_plain m ≡ false
is_v2-not_plain aes_gcm_v2 h = refl
is_v2-not_plain aes_gcm_v1 h = refl
is_v2-not_plain no_encryption h = cc

module _ (env : Env) (config : RelayConfig) (typed : ConfigIsTyped config) (c : Primitives)
    (law : IsLawful c) where
  -- What sending audio wants: no encryption, or version 2 with a media key and a cipher that works.
  abbrev pub CanSend : Worker → List ℕ → Type 0
  CanSend w frame =
      (is_plain config.encryption ≡ true)
      ⊎ ((key : List ℕ) × (out : List ℕ) × (is_v2 config.encryption ≡ true)
          × (w.media.key ≡ some key)
          × (c.aes_gcm_encrypt key (packet_nonce c w.media.nonce) (plaintext_of w frame)
                (aad_of config w)
              ≡ some out))

  pcm_payload-plaintext :
      (header : PacketHeader) (w : Worker) (frame : List ℕ)
      → length frame ≡ 320
      → pcm_payload header (some (plaintext_of w frame)) ≡ some (header.sender_id, frame)
  unfolding pcm_payload
  pcm_payload-plaintext header w frame n =
      rw ((==_iff (length (plaintext_of w frame)) 322).1 (omega arith))

  pub decode_pcm-plain :
      (w : Worker) (frame : List ℕ) (key : Option (List ℕ))
      → length frame ≡ 320
      → decode_pcm c (plain (pcm_header config w.sequence) (plaintext_of w frame)) key
        ≡ some (config.sender_id, frame)
  unfolding decode_pcm
  decode_pcm-plain w frame key n = pcm_payload-plaintext (pcm_header config w.sequence) w frame n

  v2_flag :
      (sequence : ℕ)
      → is_v2 config.encryption ≡ true
      → has_v2_flag (pcm_header config sequence) ≡ true
  v2_flag sequence m = rw m

  decrypt_payload-some :
      (key encrypted aad msg : List ℕ) (s : SecurityHeader)
      → c.aes_gcm_decrypt key (packet_nonce c s.nonce) encrypted aad ≡ some msg
      → decrypt_payload c (some key) s encrypted (some aad) ≡ some msg
  unfolding decrypt_payload decrypt_aes_gcm_v2
  decrypt_payload-some key encrypted aad msg s e = rw (e, decrypt_payload, decrypt_aes_gcm_v2)

  decode_pcm-flagged :
      (h : PacketHeader) (s : SecurityHeader) (payload tag : List ℕ) (key : Option (List ℕ))
      → h.packet_type ≡ audio
      → has_v2_flag h ≡ true
      → decode_pcm c (secured h s payload tag) key
        ≡ pcm_payload h (decrypt_payload c key s (payload ++ tag) (aad (secured h s payload tag)))
  unfolding decode_pcm
  decode_pcm-flagged h s payload tag key t f = rw (t, f)

  module _ (w : Worker) (frame key out : List ℕ) (n : length frame ≡ 320)
      (m : is_v2 config.encryption ≡ true)
      (e : c.aes_gcm_encrypt key
          (packet_nonce c w.media.nonce)
          (plaintext_of w frame)
          (aad_of config w)
        ≡ some out) where
    pub decode_pcm-encrypted :
        decode_pcm c (encrypted_packet config w out) (some key) ≡ some (config.sender_id, frame)
    decode_pcm-encrypted =
        decode_pcm-flagged (pcm_header config w.sequence)
          (record { nonce = w.media.nonce; key_id = aes_gcm_v2_key_id })
          (take (length out - auth_tag_len) out) (drop (length out - auth_tag_len) out) (some key)
          refl (v2_flag w.sequence m)
        ∙ ap (pcm_payload (pcm_header config w.sequence)) (
            ap
              (decrypt_payload c (some key)
                (record { nonce = w.media.nonce; key_id = aes_gcm_v2_key_id })
                (take (length out - auth_tag_len) out ++ drop (length out - auth_tag_len) out))
              (aad-secured (pcm_header config w.sequence)
                (record { nonce = w.media.nonce; key_id = aes_gcm_v2_key_id })
                (take (length out - auth_tag_len) out) (drop (length out - auth_tag_len) out)
                (v2_flag w.sequence m))
            ∙ ap
                (λ x.
                  decrypt_payload c (some key)
                    (record { nonce = w.media.nonce; key_id = aes_gcm_v2_key_id }) x
                    (some (aad_of config w)))
                (take-append-drop (length out - auth_tag_len) out)
            ∙ decrypt_payload-some key out (aad_of config w) (plaintext_of w frame)
                (record { nonce = w.media.nonce; key_id = aes_gcm_v2_key_id })
                (law.decrypt-encrypt key (packet_nonce c w.media.nonce) (plaintext_of w frame)
                  (aad_of config w) out e))
        ∙ pcm_payload-plaintext (pcm_header config w.sequence) w frame n

  -- For a configuration and a worker in the range of their types, without encryption, or with
  -- version 2, a media key and a lawful cipher that seals this frame: a frame of 320 bytes goes
  -- out as one datagram, under the worker's sequence number, which moves on by one and wraps. The
  -- datagram is decoded to a packet from which a receiver with the same media key takes the sender
  -- and the frame. The audio counter moves on, and the nonce too if the frame is encrypted.
  pub send_pcm-decode_pcm :
      (w : Worker) (frame : List ℕ)
      → WorkerIsTyped w
      → length frame ≡ 320
      → CanSend w frame
      → (bytes : List ℕ) × (p : Packet) × ((send_pcm env c config w frame).wire
          ≡ w.wire ++ bytes ∷ [])
        × (decode bytes ≡ ok p)
        × (header_of p ≡ pcm_header config w.sequence)
        × (decode_pcm c p w.media.key ≡ some (config.sender_id, frame))
        × ((send_pcm env c config w frame).sequence ≡ (w.sequence + 1) % u16_mod)
        × ((send_pcm env c config w frame).media
            ≡ (if is_plain config.encryption then pcm_counted w else counted w).media)
  send_pcm-decode_pcm w frame t n (inl m) =
      let current : IsCurrent (plain (pcm_header config w.sequence) (plaintext_of w frame)) =
        (pcm_header-IsTyped config typed w.sequence t.sequence_u16, refl, rw m refl) in
      let (bytes, d, wire, seq, media) =
        send_packet-wire env (pcm_counted w)
          (plain (pcm_header config w.sequence) (plaintext_of w frame)) current in
      let same = send_pcm-plain env config c w frame n m in
      (
        bytes,
        plain (pcm_header config w.sequence) (plaintext_of w frame),
        ap (λ (v : Worker). v.wire) same ∙ wire,
        d,
        refl,
        decode_pcm-plain w frame w.media.key n,
        ap (λ (v : Worker). v.sequence) same ∙ seq,
        rw m (ap (λ (v : Worker). v.media) same ∙ media),
      )
  send_pcm-decode_pcm w frame t n (inr (key, out, m, k, e)) =
      let size =
        law.encrypt-length key (packet_nonce c w.media.nonce) (plaintext_of w frame)
          (aad_of config w) out e in
      let not_plain = is_v2-not_plain config.encryption m in
      let current =
        encrypted_packet-IsCurrent config typed w out t.sequence_u16 t.nonce_u64 not_plain
          (omega (arith, size)) in
      let (bytes, d, wire, seq, media) =
        send_packet-wire env (counted w) (encrypted_packet config w out) current in
      let same =
        send_pcm-encrypted env config c w frame key out n not_plain k e (omega (arith, size)) in
      (
        bytes,
        encrypted_packet config w out,
        ap (λ (v : Worker). v.wire) same ∙ wire,
        d,
        refl,
        ap (decode_pcm c (encrypted_packet config w out)) k
            ∙ decode_pcm-encrypted w frame key out n m e,
        ap (λ (v : Worker). v.sequence) same ∙ seq,
        rw not_plain (ap (λ (v : Worker). v.media) same ∙ media),
      )
