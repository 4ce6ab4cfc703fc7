-- ===== src/Transport/Stream.antt =====
-- crates/incomudon-transport/src/lib.rs: the sequence numbers of the packets that the handlers send.
use incom_udon_native_rust.Base.{
  ℕ, ◌+◌, ◌%◌, ◌<◌, List, [], ◌∷◌, ◌++◌, Option, some, true, false, ltb, ◌==◌, if◌then◌else◌,
  length, get_elem?, ok, ◌≡◌, refl, sym, ap, ◌∙◌, arith, ◌⊎◌, inl, inr, Bool-cases, ltb→le, ==_iff,
  length-append, get_elem?-append_left, get_elem?-append_middle, get_elem?-lt, subst,
}
use incom_udon_native_rust.Base.Words.{u16_mod, u64_mod}
use incom_udon_native_rust.Protocol.Types.{PacketType, PacketHeader, Packet, header_of}
use incom_udon_native_rust.Protocol.Packets.{decode}
use incom_udon_native_rust.Base.Text.{codes}
use incom_udon_native_rust.Crypto.Keys.{packet_nonce}
use incom_udon_native_rust.Crypto.Primitives.{Primitives, IsLawful}
use incom_udon_native_rust.Transport.State.{
  RelayConfig, RelayCommand, disconnect, RelayEvent, connected, stopped, io_error, Worker, Env,
  SocketAddr, is_plain, is_v2, ConfigIsTyped, WorkerIsTyped,
}
use incom_udon_native_rust.Transport.State
use incom_udon_native_rust.Transport.Send.{send_event, control_packet, send_control, send_pcm}
use incom_udon_native_rust.Transport.Wire.{
  send_event-rest, send_control-wire, plaintext_of, aad_of, counted, pcm_counted,
}
use incom_udon_native_rust.Transport.Media.{CanSend, send_pcm-decode_pcm}

-- The datagram is a packet of this sender, with the sequence number of position `i`.
abbrev pub SentAs : RelayConfig → ℕ → List ℕ → Type 0
SentAs config i bytes =
    (p : Packet) × (decode bytes ≡ ok p)
    × ((header_of p).sequence ≡ i % u16_mod)
    × ((header_of p).channel_id ≡ config.channel_id)
    × ((header_of p).sender_id ≡ config.sender_id)

-- No encryption, or version 2 with a media key.
abbrev pub MediaKey : RelayConfig → Option (List ℕ) → Type 0
MediaKey config media_key =
    (is_plain config.encryption ≡ true)
    ⊎ ((is_v2 config.encryption ≡ true) × (key : List ℕ) × (media_key ≡ some key))

pub record InStream (config : RelayConfig) (w : Worker) : Type 0 where
  pub numbered : w.sequence ≡ length w.wire % u16_mod
  pub sent : (i : ℕ) (bytes : List ℕ) → get_elem? w.wire i ≡ some bytes → SentAs config i bytes
  pub typed : WorkerIsTyped w
  pub has_key : MediaKey config w.media.key

-- Nothing on the wire has changed.
abbrev pub Same : Worker → Worker → Type 0
Same w w' = (w'.wire ≡ w.wire) × (w'.sequence ≡ w.sequence) × (w'.media ≡ w.media)

module _ (config : RelayConfig) where
  pub Same-InStream : (w w' : Worker) → Same w w' → InStream config w → InStream config w'
  Same-InStream w w' (a, b, c) s = record {
    numbered = b ∙ s.numbered ∙ ap (λ x. length x % u16_mod) (sym a);
    sent = λ i bytes g. s.sent i bytes (ap (λ x. get_elem? x i) (sym a) ∙ g);
    typed = record {
      sequence_u16 = omega (arith, b, s.typed.sequence_u16);
      audio_sequence_u16 =
          omega
            (arith, ap (λ (m : State.MediaState). m.audio_sequence) c, s.typed.audio_sequence_u16);
      nonce_u64 = omega (arith, ap (λ (m : State.MediaState). m.nonce) c, s.typed.nonce_u64);
    };
    has_key = subst (MediaKey config) (sym (ap (λ (m : State.MediaState). m.key) c)) s.has_key;
  }

  -- One more datagram, numbered next.
  append-sent :
      (wire : List (List ℕ)) (new : List ℕ)
      → ((i : ℕ) (bytes : List ℕ) → get_elem? wire i ≡ some bytes → SentAs config i bytes)
      → SentAs config (length wire) new
      → (i : ℕ) (bytes : List ℕ) → get_elem? (wire ++ new ∷ []) i ≡ some bytes
      → SentAs config i bytes
  append-sent wire new old last i bytes g = elim (Bool-cases (ltb i (length wire))) [
    | inl before ↦ old i bytes (sym (get_elem?-append_left wire (new ∷ []) i (ground arith)) ∙ g)
    | inr behind ↦
        let i_is : length wire ≡ i = omega (
          arith,
          get_elem?-lt (wire ++ new ∷ []) i g,
          length-append wire (new ∷ []),
          ltb→le i (length wire) behind,
        ) in
        let bytes_is : new ≡ bytes =
          cc (get_elem?-append_middle wire [] new, ap (get_elem? (wire ++ new ∷ [])) i_is) in
        subst (λ j. SentAs config j bytes) i_is (subst (SentAs config (length wire)) bytes_is last)
  ]

  Next-InStream :
      (w w' : Worker) (new : List ℕ)
      → w'.wire ≡ w.wire ++ new ∷ []
      → SentAs config (length w.wire) new
      → w'.sequence ≡ (w.sequence + 1) % u16_mod
      → WorkerIsTyped w'
      → w'.media.key ≡ w.media.key
      → InStream config w
      → InStream config w'
  Next-InStream w w' new a last b t k s = record {
    numbered = omega (arith, b, s.numbered, ap length a, length-append w.wire (new ∷ []));
    sent = λ i bytes g.
        append-sent w.wire new s.sent last i bytes (ap (λ x. get_elem? x i) (sym a) ∙ g);
    typed = t;
    has_key = subst (MediaKey config) (sym k) s.has_key;
  }

-- The cipher seals every frame: it refuses none but a message of gigabytes.
abbrev pub SealsFrames : Primitives → Type 0
SealsFrames c =
    (key nonce msg aad : List ℕ)
    → length msg ≡ 322
    → (out : List ℕ) × (c.aes_gcm_encrypt key nonce msg aad ≡ some out)

header_of-control_packet :
    (config : RelayConfig) (sequence : ℕ) (t : PacketType) (payload : List ℕ)
    → ((header_of (control_packet config sequence t payload)).sequence ≡ sequence)
      × ((header_of (control_packet config sequence t payload)).channel_id ≡ config.channel_id)
      × ((header_of (control_packet config sequence t payload)).sender_id ≡ config.sender_id)
unfolding control_packet
header_of-control_packet config sequence t payload =
    elim (Bool-cases (is_plain config.encryption)) [
      | inl e ↦ rw e (refl, refl, refl)
      | inr e ↦ rw e (refl, refl, refl)
    ]

pub send_event-InStream :
    (config : RelayConfig) (w : Worker) (e : RelayEvent)
    → InStream config w
    → InStream config (send_event w e)
send_event-InStream config w e s =
    let r = send_event-rest w e in Same-InStream config w (send_event w e) (r.0, r.1, r.2) s

module _ (env : Env) (config : RelayConfig) (typed : ConfigIsTyped config) where
  pub send_control-InStream :
      (w : Worker) (t : PacketType) (payload : List ℕ)
      → InStream config w
      → InStream config (send_control env config w t payload)
  send_control-InStream w t payload s =
      let (bytes, d, wire, seq, media) =
        send_control-wire env config typed w t payload s.typed.sequence_u16 in
      let (a, b, e) = header_of-control_packet config w.sequence t payload in
      Next-InStream config w (send_control env config w t payload) bytes wire
        (control_packet config w.sequence t payload, d, a ∙ s.numbered, b, e) seq
        (record {
          sequence_u16 = omega (arith, seq);
          audio_sequence_u16 = omega (
            arith,
            ap (λ (m : State.MediaState). m.audio_sequence) media,
            s.typed.audio_sequence_u16,
          );
          nonce_u64 =
              omega (arith, ap (λ (m : State.MediaState). m.nonce) media, s.typed.nonce_u64);
        })
        (ap (λ (m : State.MediaState). m.key) media) s

  module _ (c : Primitives) (law : IsLawful c) (seals : SealsFrames c) where
    InStream-CanSend :
        (w : Worker) (frame : List ℕ)
        → length frame ≡ 320
        → InStream config w
        → CanSend env config typed c law w frame
    InStream-CanSend w frame n s = elim s.has_key [
      | inl plain ↦ inl plain
      | inr (v2, key, k) ↦
          let (out, e) =
            seals key (packet_nonce c w.media.nonce) (plaintext_of w frame) (aad_of config w)
              (omega (arith, n)) in
          inr (key, out, v2, k, e)
    ]

    media-IsTyped :
        (w : Worker)
        → WorkerIsTyped w
        → ((if is_plain config.encryption then pcm_counted w else counted w).media.audio_sequence
            < u16_mod)
          × ((if is_plain config.encryption then pcm_counted w else counted w).media.nonce
              < u64_mod)
          × ((if is_plain config.encryption then pcm_counted w else counted w).media.key
              ≡ w.media.key)
    media-IsTyped w t = elim (Bool-cases (is_plain config.encryption)) [
      | inl e ↦ rw e (omega arith, t.nonce_u64, refl)
      | inr e ↦ rw e (omega arith, omega arith, refl)
    ]

    pub send_pcm-refused :
        (w : Worker) (frame : List ℕ)
        → (length frame == 320) ≡ false
        → send_pcm env c config w frame ≡ send_event w (io_error (codes "invalid PCM frame length"))
    unfolding send_pcm
    send_pcm-refused w frame e = rw e

    pub send_pcm-InStream :
        (w : Worker) (frame : List ℕ)
        → InStream config w
        → InStream config (send_pcm env c config w frame)
    send_pcm-InStream w frame s = elim (Bool-cases (length frame == 320)) [
      | inr other ↦
          rw (send_pcm-refused w frame other)
            (send_event-InStream config w (io_error (codes "invalid PCM frame length")) s)
      | inl size ↦
          let n : length frame ≡ 320 = (==_iff (length frame) 320).0 size in
          let (bytes, p, wire, d, h, _, seq, media) =
            send_pcm-decode_pcm env config typed c law w frame s.typed n
              (InStream-CanSend w frame n s) in
          let (a, b, k) = media-IsTyped w s.typed in
          Next-InStream config w (send_pcm env c config w frame) bytes wire
            (
              p,
              d,
              ap (λ (x : PacketHeader). x.sequence) h ∙ s.numbered,
              ap (λ (x : PacketHeader). x.channel_id) h,
              ap (λ (x : PacketHeader). x.sender_id) h,
            )
            seq
            (record {
              sequence_u16 = omega (arith, seq);
              audio_sequence_u16 =
                  omega (arith, ap (λ (m : State.MediaState). m.audio_sequence) media, a);
              nonce_u64 = omega (arith, ap (λ (m : State.MediaState). m.nonce) media, b);
            })
            (ap (λ (m : State.MediaState). m.key) media ∙ k) s
    ]
