-- ===== src/Transport/Nonces.antt =====
-- crates/incomudon-transport/src/lib.rs: the nonces under which frames are encrypted.
use incom_udon_native_rust.Base.{
  ◌-◌, Option, All, All-append, subst, take, take-append-drop, ℕ, suc, ◌+◌, ◌%◌, ap₂, ◌<◌, List, [],
  ◌∷◌, ◌++◌, some, true, false, ◌==◌, length, drop, ok, ◌≡◌, refl, sym, ap, ◌∙◌, arith, inl, inr,
  Bool-cases, ==_iff, append-nil,
}
use incom_udon_native_rust.Base.Words.{u64_mod}
use incom_udon_native_rust.Base.Text.{codes}
use incom_udon_native_rust.Protocol.Types.{PacketType}
use incom_udon_native_rust.Crypto.Primitives.{Primitives, IsLawful}
use incom_udon_native_rust.Crypto.Keys.{packet_nonce}
use incom_udon_native_rust.Transport.State.{
  RelayConfig, RelayCommand, disconnect, RelayEvent, io_error, Worker, Env, is_plain, is_v2,
  new_media, ConfigIsTyped,
}
use incom_udon_native_rust.Transport.State
use incom_udon_native_rust.Transport.Send.{send_event, send_control, control_packet, send_pcm}
use incom_udon_native_rust.Transport.Wire.{
  send_event-rest, send_control-wire, send_packet-wire, send_pcm-encrypted, encrypted_packet,
  encrypted_packet-IsCurrent, plaintext_of, aad_of, counted,
}
use incom_udon_native_rust.Transport.Worker.{handle, fresh}
use incom_udon_native_rust.Transport.Counters.{
  frame_of, media_frames, counters, IsSealed, successive, media_frames-append, counters-append,
}
use incom_udon_native_rust.Transport.Runs.{IsPreserved}
use incom_udon_native_rust.Transport.Stream.{
  InStream, SealsFrames, Same, Same-InStream, send_control-InStream, send_pcm-InStream,
  send_pcm-refused,
}
use incom_udon_native_rust.Transport.Sequences.{IsNumbered}
use incom_udon_native_rust.Transport.Media.{is_v2-not_plain}

-- The media key, and the first counter.
pub record InNonces (config : RelayConfig) (c : Primitives) (key : Option (List ℕ)) (start : ℕ)
    (w : Worker) : Type 0 where
  pub stream : InStream config w
  pub same_key : w.media.key ≡ key
  pub sealed : All (IsSealed c key) (media_frames w.wire)
  pub count : ℕ
  pub nonces : counters (media_frames w.wire) ≡ successive start count
  pub next : w.media.nonce ≡ (start + count) % u64_mod

module _ (config : RelayConfig) (c : Primitives) (key : Option (List ℕ)) (start : ℕ) where
  Same-InNonces :
      (w w' : Worker) → Same w w' → InNonces config c key start w → InNonces config c key start w'
  Same-InNonces w w' (a, b, c') s = record {
    stream = Same-InStream config w w' (a, b, c') s.stream;
    same_key = ap (λ (m : State.MediaState). m.key) c' ∙ s.same_key;
    sealed = subst (λ l. All (IsSealed c key) (media_frames l)) (sym a) s.sealed;
    count = s.count;
    nonces = ap (λ l. counters (media_frames l)) a ∙ s.nonces;
    next = ap (λ (m : State.MediaState). m.nonce) c' ∙ s.next;
  }

  send_event-InNonces :
      (w : Worker) (e : RelayEvent)
      → InNonces config c key start w
      → InNonces config c key start (send_event w e)
  send_event-InNonces w e s =
      let r = send_event-rest w e in Same-InNonces w (send_event w e) (r.0, r.1, r.2) s

control_packet-frame :
    (config : RelayConfig) (sequence : ℕ) (t : PacketType) (payload : List ℕ)
    → frame_of (ok (control_packet config sequence t payload)) ≡ []
unfolding control_packet
control_packet-frame config sequence t payload = elim (Bool-cases (is_plain config.encryption)) [
  | inl e ↦ rw e refl
  | inr e ↦ rw e refl
]

encrypted-IsSealed :
    (c : Primitives) (key : Option (List ℕ)) (k : List ℕ) (n : ℕ) (message aad out : List ℕ)
    → key ≡ some k
    → c.aes_gcm_encrypt k (packet_nonce c n) message aad ≡ some out
    → IsSealed c key (n, take (length out - 16) out ++ drop (length out - 16) out)
unfolding packet_nonce
encrypted-IsSealed c key k n message aad out has e =
    (k, message, aad, has, e ∙ ap some (sym (take-append-drop (length out - 16) out)))

module _ (env : Env) (config : RelayConfig) (typed : ConfigIsTyped config) (c : Primitives)
    (key : Option (List ℕ)) (start : ℕ) where
  send_control-InNonces :
      (w : Worker) (t : PacketType) (payload : List ℕ)
      → InNonces config c key start w
      → InNonces config c key start (send_control env config w t payload)
  send_control-InNonces w t payload s =
      let (bytes, d, wire, seq, media) =
        send_control-wire env config typed w t payload s.stream.typed.sequence_u16 in
      let same : media_frames (send_control env config w t payload).wire ≡ media_frames w.wire =
        ap media_frames wire
        ∙ media_frames-append w.wire bytes
        ∙ ap (λ o. media_frames w.wire ++ frame_of o) d
        ∙ ap (λ l. media_frames w.wire ++ l) (control_packet-frame config w.sequence t payload)
        ∙ append-nil (media_frames w.wire) in
      record {
        stream = send_control-InStream env config typed w t payload s.stream;
        same_key = ap (λ (m : State.MediaState). m.key) media ∙ s.same_key;
        sealed = subst (All (IsSealed c key)) (sym same) s.sealed;
        count = s.count;
        nonces = ap counters same ∙ s.nonces;
        next = ap (λ (m : State.MediaState). m.nonce) media ∙ s.next;
      }

  module _ (law : IsLawful c) (seals : SealsFrames c) (v2 : is_v2 config.encryption ≡ true) where
    -- An encrypted frame takes the next nonce.
    sealed-InNonces :
        (w : Worker) (frame k out : List ℕ)
        → length frame ≡ 320
        → w.media.key ≡ some k
        → c.aes_gcm_encrypt k
            (packet_nonce c w.media.nonce)
            (plaintext_of w frame)
            (aad_of config w)
          ≡ some out
        → InNonces config c key start w
        → InNonces config c key start (send_pcm env c config w frame)
    sealed-InNonces w frame k out n has e s =
        let size =
          law.encrypt-length k (packet_nonce c w.media.nonce) (plaintext_of w frame)
            (aad_of config w) out e in
        let not_plain = is_v2-not_plain config.encryption v2 in
        let current =
          encrypted_packet-IsCurrent config typed w out s.stream.typed.sequence_u16
            s.stream.typed.nonce_u64 not_plain (omega (arith, size)) in
        let (bytes, d, wire, seq, media) =
          send_packet-wire env (counted w) (encrypted_packet config w out) current in
        let same =
          send_pcm-encrypted env config c w frame k out n not_plain has e (omega (arith, size)) in
        let sealed = take (length out - 16) out ++ drop (length out - 16) out in
        let one_more : media_frames (send_pcm env c config w frame).wire
            ≡ media_frames w.wire ++ (w.media.nonce, sealed) ∷ [] =
          ap (λ (v : Worker). media_frames v.wire) same
          ∙ ap media_frames wire
          ∙ media_frames-append w.wire bytes
          ∙ ap (λ o. media_frames w.wire ++ frame_of o) d in
        record {
          stream = send_pcm-InStream env config typed c law seals w frame s.stream;
          same_key =
              ap (λ (v : Worker). v.media.key) same
              ∙ ap (λ (m : State.MediaState). m.key) media
              ∙ s.same_key;
          sealed = subst (All (IsSealed c key)) (sym one_more) (
              All-append (IsSealed c key) (media_frames w.wire) ((w.media.nonce, sealed) ∷ [])
                s.sealed
                (
                  encrypted-IsSealed c key k w.media.nonce (plaintext_of w frame) (aad_of config w)
                      out (sym s.same_key ∙ has) e,
                  tt,
                ));
          count = suc s.count;
          nonces =
              ap counters one_more
              ∙ counters-append (media_frames w.wire) w.media.nonce sealed
              ∙ ap₂ (λ l x. l ++ x ∷ []) s.nonces s.next;
          next = omega (
            arith,
            ap (λ (v : Worker). v.media.nonce) same,
            ap (λ (m : State.MediaState). m.nonce) media,
            s.next,
          );
        }

    send_pcm-InNonces :
        (w : Worker) (frame : List ℕ)
        → InNonces config c key start w
        → InNonces config c key start (send_pcm env c config w frame)
    send_pcm-InNonces w frame s = elim (Bool-cases (length frame == 320)) [
      | inr other ↦
          rw (send_pcm-refused env config typed c law seals w frame other) (
            send_event-InNonces config c key start w (io_error (codes "invalid PCM frame length"))
              s)
      | inl size ↦
          let n : length frame ≡ 320 = (==_iff (length frame) 320).0 size in
          elim s.stream.has_key [
            | inl is_plain ↦ absurd (ground (arith, is_plain, is_v2-not_plain config.encryption v2))
            | inr (mode, k, has) ↦
                let (out, e) =
                  seals k (packet_nonce c w.media.nonce) (plaintext_of w frame) (aad_of config w)
                    (omega (arith, n)) in
                sealed-InNonces w frame k out n has e s
          ]
    ]

    handle-InNonces :
        (w : Worker) (cmd : RelayCommand)
        → IsNumbered cmd
        → InNonces config c key start w
        → InNonces config c key start (handle env c config w cmd)
    unfolding handle
    handle-InNonces w (State.send packet) a s = absurd a
    handle-InNonces w (State.send_pcm frame) a s = send_pcm-InNonces w frame s
    handle-InNonces w (State.send_control t payload) a s = send_control-InNonces w t payload s
    handle-InNonces w disconnect a s = s

    pub InNonces-IsPreserved : IsPreserved env c config IsNumbered (InNonces config c key start)
    InNonces-IsPreserved = record {
      event = λ w e s. send_event-InNonces config c key start w e s;
      control = λ w t payload s. send_control-InNonces w t payload s;
      handled = λ w cmd a s. handle-InNonces w cmd a s;
      stopped = λ w s.
          Same-InNonces config c key start w (record w { running = false }) (refl, refl, refl) s;
      timed = λ w t s.
          Same-InNonces config c key start w (record w { last_keepalive = t }) (refl, refl, refl) s;
      taken = λ w n s.
          Same-InNonces config c key start w (record w { events = drop n w.events })
            (refl, refl, refl) s;
    }

pub fresh-InNonces :
    (env : Env) (config : RelayConfig) (c : Primitives) (start now : ℕ)
    → start < u64_mod
    → InStream config (fresh env c config start now)
    → InNonces config c
        (fresh env c config start now).media.key
        start
        (fresh env c config start now)
unfolding fresh new_media
fresh-InNonces env config c start now small s = record {
  stream = s;
  same_key = refl;
  sealed = tt;
  count = 0;
  nonces = refl;
  next = omega (arith, small);
}
