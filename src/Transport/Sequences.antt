-- ===== src/Transport/Sequences.antt =====
-- crates/incomudon-transport/src/lib.rs: the datagrams of a whole run of `run_worker`.
use incom_udon_native_rust.Base.{
  ℕ, ◌<◌, List, [], some, true, false, drop, get_elem?, ◌≡◌, refl, ◌∙◌, arith, ◌⊎◌, inl, inr,
  Bool-cases, All, subst,
}
use incom_udon_native_rust.Base.Words.{u64_mod}
use incom_udon_native_rust.Protocol.Types.{leave, join}
use incom_udon_native_rust.Crypto.Primitives.{Primitives, IsLawful}
use incom_udon_native_rust.Crypto.Keys.{
  normalize_password, derive_password_key, derive_aes_gcm_v2_key, v2_info,
}
use incom_udon_native_rust.Transport.State.{
  RelayConfig, RelayCommand, disconnect, RelayEvent, connected, stopped, Worker, Env, SocketAddr,
  is_plain, is_v2, ok_value, media_key, new_media, ConfigIsTyped, WorkerIsTyped,
}
use incom_udon_native_rust.Transport.State
use incom_udon_native_rust.Transport.Send.{send_control}
use incom_udon_native_rust.Transport.Wire.{send_event-rest}
use incom_udon_native_rust.Transport.Control.{Carries, EndsInLeave, send_control-Carries}
use incom_udon_native_rust.Transport.Worker.{
  Round, handle, run_rounds, fresh, start, finish, run_worker,
}
use incom_udon_native_rust.Transport.Stream.{
  SentAs, InStream, MediaKey, SealsFrames, Same-InStream, send_event-InStream,
  send_control-InStream, send_pcm-InStream,
}
use incom_udon_native_rust.Transport.Runs.{IsPreserved, RoundAllowed, run_rounds-Inv}

-- Commands whose packet the worker numbers itself.
abbrev pub IsNumbered : RelayCommand → Type 0
IsNumbered (State.send packet) = ⊥
IsNumbered (State.send_pcm frame) = Unit
IsNumbered (State.send_control t payload) = Unit
IsNumbered disconnect = Unit

derive_key-some :
    (c : Primitives) (password_key : List ℕ)
    → IsLawful c
    → (key : List ℕ) × (ok_value (derive_aes_gcm_v2_key c password_key) ≡ some key)
unfolding derive_aes_gcm_v2_key
derive_key-some c password_key law =
    let (key, e, _) = law.hkdf-length password_key v2_info 32 (omega arith) in
    (key, rw (e, derive_aes_gcm_v2_key))

media_key-MediaKey :
    (c : Primitives) (config : RelayConfig)
    → IsLawful c
    → (is_plain config.encryption ≡ true) ⊎ (is_v2 config.encryption ≡ true)
    → MediaKey config (media_key c config)
unfolding media_key
media_key-MediaKey c config law (inl plain) = inl plain
media_key-MediaKey c config law (inr v2) =
    let (key, e) =
      derive_key-some c
        (derive_password_key c (normalize_password c config.password) config.channel_id) law in
    inr (v2, key, rw v2 e)

module _ (env : Env) (config : RelayConfig) (typed : ConfigIsTyped config) (c : Primitives)
    (law : IsLawful c) (seals : SealsFrames c) where
  handle-InStream :
      (w : Worker) (cmd : RelayCommand)
      → IsNumbered cmd
      → InStream config w
      → InStream config (handle env c config w cmd)
  unfolding handle
  handle-InStream w (State.send packet) a s = absurd a
  handle-InStream w (State.send_pcm frame) a s =
      send_pcm-InStream env config typed c law seals w frame s
  handle-InStream w (State.send_control t payload) a s =
      send_control-InStream env config typed w t payload s
  handle-InStream w disconnect a s = s

  pub InStream-IsPreserved : IsPreserved env c config IsNumbered (InStream config)
  InStream-IsPreserved = record {
    event = λ w e s. send_event-InStream config w e s;
    control = λ w t payload s. send_control-InStream env config typed w t payload s;
    handled = λ w cmd a s. handle-InStream w cmd a s;
    stopped = λ w s. Same-InStream config w (record w { running = false }) (refl, refl, refl) s;
    timed = λ w t s. Same-InStream config w (record w { last_keepalive = t }) (refl, refl, refl) s;
    taken = λ w n s.
        Same-InStream config w (record w { events = drop n w.events }) (refl, refl, refl) s;
  }

  module _ (local_addr : SocketAddr) (nonce now : ℕ) (nonce_u64 : nonce < u64_mod)
      (mode : (is_plain config.encryption ≡ true) ⊎ (is_v2 config.encryption ≡ true)) where
    pub fresh-InStream : InStream config (fresh env c config nonce now)
    unfolding fresh new_media
    fresh-InStream = record {
      numbered = omega arith;
      sent = λ i bytes g. cc;
      typed = record {
        sequence_u16 = omega arith;
        audio_sequence_u16 = omega arith;
        nonce_u64 = nonce_u64;
      };
      has_key = media_key-MediaKey c config law mode;
    }

    start-InStream : InStream config (start env c config local_addr nonce now)
    unfolding start
    start-InStream =
        send_control-InStream env config typed _ join []
          (send_event-InStream config _ (connected local_addr) fresh-InStream)

    finish-InStream : (w : Worker) → InStream config w → InStream config (finish env c config w)
    unfolding finish
    finish-InStream w s =
        send_event-InStream config _ stopped (send_control-InStream env config typed w leave [] s)

    finish-leave :
        (w : Worker) → InStream config w → EndsInLeave config (finish env c config w).wire
    unfolding finish
    finish-leave w s =
        let (bytes, p, wire, d, carries, _, _) =
          send_control-Carries env config typed w leave [] s.typed.sequence_u16 in
        (
          w.wire,
          bytes,
          p,
          (send_event-rest (send_control env config w leave []) stopped).0 ∙ wire,
          d,
          subst (λ n. Carries config n leave [] p) s.numbered carries,
        )

    run_worker-InStream :
        (rounds : List Round)
        → All (RoundAllowed IsNumbered) rounds
        → InStream config (run_worker env c config local_addr nonce now rounds).0
    unfolding run_worker
    run_worker-InStream rounds a =
        let (w, left) = run_rounds env c config (start env c config local_addr nonce now) rounds in
        let s =
          run_rounds-Inv env c config IsNumbered (InStream config) InStream-IsPreserved
            (start env c config local_addr nonce now) rounds a start-InStream in
        elim (Bool-cases left) [ inl e ↦ rw e (finish-InStream w s) | inr e ↦ rw e s ]

    -- For a configuration and a nonce in the range of their types, without encryption or with
    -- version 2, with lawful primitives that seal every frame, and on any schedule whose commands
    -- leave the numbering to the worker: the datagram at position `i` of the wire is decoded to a
    -- packet of the configured channel and sender, whose sequence number is `i` modulo 65536.
    -- Join, control, keepalive, audio and leave packets share one stream.
    pub run_worker-SentAs :
        (rounds : List Round) (i : ℕ) (bytes : List ℕ)
        → All (RoundAllowed IsNumbered) rounds
        → get_elem? (run_worker env c config local_addr nonce now rounds).0.wire i ≡ some bytes
        → SentAs config i bytes
    run_worker-SentAs rounds i bytes a g = (run_worker-InStream rounds a).sent i bytes g

    -- For a configuration and a nonce in the range of their types, without encryption or with
    -- version 2, with lawful primitives that seal every frame, and on a schedule whose commands
    -- leave the numbering to the worker and which ends the loop: the last datagram is decoded to a
    -- packet of version 1 and type Leave without payload or flags, from the configured sender on
    -- the configured channel, numbered by the count of the datagrams before it, modulo 65536; it is
    -- a plain packet without encryption, and otherwise has a security header and a tag of zeros.
    pub run_worker-leave :
        (rounds : List Round)
        → All (RoundAllowed IsNumbered) rounds
        → (run_worker env c config local_addr nonce now rounds).1 ≡ true
        → EndsInLeave config (run_worker env c config local_addr nonce now rounds).0.wire
    unfolding run_worker
    run_worker-leave rounds a ended =
        let (w, left) = run_rounds env c config (start env c config local_addr nonce now) rounds in
        let s =
          run_rounds-Inv env c config IsNumbered (InStream config) InStream-IsPreserved
            (start env c config local_addr nonce now) rounds a start-InStream in
        elim (Bool-cases left) [ inl e ↦ rw e (finish-leave w s) | inr e ↦ cc ]
