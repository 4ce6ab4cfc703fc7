-- ===== src/Transport/Stable.antt =====
-- crates/incomudon-transport/src/lib.rs: what every handler of the worker preserves, whatever the
-- command, if sending an event, a datagram and the counters do.
use incom_udon_native_rust.Base.{
  ℕ, List, [], ◌∷◌, ◌++◌, Option, some, none, not, ◌==◌, length, Outcome, ok, err, panic, inl, inr,
  Bool-cases, ltb, false, drop, All,
}
use incom_udon_native_rust.Protocol.Types.{
  PacketType, Packet, auth_tag_len, PacketHeader, SecurityHeader, ProtocolError,
}
use incom_udon_native_rust.Protocol.Packets.{encode}
use incom_udon_native_rust.Crypto.Primitives.{Primitives}
use incom_udon_native_rust.Crypto.Keys.{CryptoError}
use incom_udon_native_rust.Base.Words.{wrapping_add16, wrapping_add64}
use incom_udon_native_rust.Transport.State.{
  MediaState, default_event_capacity, RelayConfig, RelayCommand, disconnect, RelayEvent, Worker,
  Env, SocketAddr, connected, stopped, is_plain, new_media,
}
use incom_udon_native_rust.Transport.State
use incom_udon_native_rust.Transport.Send.{
  send_event, send_encoded, send_packet, send_control, send_encrypted, send_secured, send_pcm,
}
use incom_udon_native_rust.Transport.Worker.{Round, handle}
use incom_udon_native_rust.Transport.Runs.{IsPreserved, RoundAllowed, PolledAllowed}
use incom_udon_native_rust.Transport.Worker.{Polled, command, timeout, hung_up}

abbrev pub AnyCommand : RelayCommand → Type 0
AnyCommand cmd = Unit

pub record IsStable (Inv : Worker → Type 0) : Type 0 where
  pub event : (w : Worker) (e : RelayEvent) → Inv w → Inv (send_event w e)
  pub wired : (w : Worker) (wire : List (List ℕ)) → Inv w → Inv (record w { wire = wire })
  pub counted :
      (w : Worker) (sequence : ℕ) (media : MediaState)
      → Inv w
      → Inv (record w { sequence = sequence; media = media })
  pub stopped : (w : Worker) → Inv w → Inv (record w { running = false })
  pub timed : (w : Worker) (t : ℕ) → Inv w → Inv (record w { last_keepalive = t })
  pub taken : (w : Worker) (n : ℕ) → Inv w → Inv (record w { events = drop n w.events })

module _ (Inv : Worker → Type 0) (stable : IsStable Inv) (env : Env) where
  send_encoded-Inv :
      (w : Worker) (t : PacketType) (o : Outcome ProtocolError (List ℕ))
      → Inv w
      → Inv (send_encoded env w t o)
  unfolding send_encoded
  send_encoded-Inv w t (ok bytes) h = stable.event _ _ (stable.wired w (w.wire ++ bytes ∷ []) h)
  send_encoded-Inv w t (err e) h = stable.event w _ h
  send_encoded-Inv w t panic h = h

  send_packet-Inv : (w : Worker) (p : Packet) → Inv w → Inv (send_packet env w p)
  unfolding send_packet
  send_packet-Inv w p h = send_encoded-Inv w _ (encode p) h

  send_control-Inv :
      (config : RelayConfig) (w : Worker) (t : PacketType) (payload : List ℕ)
      → Inv w
      → Inv (send_control env config w t payload)
  unfolding send_control
  send_control-Inv config w t payload h =
      send_packet-Inv _ _ (stable.counted w (wrapping_add16 w.sequence 1) w.media h)

  module _ (c : Primitives) where
    send_encrypted-Inv :
        (w : Worker) (header : PacketHeader) (s : SecurityHeader) (o : Outcome CryptoError (List ℕ))
        → Inv w
        → Inv (send_encrypted env c w header s o)
    unfolding send_encrypted
    send_encrypted-Inv w header s (ok sealed) h =
        elim (Bool-cases (ltb (length sealed) auth_tag_len)) [
          | inl short ↦ rw short h
          | inr whole ↦ rw whole (send_packet-Inv w _ h)
        ]
    send_encrypted-Inv w header s (err e) h = stable.event w _ h
    send_encrypted-Inv w header s panic h = h

    send_secured-Inv :
        (w : Worker) (header : PacketHeader) (plaintext : List ℕ) (key : Option (List ℕ))
        → Inv w
        → Inv (send_secured env c w header plaintext key)
    unfolding send_secured
    send_secured-Inv w header plaintext none h = stable.event w _ h
    send_secured-Inv w header plaintext (some key) h =
        send_encrypted-Inv _ header _ _ (
          stable.counted w w.sequence (record w.media { nonce = wrapping_add64 w.media.nonce 1 }) h)

    send_pcm-Inv :
        (config : RelayConfig) (w : Worker) (frame : List ℕ)
        → Inv w
        → Inv (send_pcm env c config w frame)
    unfolding send_pcm
    send_pcm-Inv config w frame h = elim (Bool-cases (not (length frame == 320))) [
      | inl other ↦ rw other (stable.event w _ h)
      | inr size ↦ elim (Bool-cases (is_plain config.encryption)) [
        | inl plain ↦
            rw (size, plain)
              (send_packet-Inv _ _ (
                stable.counted w (wrapping_add16 w.sequence 1)
                  (record w.media { audio_sequence = wrapping_add16 w.media.audio_sequence 1 }) h))
        | inr secured ↦
            rw (size, secured)
              (send_secured-Inv _ _ _ w.media.key (
                stable.counted w (wrapping_add16 w.sequence 1)
                  (record w.media { audio_sequence = wrapping_add16 w.media.audio_sequence 1 }) h))
      ]
    ]

    module _ (config : RelayConfig) where
      handle-Inv : (w : Worker) (cmd : RelayCommand) → Inv w → Inv (handle env c config w cmd)
      unfolding handle
      handle-Inv w (State.send packet) h = send_packet-Inv w packet h
      handle-Inv w (State.send_pcm frame) h = send_pcm-Inv config w frame h
      handle-Inv w (State.send_control t payload) h = send_control-Inv config w t payload h
      handle-Inv w disconnect h = h

      pub IsStable-IsPreserved : IsPreserved env c config AnyCommand Inv
      IsStable-IsPreserved = record {
        event = stable.event;
        control = λ w t payload h. send_control-Inv config w t payload h;
        handled = λ w cmd a h. handle-Inv w cmd h;
        stopped = stable.stopped;
        timed = stable.timed;
        taken = stable.taken;
      }

pub polled-allowed : (p : Polled) → PolledAllowed AnyCommand p
polled-allowed (command cmd) = tt
polled-allowed timeout = tt
polled-allowed hung_up = tt

pub any-allowed : (cmds : List RelayCommand) → All AnyCommand cmds
any-allowed [] = tt
any-allowed (cmd ∷ cmds) = (tt, any-allowed cmds)

pub rounds-allowed : (rounds : List Round) → All (RoundAllowed AnyCommand) rounds
rounds-allowed [] = tt
rounds-allowed (r ∷ rounds) =
    ((polled-allowed r.polled, any-allowed r.drained), rounds-allowed rounds)
