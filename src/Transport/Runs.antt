-- ===== src/Transport/Runs.antt =====
-- crates/incomudon-transport/src/lib.rs: invariants of the handlers, over the loop of `run_worker`.
use incom_udon_native_rust.Base.{
  ℕ, ◌-◌, List, [], ◌∷◌, Bool, true, false, not, leb, ◌||◌, Outcome, ok, err, panic, inl, inr,
  Bool-cases, All,
}
use incom_udon_native_rust.Protocol.Types.{PacketType, keepalive, Packet, ProtocolError}
use incom_udon_native_rust.Crypto.Primitives.{Primitives}
use incom_udon_native_rust.Transport.State.{
  RelayConfig, RelayCommand, disconnect, RelayEvent, io_error, Worker, Env,
}
use incom_udon_native_rust.Transport.State
use incom_udon_native_rust.Transport.Send.{send_event, send_control}
use incom_udon_native_rust.Transport.Receive.{receive, receive_outcome}
use incom_udon_native_rust.Transport.Worker.{
  Polled, command, timeout, hung_up, Arrival, datagram, quiet, failed, Round, Flow, continue, break,
  handle, drain, keep_alive, receive_arrival, after_command, first_command, take_events, one_round,
  run_rounds,
}

-- An invariant of the handlers, for commands of the kind `Allowed`.
pub record IsPreserved (env : Env) (c : Primitives) (config : RelayConfig)
    (Allowed : RelayCommand → Type 0) (Inv : Worker → Type 0) : Type 0 where
  pub event : (w : Worker) (e : RelayEvent) → Inv w → Inv (send_event w e)
  pub control :
      (w : Worker) (t : PacketType) (payload : List ℕ)
      → Inv w
      → Inv (send_control env config w t payload)
  pub handled :
      (w : Worker) (cmd : RelayCommand) → Allowed cmd → Inv w → Inv (handle env c config w cmd)
  pub stopped : (w : Worker) → Inv w → Inv (record w { running = false })
  pub timed : (w : Worker) (t : ℕ) → Inv w → Inv (record w { last_keepalive = t })
  pub taken : (w : Worker) (n : ℕ) → Inv w → Inv (take_events env c config w n)

module _ (Allowed : RelayCommand → Type 0) where
  abbrev pub PolledAllowed : Polled → Type 0
  PolledAllowed (command cmd) = Allowed cmd
  PolledAllowed timeout = Unit
  PolledAllowed hung_up = Unit

  abbrev pub RoundAllowed : Round → Type 0
  RoundAllowed r = PolledAllowed r.polled × All Allowed r.drained

module _ (Inv : Worker → Type 0) where
  -- The invariant holds, wherever the loop goes.
  abbrev pub InFlow : Flow → Type 0
  InFlow (continue w) = Inv w
  InFlow (break w) = Inv w

module _ (env : Env) (c : Primitives) (config : RelayConfig) (Allowed : RelayCommand → Type 0)
    (Inv : Worker → Type 0) (keep : IsPreserved env c config Allowed Inv) where
  drain-Inv :
      (w : Worker) (cmds : List RelayCommand) (closed : Bool)
      → All Allowed cmds
      → Inv w
      → Inv (drain env c config w cmds closed)
  unfolding drain
  drain-Inv w [] true a i = keep.stopped w i
  drain-Inv w [] false a i = i
  drain-Inv w (disconnect ∷ rest) closed a i = keep.stopped w i
  drain-Inv w (State.send packet ∷ rest) closed a i =
      drain-Inv (handle env c config w (State.send packet)) rest closed a.1
        (keep.handled w (State.send packet) a.0 i)
  drain-Inv w (State.send_pcm frame ∷ rest) closed a i =
      drain-Inv (handle env c config w (State.send_pcm frame)) rest closed a.1
        (keep.handled w (State.send_pcm frame) a.0 i)
  drain-Inv w (State.send_control t payload ∷ rest) closed a i =
      drain-Inv (handle env c config w (State.send_control t payload)) rest closed a.1
        (keep.handled w (State.send_control t payload) a.0 i)

  pub keep_alive-Inv :
      (w : Worker) (checked_at reset_at : ℕ)
      → Inv w
      → Inv (keep_alive env c config w checked_at reset_at)
  unfolding keep_alive
  keep_alive-Inv w checked_at reset_at i =
      elim (Bool-cases (leb config.keepalive_interval (checked_at - w.last_keepalive))) [
        | inl due ↦ rw due (
            keep.timed (send_control env config w keepalive []) reset_at
              (keep.control w keepalive [] i))
        | inr early ↦ rw early i
      ]

  receive_outcome-Inv :
      (w : Worker) (o : Outcome ProtocolError Packet) → Inv w → Inv (receive_outcome c w o)
  unfolding receive_outcome
  receive_outcome-Inv w (ok packet) i = keep.event w _ i
  receive_outcome-Inv w (err error) i = keep.event w _ i
  receive_outcome-Inv w panic i = i

  pub receive_arrival-Inv :
      (w : Worker) (a : Arrival) → Inv w → Inv (receive_arrival env c config w a)
  unfolding receive_arrival receive
  receive_arrival-Inv w (datagram bytes) i = receive_outcome-Inv w _ i
  receive_arrival-Inv w quiet i = i
  receive_arrival-Inv w (failed error) i = keep.event w (io_error error) i

  after_command-Inv :
      (w : Worker) (r : Round)
      → All Allowed r.drained
      → Inv w
      → InFlow Inv (after_command env c config w r)
  unfolding after_command
  after_command-Inv w r a i =
      let w' = drain env c config w r.drained r.drained_hung_up in
      let i' = drain-Inv w r.drained r.drained_hung_up a i in
      elim (Bool-cases (not w'.running || r.stop_seen_later)) [
        | inl stop ↦ rw stop i'
        | inr go ↦ rw go (
            receive_arrival-Inv (keep_alive env c config w' r.checked_at r.reset_at) r.arrival
              (keep_alive-Inv w' r.checked_at r.reset_at i'))
      ]

  first_command-Inv :
      (w : Worker) (r : Round) (p : Polled)
      → PolledAllowed Allowed p
      → All Allowed r.drained
      → Inv w
      → InFlow Inv (first_command env c config w r p)
  unfolding first_command
  first_command-Inv w r timeout p a i = after_command-Inv w r a i
  first_command-Inv w r hung_up p a i = i
  first_command-Inv w r (command disconnect) p a i = i
  first_command-Inv w r (command (State.send packet)) p a i =
      after_command-Inv (handle env c config w (State.send packet)) r a
        (keep.handled w (State.send packet) p i)
  first_command-Inv w r (command (State.send_pcm frame)) p a i =
      after_command-Inv (handle env c config w (State.send_pcm frame)) r a
        (keep.handled w (State.send_pcm frame) p i)
  first_command-Inv w r (command (State.send_control t payload)) p a i =
      after_command-Inv (handle env c config w (State.send_control t payload)) r a
        (keep.handled w (State.send_control t payload) p i)

  one_round-Inv :
      (w : Worker) (r : Round)
      → RoundAllowed Allowed r
      → Inv w
      → InFlow Inv (one_round env c config w r)
  unfolding one_round
  one_round-Inv w r a i =
      let i' = keep.taken w r.taken i in
      elim (Bool-cases (not w.running || r.stop_seen)) [
        | inl stop ↦ rw stop i'
        | inr go ↦
            rw go (first_command-Inv (take_events env c config w r.taken) r r.polled a.0 a.1 i')
      ]

  -- the loop behind one round
  flow-Inv :
      (rounds : List Round)
      → ((w : Worker) → Inv w → Inv (run_rounds env c config w rounds).0)
      → (f : Flow) → InFlow Inv f
      → Inv
          (elim f as (λ x. Worker × Bool) [
            | continue w ↦ run_rounds env c config w rounds
            | break w ↦ (w, true)
          ]).0
  flow-Inv rounds later (continue w) i = later w i
  flow-Inv rounds later (break w) i = i

  -- The loop preserves what its handlers preserve, if all commands are of the kind.
  pub run_rounds-Inv :
      (w : Worker) (rounds : List Round)
      → All (RoundAllowed Allowed) rounds
      → Inv w
      → Inv (run_rounds env c config w rounds).0
  unfolding run_rounds
  run_rounds-Inv w [] a i = i
  run_rounds-Inv w (r ∷ rounds) a i =
      flow-Inv rounds (λ w' i'. run_rounds-Inv w' rounds a.1 i') (one_round env c config w r)
        (one_round-Inv w r a.0 i)
