-- ===== src/Transport/Worker.antt =====
-- crates/incomudon-transport/src/lib.rs: `run_worker`. What the other threads, the clock and the
-- socket do in one turn of the loop is a `Round`; the list of rounds is the schedule. The owner of
-- the session takes its events between the rounds.
use incom_udon_native_rust.Base.{
  ℕ, ◌-◌, List, [], ◌∷◌, Bool, true, false, not, leb, ◌||◌, if◌then◌else◌, take, drop,
}
use incom_udon_native_rust.Base.Text.{Text}
use incom_udon_native_rust.Protocol.Types.{join, leave, keepalive}
use incom_udon_native_rust.Crypto.Primitives.{Primitives}
use incom_udon_native_rust.Transport.State.{
  RelayConfig, RelayCommand, disconnect, RelayEvent, connected, stopped, io_error, Worker, Env,
  SocketAddr, new_media,
}
use incom_udon_native_rust.Transport.State
use incom_udon_native_rust.Transport.Send.{send_event, send_packet, send_control, send_pcm}
use incom_udon_native_rust.Transport.Receive.{receive}

-- the result of `recv_timeout`
pub data Polled : Type 0 where
  command : RelayCommand → Polled
  timeout : Polled
  hung_up : Polled

-- the result of `socket.recv`: `quiet` is `WouldBlock` or `TimedOut`
pub data Arrival : Type 0 where
  datagram : List ℕ → Arrival
  quiet : Arrival
  failed : Text → Arrival

pub record Round : Type 0 where
  -- how many events the owner takes
  pub taken : ℕ
  -- whether another thread has cleared `running` at the first, and by the second load
  pub stop_seen : Bool
  pub stop_seen_later : Bool
  pub polled : Polled
  -- what the calls of `try_recv` find, and whether they end with `Disconnected`
  pub drained : List RelayCommand
  pub drained_hung_up : Bool
  -- the instants of `last_keepalive.elapsed()` and of the reset
  pub checked_at : ℕ
  pub reset_at : ℕ
  pub arrival : Arrival

-- `buffer.len()`; the rest of a longer datagram is lost
abbrev pub buffer_len : ℕ
buffer_len = 2048

-- the loop goes on, or was left
pub data Flow : Type 0 where
  continue : Worker → Flow
  break : Worker → Flow

module _ (env : Env) (c : Primitives) (config : RelayConfig) where
  -- a command that is no `Disconnect`
  unfoldable pub handle : Worker → RelayCommand → Worker
  handle w (State.send packet) = send_packet env w packet
  handle w (State.send_pcm frame) = send_pcm env c config w frame
  handle w (State.send_control packet_type payload) = send_control env config w packet_type payload
  handle w disconnect = w

  -- the inner loop over `try_recv`
  unfoldable pub drain : Worker → List RelayCommand → Bool → Worker
  drain w [] closed = if closed then record w { running = false } else w
  drain w (disconnect ∷ rest) closed = record w { running = false }
  drain w (State.send packet ∷ rest) closed = drain (handle w (State.send packet)) rest closed
  drain w (State.send_pcm frame ∷ rest) closed = drain (handle w (State.send_pcm frame)) rest closed
  drain w (State.send_control packet_type payload ∷ rest) closed =
      drain (handle w (State.send_control packet_type payload)) rest closed

  unfoldable pub keep_alive : Worker → ℕ → ℕ → Worker
  keep_alive w checked_at reset_at =
      if leb config.keepalive_interval (checked_at - w.last_keepalive)
      then record (send_control env config w keepalive []) { last_keepalive = reset_at }
      else w

  unfoldable pub receive_arrival : Worker → Arrival → Worker
  receive_arrival w (datagram bytes) = receive c w (take buffer_len bytes)
  receive_arrival w quiet = w
  receive_arrival w (failed error) = send_event w (io_error error)

  -- the loop's body behind the first command
  unfoldable pub after_command : Worker → Round → Flow
  after_command w r =
      let w' = drain w r.drained r.drained_hung_up in
      if not w'.running || r.stop_seen_later
      then break w'
      else continue (receive_arrival (keep_alive w' r.checked_at r.reset_at) r.arrival)

  unfoldable pub first_command : Worker → Round → Polled → Flow
  first_command w r (command disconnect) = break w
  first_command w r (command (State.send packet)) = after_command (handle w (State.send packet)) r
  first_command w r (command (State.send_pcm frame)) =
      after_command (handle w (State.send_pcm frame)) r
  first_command w r (command (State.send_control packet_type payload)) =
      after_command (handle w (State.send_control packet_type payload)) r
  first_command w r hung_up = break w
  first_command w r timeout = after_command w r

  -- the owner takes the oldest events
  abbrev pub take_events : Worker → ℕ → Worker
  take_events w n = record w { events = drop n w.events }

  unfoldable pub one_round : Worker → Round → Flow
  one_round w r =
      let w' = take_events w r.taken in
      if not w'.running || r.stop_seen then break w' else first_command w' r r.polled

  -- The state at the end of the schedule, and whether the loop was left.
  unfoldable pub run_rounds : Worker → List Round → Worker × Bool
  run_rounds w [] = (w, false)
  run_rounds w (r ∷ rounds) = elim (one_round w r) [
    | continue w' ↦ run_rounds w' rounds
    | break w' ↦ (w', true)
  ]

  -- the worker's variables, at the random nonce and the instant `now`
  unfoldable pub fresh : ℕ → ℕ → Worker
  fresh nonce now = record {
    sequence = 0;
    media = new_media c config nonce;
    last_keepalive = now;
    running = true;
    events = [];
    wire = [];
  }

  -- what the worker sends before it loops
  unfoldable pub greet : SocketAddr → Worker → Worker
  greet local_addr w = send_control env config (send_event w (connected local_addr)) join []

  -- the statements in front of the loop
  unfoldable pub start : SocketAddr → ℕ → ℕ → Worker
  unfolding fresh greet
  start local_addr nonce now = greet local_addr (fresh nonce now)

  -- the statements behind the loop
  unfoldable pub finish : Worker → Worker
  finish w = send_event (send_control env config w leave []) stopped

  unfoldable pub run_worker : SocketAddr → ℕ → ℕ → List Round → Worker × Bool
  run_worker local_addr nonce now rounds =
      let (w, left) = run_rounds (start local_addr nonce now) rounds in
      if left then (finish w, true) else (w, false)
