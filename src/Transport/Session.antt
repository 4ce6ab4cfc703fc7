-- ===== src/Transport/Session.antt =====
-- crates/incomudon-transport/src/lib.rs: `RelaySession`, the owner's side of the relay, together
-- with the thread that it starts. The thread goes through `run_worker` in small steps; the owner's
-- calls fall between any two of them. What the operating system answers is the parameter `Os`.
pub mod Acts
pub mod Operations
pub mod Handled
pub mod Join
pub mod Numbers
pub mod Panics
use incom_udon_native_rust.Base.{
  ◌⊎◌, inl, inr, ℕ, List, [], ◌∷◌, ◌++◌, Option, none, some, Bool, true, false, not, leb, ◌||◌,
  if◌then◌else◌, length, drop, Outcome, ok, err, panic, ◌>>=◌, ◌>>◌, map_err,
}
use incom_udon_native_rust.Base.Text.{Text, codes}
use incom_udon_native_rust.Protocol.Types.{PacketType, Packet}
use incom_udon_native_rust.Crypto.Primitives.{Primitives}
use incom_udon_native_rust.Transport.State.{
  default_command_capacity, RelayConfig, RelayCommand, RelayEvent, Worker, Env, SocketAddr,
}
use incom_udon_native_rust.Transport.State
use incom_udon_native_rust.Transport.Worker.{
  Arrival, fresh, greet, handle, keep_alive, receive_arrival, finish,
}

pub data TransportError : Type 0 where
  open_socket connect_socket local_address : Text → TransportError
  worker_unavailable : TransportError

-- Where the thread is in `run_worker`: in front of the loop, at the test of the `while`, at
-- `recv_timeout`, at `try_recv`, at the second load of `running`, at the keepalive, at the socket,
-- behind the loop, returned.
pub data Pc : Type 0 where
  starting : SocketAddr → Pc
  testing polling draining rechecking keeping receiving leaving ended : Pc

-- What a step of the thread may meet: the instants of `last_keepalive.elapsed()` and of the reset,
-- and the result of the socket.
pub record Outside : Type 0 where
  pub checked_at : ℕ
  pub reset_at : ℕ
  pub arrival : Arrival

-- The session, and the thread's side of it: the configuration that the thread has taken, the
-- commands in the channel, oldest first, whether the owner has still the handle to join the
-- thread, the thread's place and its variables. The flag `running` is one of these.
pub record RelaySession : Type 0 where
  pub config : RelayConfig
  pub commands : List RelayCommand
  pub worker : Bool
  pub pc : Pc
  pub state : Worker

-- The results of `bind`, `connect`, `set_read_timeout` (an error, if it fails), `local_addr` and
-- `spawn`.
pub record Os : Type 0 where
  pub bind : Text → Option Text
  pub connect_to : SocketAddr → Option Text
  pub set_read_timeout : Option Text
  pub local_addr : Text ⊎ SocketAddr
  pub spawn : Option Text

abbrev pub of_sum : Text ⊎ SocketAddr → Outcome Text SocketAddr
of_sum (inl error) = err error
of_sum (inr address) = ok address

abbrev pub try_io : (Text → TransportError) → Option Text → Outcome TransportError (Unit {0})
try_io wrap none = ok tt
try_io wrap (some error) = err (wrap error)

abbrev pub is_disconnect : RelayCommand → Bool
is_disconnect State.disconnect = true
is_disconnect (State.send packet) = false
is_disconnect (State.send_pcm frame) = false
is_disconnect (State.send_control packet_type payload) = false

abbrev pub is_ended : Pc → Bool
is_ended ended = true
is_ended _ = false

-- `try_send` on the bounded channel of commands, whose receiver the thread holds until it returns
unfoldable pub try_send :
    RelaySession → RelayCommand → Outcome TransportError (Unit {0}) × RelaySession
try_send s command =
    if is_ended s.pc || leb default_command_capacity (length s.commands)
    then (err worker_unavailable, s)
    else (ok tt, record s { commands = s.commands ++ command ∷ [] })

unfoldable pub send : RelaySession → Packet → Outcome TransportError (Unit {0}) × RelaySession
unfolding try_send
send s packet = try_send s (State.send packet)

unfoldable pub send_control :
    RelaySession → PacketType → List ℕ → Outcome TransportError (Unit {0}) × RelaySession
unfolding try_send
send_control s packet_type payload = try_send s (State.send_control packet_type payload)

unfoldable pub send_pcm_frame :
    RelaySession → List ℕ → Outcome TransportError (Unit {0}) × RelaySession
unfolding try_send
send_pcm_frame s frame = try_send s (State.send_pcm frame)

-- the oldest event, if there is one, and the events behind it
abbrev pub take_event : Worker → List RelayEvent → Option RelayEvent × Worker
take_event w [] = (none, w)
take_event w (event ∷ events) = (some event, record w { events = events })

unfoldable pub try_next_event : RelaySession → Option RelayEvent × RelaySession
try_next_event s =
    let (event, w) = take_event s.state s.state.events in (event, record s { state = w })

module _ (env : Env) (c : Primitives) where
  -- `RelaySession::connect`; the nonce and the instant are the thread's
  unfoldable pub connect : Os → RelayConfig → ℕ → ℕ → Outcome TransportError RelaySession
  connect os config nonce now = do
    try_io open_socket
        (os.bind (if config.relay_addr.is_ipv6 then codes "[::]:0" else codes "0.0.0.0:0"))
    try_io connect_socket (os.connect_to config.relay_addr)
    try_io open_socket os.set_read_timeout
    local_addr ← map_err local_address (of_sum os.local_addr)
    try_io open_socket os.spawn
    ok (record {
      config = config;
      commands = [];
      worker = true;
      pc = starting local_addr;
      state = fresh env c config nonce now;
    })

  -- the first command of a round of the loop
  unfoldable pub poll : RelaySession → List RelayCommand → RelaySession
  poll s [] = record s { pc = draining }
  poll s (command ∷ rest) =
      if is_disconnect command then record s { commands = rest; pc = leaving } else record s {
        commands = rest;
        pc = draining;
        state = handle env c s.config s.state command;
      }

  -- one round of the inner loop
  unfoldable pub drain_one : RelaySession → List RelayCommand → RelaySession
  drain_one s [] = record s { pc = rechecking }
  drain_one s (command ∷ rest) =
      if is_disconnect command
      then record s { commands = rest; pc = rechecking; state = record s.state { running = false } }
      else record s { commands = rest; state = handle env c s.config s.state command }

  unfoldable pub step_at : Pc → RelaySession → Outside → RelaySession
  step_at (starting local_addr) s o = record s {
    pc = testing;
    state = greet env c s.config local_addr s.state;
  }
  step_at testing s o = record s { pc = if s.state.running then polling else leaving }
  step_at polling s o = poll s s.commands
  step_at draining s o = drain_one s s.commands
  step_at rechecking s o = record s { pc = if s.state.running then keeping else leaving }
  step_at keeping s o = record s {
    pc = receiving;
    state = keep_alive env c s.config s.state o.checked_at o.reset_at;
  }
  step_at receiving s o = record s {
    pc = testing;
    state = receive_arrival env c s.config s.state o.arrival;
  }
  step_at leaving s o = record s { pc = ended; state = finish env c s.config s.state }
  step_at ended s o = s

  unfoldable pub thread_step : RelaySession → Outside → RelaySession
  unfolding step_at
  thread_step s o = step_at s.pc s o

  -- `worker.join()`: the thread steps until it has returned, or until the list ends
  unfoldable pub join : RelaySession → List Outside → RelaySession
  join s [] = s
  join s (o ∷ os) = join (thread_step s o) os

  unfoldable pub join_worker : RelaySession → Bool → List Outside → RelaySession
  join_worker s true os = record (join s os) { worker = false }
  join_worker s false os = s

  -- `disconnect`, and what the thread meets while it is joined. `Drop` calls it too.
  unfoldable pub disconnect : RelaySession → List Outside → RelaySession
  disconnect s os =
      if not s.state.running
      then s
      else (let stopped = record s { state = record s.state { running = false } } in
          let told = (try_send stopped State.disconnect).1 in join_worker told told.worker os)
