-- ===== src/Transport/Session/Operations.antt =====
-- crates/incomudon-transport/src/lib.rs: what the owner's commands ask for, apart from the channel and
-- the loop through which the thread gets them.
use incom_udon_native_rust.Base.{
  ℕ, List, [], ◌∷◌, ◌++◌, drop, Outcome, ok, err, panic, ◌≡◌, refl, sym, ap, false, ◌∙◌,
  append_assoc,
}
use incom_udon_native_rust.Protocol.Types.{PacketType, Packet}
use incom_udon_native_rust.Crypto.Primitives.{Primitives}
use incom_udon_native_rust.Transport.State.{
  default_command_capacity, RelayConfig, RelayCommand, RelayEvent, Worker, Env, SocketAddr,
}
use incom_udon_native_rust.Transport.State
use incom_udon_native_rust.Transport.Send
use incom_udon_native_rust.Transport.Worker.{Arrival, keep_alive, receive_arrival, greet, finish}
use incom_udon_native_rust.Transport.Session.{TransportError, RelaySession, try_send}
use incom_udon_native_rust.Transport.Session.Acts.{Act, sends, takes_event, stops, steps, act}

-- What may change the thread's variables: the sending that a command asks for, the thread's own
-- work, and the owner who takes an event or clears the flag.
pub data Operation : Type 0 where
  sends_packet : Packet → Operation
  sends_audio : List ℕ → Operation
  sends_control : PacketType → List ℕ → Operation
  greets : SocketAddr → Operation
  keeps_alive : ℕ → ℕ → Operation
  receives : Arrival → Operation
  says_goodbye loses_event clears_flag : Operation

-- What a command asks for; a disconnect asks for no sending.
abbrev pub asked_by : RelayCommand → List Operation
asked_by (State.send packet) = sends_packet packet ∷ []
asked_by (State.send_pcm frame) = sends_audio frame ∷ []
asked_by (State.send_control t payload) = sends_control t payload ∷ []
asked_by State.disconnect = []

abbrev pub asked_by_all : List RelayCommand → List Operation
asked_by_all [] = []
asked_by_all (command ∷ commands) = asked_by command ++ asked_by_all commands

-- the operation, if it is one that a command asks for
abbrev pub if_asked : Operation → List Operation
if_asked (sends_packet packet) = sends_packet packet ∷ []
if_asked (sends_audio frame) = sends_audio frame ∷ []
if_asked (sends_control t payload) = sends_control t payload ∷ []
if_asked (greets local_addr) = []
if_asked (keeps_alive checked_at reset_at) = []
if_asked (receives arrival) = []
if_asked says_goodbye = []
if_asked loses_event = []
if_asked clears_flag = []

abbrev pub asked_in : List Operation → List Operation
asked_in [] = []
asked_in (op ∷ log) = if_asked op ++ asked_in log

pub asked_by_all-append :
    (first later : List RelayCommand)
    → asked_by_all (first ++ later) ≡ asked_by_all first ++ asked_by_all later
asked_by_all-append [] later = refl
asked_by_all-append (command ∷ first) later =
    ap (λ l. asked_by command ++ l) (asked_by_all-append first later)
    ∙ sym (append_assoc (asked_by command) (asked_by_all first) (asked_by_all later))

pub asked_in-append :
    (first later : List Operation) → asked_in (first ++ later) ≡ asked_in first ++ asked_in later
asked_in-append [] later = refl
asked_in-append (op ∷ first) later =
    ap (λ l. if_asked op ++ l) (asked_in-append first later)
    ∙ sym (append_assoc (if_asked op) (asked_in first) (asked_in later))

-- the command of a call that succeeded
abbrev pub if_sent : Outcome TransportError (Unit {0}) → RelayCommand → List RelayCommand
if_sent (ok sent) command = command ∷ []
if_sent (err error) command = []
if_sent panic command = []

abbrev pub accepted : RelaySession → Act → List RelayCommand
accepted s (sends command) = if_sent (try_send s command).0 command
accepted s takes_event = []
accepted s stops = []
accepted s (steps o) = []

module _ (env : Env) (c : Primitives) where
  -- The commands of the owner's calls that succeed, in order.
  abbrev pub all_accepted : RelaySession → List Act → List RelayCommand
  all_accepted s [] = []
  all_accepted s (a ∷ acts) = accepted s a ++ all_accepted (act env c s a) acts

  abbrev pub perform : RelayConfig → Operation → Worker → Worker
  perform config (sends_packet packet) w = Send.send_packet env w packet
  perform config (sends_audio frame) w = Send.send_pcm env c config w frame
  perform config (sends_control t payload) w = Send.send_control env config w t payload
  perform config (greets local_addr) w = greet env c config local_addr w
  perform config (keeps_alive checked_at reset_at) w = keep_alive env c config w checked_at reset_at
  perform config (receives arrival) w = receive_arrival env c config w arrival
  perform config says_goodbye w = finish env c config w
  perform config loses_event w = record w { events = drop 1 w.events }
  perform config clears_flag w = record w { running = false }

  abbrev pub perform_all : RelayConfig → List Operation → Worker → Worker
  perform_all config [] w = w
  perform_all config (op ∷ log) w = perform_all config log (perform config op w)

  pub perform_all-append :
      (config : RelayConfig) (first later : List Operation) (w : Worker)
      → perform_all config (first ++ later) w
        ≡ perform_all config later (perform_all config first w)
  perform_all-append config [] later w = refl
  perform_all-append config (op ∷ first) later w =
      perform_all-append config first later (perform config op w)
