-- ===== src/Transport/Session/Acts.antt =====
-- crates/incomudon-transport/src/lib.rs: sequences of the owner's calls and of the thread's steps,
-- in any order, and what they preserve.
use incom_udon_native_rust.Base.{
  List, [], ◌∷◌, false, ◌||◌, leb, length, ◌≡◌, refl, sym, subst, inl, inr, Bool-cases, All,
  All-append, drop,
}
use incom_udon_native_rust.Protocol.Types.{join}
use incom_udon_native_rust.Crypto.Primitives.{Primitives}
use incom_udon_native_rust.Transport.State.{
  default_command_capacity, RelayConfig, RelayCommand, RelayEvent, connected, stopped, Worker, Env,
  SocketAddr,
}
use incom_udon_native_rust.Transport.Worker.{handle, keep_alive, receive_arrival, greet, finish}
use incom_udon_native_rust.Transport.Session.{
  Pc, starting, testing, polling, draining, rechecking, keeping, receiving, leaving, ended, Outside,
  RelaySession, is_disconnect, is_ended, try_send, take_event, try_next_event, poll, drain_one,
  step_at, thread_step,
}
use incom_udon_native_rust.Transport.Runs.{IsPreserved, keep_alive-Inv, receive_arrival-Inv}

-- A call of the owner, the first statement of `disconnect`, or a step of the thread.
pub data Act : Type 0 where
  sends : RelayCommand → Act
  takes_event : Act
  stops : Act
  steps : Outside → Act

module _ (env : Env) (c : Primitives) where
  unfoldable pub act : RelaySession → Act → RelaySession
  act s (sends command) = (try_send s command).1
  act s takes_event = (try_next_event s).1
  act s stops = record s { state = record s.state { running = false } }
  act s (steps o) = thread_step env c s o

  unfoldable pub run_acts : RelaySession → List Act → RelaySession
  run_acts s [] = s
  run_acts s (a ∷ acts) = run_acts (act s a) acts

module _ (Allowed : RelayCommand → Type 0) where
  abbrev pub ActAllowed : Act → Type 0
  ActAllowed (sends command) = Allowed command
  ActAllowed takes_event = Unit
  ActAllowed stops = Unit
  ActAllowed (steps o) = Unit

-- The invariant of the thread's variables, with commands of the kind in the channel.
pub record InSession (config : RelayConfig) (Allowed : RelayCommand → Type 0)
    (Inv : Worker → Type 0) (s : RelaySession) : Type 0 where
  pub same_config : s.config ≡ config
  pub inv : Inv s.state
  pub allowed : All Allowed s.commands

module _ (env : Env) (c : Primitives) (config : RelayConfig) (Allowed : RelayCommand → Type 0)
    (Inv : Worker → Type 0) (keep : IsPreserved env c config Allowed Inv) where
  abbrev Holds : RelaySession → Type 0
  Holds = InSession config Allowed Inv

  -- an invariant of the handlers, at the session's configuration
  at_config : (s : RelaySession) (P : RelayConfig → Type 0) → Holds s → P config → P s.config
  at_config s P h p = subst P (sym h.same_config) p

  handled-Holds :
      (s : RelaySession) (command : RelayCommand) (rest : List RelayCommand) (pc : Pc)
      → Holds s
      → All Allowed (command ∷ rest)
      → Holds (record s { commands = rest; pc = pc; state = handle env c s.config s.state command })
  handled-Holds s command rest pc h a = record {
    same_config = h.same_config;
    inv =
        at_config s (λ cfg. Inv (handle env c cfg s.state command)) h
          (keep.handled s.state command a.0 h.inv);
    allowed = a.1;
  }

  poll-Holds :
      (s : RelaySession) (commands : List RelayCommand)
      → Holds s
      → All Allowed commands
      → Holds (poll env c s commands)
  unfolding poll
  poll-Holds s [] h a = record { same_config = h.same_config; inv = h.inv; allowed = h.allowed }
  poll-Holds s (command ∷ rest) h a = elim (Bool-cases (is_disconnect command)) [
    | inl last ↦ rw last (record { same_config = h.same_config; inv = h.inv; allowed = a.1 })
    | inr more ↦ rw more (handled-Holds s command rest draining h a)
  ]

  drain_one-Holds :
      (s : RelaySession) (commands : List RelayCommand)
      → Holds s
      → All Allowed commands
      → Holds (drain_one env c s commands)
  unfolding drain_one
  drain_one-Holds s [] h a = record {
    same_config = h.same_config;
    inv = h.inv;
    allowed = h.allowed;
  }
  drain_one-Holds s (command ∷ rest) h a = elim (Bool-cases (is_disconnect command)) [
    | inl last ↦
        rw last
          (record { same_config = h.same_config; inv = keep.stopped s.state h.inv; allowed = a.1 })
    | inr more ↦ rw more (handled-Holds s command rest s.pc h a)
  ]

  -- a step that leaves the channel alone
  moved-Holds :
      (s : RelaySession) (pc : Pc) (w : Worker)
      → Holds s
      → Inv w
      → Holds (record s { pc = pc; state = w })
  moved-Holds s pc w h i = record { same_config = h.same_config; inv = i; allowed = h.allowed }

  greet-Inv : (w : Worker) (local_addr : SocketAddr) → Inv w → Inv (greet env c config local_addr w)
  unfolding greet
  greet-Inv w local_addr i = keep.control _ join [] (keep.event w (connected local_addr) i)

  pub finish-Inv : (w : Worker) → Inv w → Inv (finish env c config w)
  unfolding finish
  finish-Inv w i = keep.event _ stopped (keep.control w _ [] i)

  pub step_at-Holds :
      (pc : Pc) (s : RelaySession) (o : Outside) → Holds s → Holds (step_at env c pc s o)
  unfolding step_at
  step_at-Holds (starting local_addr) s o h = moved-Holds s testing _ h (
      at_config s (λ cfg. Inv (greet env c cfg local_addr s.state)) h
        (greet-Inv s.state local_addr h.inv))
  step_at-Holds testing s o h = moved-Holds s _ s.state h h.inv
  step_at-Holds polling s o h = poll-Holds s s.commands h h.allowed
  step_at-Holds draining s o h = drain_one-Holds s s.commands h h.allowed
  step_at-Holds rechecking s o h = moved-Holds s _ s.state h h.inv
  step_at-Holds keeping s o h = moved-Holds s receiving _ h (
      at_config s (λ cfg. Inv (keep_alive env c cfg s.state o.checked_at o.reset_at)) h
        (keep_alive-Inv env c config Allowed Inv keep s.state o.checked_at o.reset_at h.inv))
  step_at-Holds receiving s o h = moved-Holds s testing _ h (
      at_config s (λ cfg. Inv (receive_arrival env c cfg s.state o.arrival)) h
        (receive_arrival-Inv env c config Allowed Inv keep s.state o.arrival h.inv))
  step_at-Holds leaving s o h =
      moved-Holds s ended _ h
        (at_config s (λ cfg. Inv (finish env c cfg s.state)) h (finish-Inv s.state h.inv))
  step_at-Holds ended s o h = h

  try_send-Holds :
      (s : RelaySession) (command : RelayCommand)
      → Allowed command
      → Holds s
      → Holds (try_send s command).1
  unfolding try_send
  try_send-Holds s command a h =
      elim (Bool-cases (is_ended s.pc || leb default_command_capacity (length s.commands))) [
        | inl refused ↦ rw refused h
        | inr accepted ↦ rw accepted (record {
          same_config = h.same_config;
          inv = h.inv;
          allowed = All-append Allowed s.commands (command ∷ []) h.allowed (a, tt);
        })
      ]

  take_event-Inv :
      (w : Worker) (events : List RelayEvent)
      → w.events ≡ events
      → Inv w
      → Inv (take_event w events).1
  take_event-Inv w [] e i = i
  take_event-Inv w (event ∷ events) e i =
      subst (λ (l : List RelayEvent). Inv (record w { events = drop 1 l })) e (keep.taken w 1 i)

  act-Holds : (s : RelaySession) (a : Act) → ActAllowed Allowed a → Holds s → Holds (act env c s a)
  unfolding act try_next_event thread_step
  act-Holds s (sends command) ok h = try_send-Holds s command ok h
  act-Holds s takes_event ok h =
      moved-Holds s s.pc _ h (take_event-Inv s.state s.state.events refl h.inv)
  act-Holds s stops ok h = moved-Holds s s.pc _ h (keep.stopped s.state h.inv)
  act-Holds s (steps o) ok h = step_at-Holds s.pc s o h

  pub run_acts-Holds :
      (s : RelaySession) (acts : List Act)
      → All (ActAllowed Allowed) acts
      → Holds s
      → Holds (run_acts env c s acts)
  unfolding run_acts
  run_acts-Holds s [] ok h = h
  run_acts-Holds s (a ∷ acts) ok h = run_acts-Holds (act env c s a) acts ok.1 (act-Holds s a ok.0 h)
