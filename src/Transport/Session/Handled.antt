-- ===== src/Transport/Session/Handled.antt =====
-- crates/incomudon-transport/src/lib.rs: the commands of the owner are done by the thread.
use incom_udon_native_rust.Base.{
  List, [], ◌∷◌, ◌++◌, ◌||◌, leb, length, drop, ◌≡◌, refl, sym, ap, ap₂, true, false, ◌∙◌, inl, inr,
  Bool-cases, append_assoc, append-nil, subst,
}
use incom_udon_native_rust.Crypto.Primitives.{Primitives}
use incom_udon_native_rust.Transport.State.{
  default_command_capacity, RelayConfig, RelayCommand, RelayEvent, Worker, Env, SocketAddr,
}
use incom_udon_native_rust.Transport.State
use incom_udon_native_rust.Transport.Worker.{handle}
use incom_udon_native_rust.Transport.Session.{
  Pc, starting, testing, polling, draining, rechecking, keeping, receiving, leaving, ended, Outside,
  RelaySession, is_disconnect, is_ended, try_send, take_event, try_next_event, poll, drain_one,
  step_at, thread_step,
}
use incom_udon_native_rust.Transport.Session.Acts.{
  Act, sends, takes_event, stops, steps, act, run_acts,
}
use incom_udon_native_rust.Transport.Session.Operations.{
  Operation, sends_packet, sends_audio, sends_control, greets, keeps_alive, receives, says_goodbye,
  loses_event, clears_flag, asked_by, asked_by_all, if_asked, asked_in, asked_by_all-append,
  asked_in-append, accepted, all_accepted, perform, perform_all, perform_all-append,
}

module _ (env : Env) (c : Primitives) where
  -- From `s` to `s'`, while these commands were accepted: those taken from the channel are the
  -- oldest ones, and the thread's variables have changed by the operations that the taken commands
  -- ask for, each once and in order, and by no other sending of a command.
  pub record Handled (s s' : RelaySession) (new : List RelayCommand) : Type 0 where
    pub same_config : s'.config ≡ s.config
    pub taken : List RelayCommand
    pub oldest : s.commands ++ new ≡ taken ++ s'.commands
    pub log : List Operation
    pub performed : s'.state ≡ perform_all env c s.config log s.state
    pub as_asked : asked_in log ≡ asked_by_all taken

  compose :
      {s s' s'' : RelaySession} {new new' : List RelayCommand}
      → Handled s s' new
      → Handled s' s'' new'
      → Handled s s'' (new ++ new')
  compose {s} {s'} {s''} {new} {new'} first later = record {
    same_config = later.same_config ∙ first.same_config;
    taken = first.taken ++ later.taken;
    oldest =
        sym (append_assoc s.commands new new')
        ∙ ap (λ l. l ++ new') first.oldest
        ∙ append_assoc first.taken s'.commands new'
        ∙ ap (λ l. first.taken ++ l) later.oldest
        ∙ sym (append_assoc first.taken later.taken s''.commands);
    log = first.log ++ later.log;
    performed =
        later.performed
        ∙ ap₂ (λ config w. perform_all env c config later.log w) first.same_config first.performed
        ∙ sym (perform_all-append env c s.config first.log later.log s.state);
    as_asked =
        asked_in-append first.log later.log
        ∙ ap₂ (λ l r. l ++ r) first.as_asked later.as_asked
        ∙ sym (asked_by_all-append first.taken later.taken);
  }

  -- only the place changes
  moves : (s : RelaySession) (pc : Pc) → Handled s (record s { pc = pc }) []
  moves s pc = record {
    same_config = refl;
    taken = [];
    oldest = append-nil s.commands;
    log = [];
    performed = refl;
    as_asked = refl;
  }

  -- an operation that no command asks for
  works :
      (s : RelaySession) (pc : Pc) (op : Operation)
      → if_asked op ≡ []
      → Handled s (record s { pc = pc; state = perform env c s.config op s.state }) []
  works s pc op unasked = record {
    same_config = refl;
    taken = [];
    oldest = append-nil s.commands;
    log = op ∷ [];
    performed = refl;
    as_asked = append-nil (if_asked op) ∙ unasked;
  }

  -- a command that asks for no sending
  ends :
      (s : RelaySession) (commands rest : List RelayCommand) (pc : Pc) (command : RelayCommand)
      (log : List Operation)
      → s.commands ≡ command ∷ rest
      → asked_in log ≡ asked_by command
      → Handled s
          (record s { commands = rest; pc = pc; state = perform_all env c s.config log s.state })
          []
  ends s commands rest pc command log front same = record {
    same_config = refl;
    taken = command ∷ [];
    oldest = append-nil s.commands ∙ front;
    log = log;
    performed = refl;
    as_asked = same ∙ sym (append-nil (asked_by command));
  }

  serves :
      (s : RelaySession) (command : RelayCommand) (rest : List RelayCommand) (pc : Pc)
      → s.commands ≡ command ∷ rest
      → is_disconnect command ≡ false
      → Handled s
          (record s { commands = rest; pc = pc; state = handle env c s.config s.state command })
          []
  unfolding handle
  serves s (State.send packet) rest pc front more =
      ends s s.commands rest pc (State.send packet) (sends_packet packet ∷ []) front refl
  serves s (State.send_pcm frame) rest pc front more =
      ends s s.commands rest pc (State.send_pcm frame) (sends_audio frame ∷ []) front refl
  serves s (State.send_control t payload) rest pc front more =
      ends s s.commands rest pc (State.send_control t payload) (sends_control t payload ∷ []) front
        refl
  serves s State.disconnect rest pc front more = cc

  asked-disconnect : (command : RelayCommand) → is_disconnect command ≡ true → [] ≡ asked_by command
  asked-disconnect State.disconnect last = refl
  asked-disconnect (State.send packet) last = cc
  asked-disconnect (State.send_pcm frame) last = cc
  asked-disconnect (State.send_control t payload) last = cc

  poll-Handled :
      (s : RelaySession) (commands : List RelayCommand)
      → s.commands ≡ commands
      → Handled s (poll env c s commands) []
  unfolding poll
  poll-Handled s [] e = moves s draining
  poll-Handled s (command ∷ rest) e = elim (Bool-cases (is_disconnect command)) [
    | inl last ↦
        rw last (ends s s.commands rest leaving command [] e (asked-disconnect command last))
    | inr more ↦ rw more (serves s command rest draining e more)
  ]

  drain_one-Handled :
      (s : RelaySession) (commands : List RelayCommand)
      → s.commands ≡ commands
      → Handled s (drain_one env c s commands) []
  unfolding drain_one
  drain_one-Handled s [] e = moves s rechecking
  drain_one-Handled s (command ∷ rest) e = elim (Bool-cases (is_disconnect command)) [
    | inl last ↦ rw last (
        ends s s.commands rest rechecking command (clears_flag ∷ []) e
          (asked-disconnect command last))
    | inr more ↦ rw more (serves s command rest s.pc e more)
  ]

  step_at-Handled : (pc : Pc) (s : RelaySession) (o : Outside) → Handled s (step_at env c pc s o) []
  unfolding step_at
  step_at-Handled (starting local_addr) s o = works s testing (greets local_addr) refl
  step_at-Handled testing s o = moves s _
  step_at-Handled polling s o = poll-Handled s s.commands refl
  step_at-Handled draining s o = drain_one-Handled s s.commands refl
  step_at-Handled rechecking s o = moves s _
  step_at-Handled keeping s o = works s receiving (keeps_alive o.checked_at o.reset_at) refl
  step_at-Handled receiving s o = works s testing (receives o.arrival) refl
  step_at-Handled leaving s o = works s ended says_goodbye refl
  step_at-Handled ended s o = moves s s.pc

  try_send-Handled :
      (s : RelaySession) (command : RelayCommand)
      → Handled s (try_send s command).1 (accepted s (sends command))
  unfolding try_send
  try_send-Handled s command =
      elim (Bool-cases (is_ended s.pc || leb default_command_capacity (length s.commands))) [
        | inl refused ↦ rw refused (moves s s.pc)
        | inr taken ↦ rw taken (record {
          same_config = refl;
          taken = [];
          oldest = refl;
          log = [];
          performed = refl;
          as_asked = refl;
        })
      ]

  take_event-drop :
      (w : Worker) (events : List RelayEvent)
      → w.events ≡ events
      → record w { events = drop 1 w.events } ≡ (take_event w events).1
  take_event-drop w [] e =
      ap (λ l. record w { events = drop 1 l }) e ∙ ap (λ l. record w { events = l }) (sym e)
  take_event-drop w (event ∷ events) e = ap (λ l. record w { events = drop 1 l }) e

  act-Handled : (s : RelaySession) (a : Act) → Handled s (act env c s a) (accepted s a)
  unfolding act try_next_event thread_step
  act-Handled s (sends command) = try_send-Handled s command
  act-Handled s takes_event =
      subst (λ (w : Worker). Handled s (record s { state = w }) [])
        (take_event-drop s.state s.state.events refl) (works s s.pc loses_event refl)
  act-Handled s stops = works s s.pc clears_flag refl
  act-Handled s (steps o) = step_at-Handled s.pc s o

  -- However the owner's calls and the thread's steps are interleaved: the thread has taken the
  -- commands of the calls that succeeded in order, behind those that waited at first, and what it
  -- has not taken still waits. For each taken command it has done the sending that the command
  -- asks for, once, with the session's configuration and in this order; beside these, only its own
  -- work, the taking of events and the clearing of the flag have changed its variables.
  pub run_acts-Handled :
      (s : RelaySession) (acts : List Act)
      → Handled s (run_acts env c s acts) (all_accepted env c s acts)
  unfolding run_acts
  run_acts-Handled s [] = moves s s.pc
  run_acts-Handled s (a ∷ acts) = compose (act-Handled s a) (run_acts-Handled (act env c s a) acts)
