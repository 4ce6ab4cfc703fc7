-- ===== src/Transport/Session/Join.antt =====
-- crates/incomudon-transport/src/lib.rs: `RelaySession::disconnect` joins a thread that returns.
use incom_udon_native_rust.Base.{
  ℕ, suc, ◌+◌, ◌-◌, ◌≤◌, List, [], ◌∷◌, Bool, true, false, ◌||◌, leb, not, if◌then◌else◌, length,
  ◌≡◌, refl, sym, ap, ◌∙◌, inl, inr, Bool-cases, arith, length-append, subst,
}
use incom_udon_native_rust.Crypto.Primitives.{Primitives}
use incom_udon_native_rust.Transport.State.{
  default_command_capacity, RelayConfig, RelayCommand, RelayEvent, Worker, Env,
}
use incom_udon_native_rust.Transport.State
use incom_udon_native_rust.Transport.Stable.{
  AnyCommand, IsStable, IsStable-IsPreserved, any-allowed,
}
use incom_udon_native_rust.Transport.Wire.{send_event-rest}
use incom_udon_native_rust.Transport.Runs.{IsPreserved}
use incom_udon_native_rust.Transport.Session.{
  Pc, starting, testing, polling, draining, rechecking, keeping, receiving, leaving, ended, Outside,
  RelaySession, is_disconnect, is_ended, try_send, poll, drain_one, step_at, thread_step, join,
  join_worker, disconnect,
}
use incom_udon_native_rust.Transport.Session.Acts.{step_at-Holds}

-- The thread's variables after the flag was cleared.
abbrev IsStopped : Worker → Type 0
IsStopped w = w.running ≡ false

IsStopped-IsStable : IsStable IsStopped
IsStopped-IsStable = record {
  event = λ w e h. (send_event-rest w e).3 ∙ h;
  wired = λ w wire h. h;
  counted = λ w sequence media h. h;
  stopped = λ w h. refl;
  timed = λ w t h. h;
  taken = λ w n h. h;
}

-- How many steps a thread whose flag is cleared has left, at most.
abbrev pub steps_left : Pc → ℕ → ℕ
steps_left (starting local_addr) waiting = 3
steps_left testing waiting = 2
steps_left polling waiting = waiting + 4
steps_left draining waiting = waiting + 3
steps_left rechecking waiting = 2
steps_left keeping waiting = 4
steps_left receiving waiting = 3
steps_left leaving waiting = 1
steps_left ended waiting = 0

module _ (env : Env) (c : Primitives) where
  poll-steps :
      (s : RelaySession) (commands : List RelayCommand)
      → s.commands ≡ commands
      → suc (steps_left (poll env c s commands).pc (length (poll env c s commands).commands))
        ≤ length commands + 4
  unfolding poll
  poll-steps s [] e = omega (arith, ap length e)
  poll-steps s (command ∷ rest) e = elim (Bool-cases (is_disconnect command)) [
    | inl last ↦ rw last (omega arith)
    | inr more ↦ rw more (omega arith)
  ]

  drain_one-steps :
      (s : RelaySession) (commands : List RelayCommand)
      → s.pc ≡ draining
      → suc (
          steps_left (drain_one env c s commands).pc (length (drain_one env c s commands).commands))
        ≤ length commands + 3
  unfolding drain_one
  drain_one-steps s [] e = omega arith
  drain_one-steps s (command ∷ rest) e = elim (Bool-cases (is_disconnect command)) [
    | inl last ↦ rw last (omega arith)
    | inr more ↦ rw (more, e) (omega arith)
  ]

  step_at-steps :
      (pc : Pc) (s : RelaySession) (o : Outside)
      → s.pc ≡ pc
      → IsStopped s.state
      → steps_left (step_at env c pc s o).pc (length (step_at env c pc s o).commands)
        ≤ steps_left pc (length s.commands) - 1
  unfolding step_at
  step_at-steps (starting local_addr) s o e h = omega arith
  step_at-steps testing s o e h = rw h (omega arith)
  step_at-steps polling s o e h = omega (arith, poll-steps s s.commands refl)
  step_at-steps draining s o e h = omega (arith, drain_one-steps s s.commands e)
  step_at-steps rechecking s o e h = rw h (omega arith)
  step_at-steps keeping s o e h = omega arith
  step_at-steps receiving s o e h = omega arith
  step_at-steps leaving s o e h = omega arith
  step_at-steps ended s o e h = rw e (omega arith)

  steps_left-zero : (pc : Pc) (waiting : ℕ) → steps_left pc waiting ≤ 0 → pc ≡ ended
  steps_left-zero ended waiting h = refl
  steps_left-zero (starting local_addr) waiting h = absurd (omega arith)
  steps_left-zero testing waiting h = absurd (omega arith)
  steps_left-zero polling waiting h = absurd (omega arith)
  steps_left-zero draining waiting h = absurd (omega arith)
  steps_left-zero rechecking waiting h = absurd (omega arith)
  steps_left-zero keeping waiting h = absurd (omega arith)
  steps_left-zero receiving waiting h = absurd (omega arith)
  steps_left-zero leaving waiting h = absurd (omega arith)

  steps_left-le : (pc : Pc) (waiting : ℕ) → steps_left pc waiting ≤ waiting + 4
  steps_left-le ended waiting = omega arith
  steps_left-le (starting local_addr) waiting = omega arith
  steps_left-le testing waiting = omega arith
  steps_left-le polling waiting = omega arith
  steps_left-le draining waiting = omega arith
  steps_left-le rechecking waiting = omega arith
  steps_left-le keeping waiting = omega arith
  steps_left-le receiving waiting = omega arith
  steps_left-le leaving waiting = omega arith

  keep : (config : RelayConfig) → IsPreserved env c config AnyCommand IsStopped
  keep config = IsStable-IsPreserved IsStopped IsStopped-IsStable env c config

  step_at-IsStopped :
      (s : RelaySession) (o : Outside)
      → IsStopped s.state
      → IsStopped (step_at env c s.pc s o).state
  step_at-IsStopped s o h =
      (step_at-Holds env c s.config AnyCommand IsStopped (keep s.config) s.pc s o
        (record { same_config = refl; inv = h; allowed = any-allowed s.commands })).inv

  join-IsStopped :
      (s : RelaySession) (os : List Outside) → IsStopped s.state → IsStopped (join env c s os).state
  unfolding join thread_step
  join-IsStopped s [] h = h
  join-IsStopped s (o ∷ os) h = join-IsStopped (step_at env c s.pc s o) os (step_at-IsStopped s o h)

  join-ended :
      (s : RelaySession) (os : List Outside)
      → IsStopped s.state
      → steps_left s.pc (length s.commands) ≤ length os
      → (join env c s os).pc ≡ ended
  unfolding join thread_step
  join-ended s [] h le = steps_left-zero s.pc (length s.commands) le
  join-ended s (o ∷ os) h le =
      join-ended (step_at env c s.pc s o) os (step_at-IsStopped s o h)
        (omega (arith, le, step_at-steps s.pc s o refl h))

  try_send-rest :
      (s : RelaySession) (command : RelayCommand)
      → ((try_send s command).1.state ≡ s.state)
        × ((try_send s command).1.worker ≡ s.worker)
        × (length (try_send s command).1.commands ≤ length s.commands + 1)
  unfolding try_send
  try_send-rest s command =
      elim (Bool-cases (is_ended s.pc || leb default_command_capacity (length s.commands))) [
        | inl refused ↦ rw refused (refl, refl, omega arith)
        | inr taken ↦ rw taken (refl, refl, omega (arith, length-append s.commands (command ∷ [])))
      ]

  -- the session behind `try_send(Disconnect)`
  abbrev pub told_to_stop : RelaySession → RelaySession
  told_to_stop s =
      (try_send (record s { state = record s.state { running = false } }) State.disconnect).1

  join_worker-joins :
      (s : RelaySession) (handle : Bool) (os : List Outside)
      → handle ≡ true
      → join_worker env c s handle os ≡ record (join env c s os) { worker = false }
  unfolding join_worker
  join_worker-joins s true os e = refl
  join_worker-joins s false os e = cc

  pub disconnect-joins :
      (s : RelaySession) (os : List Outside)
      → s.state.running ≡ true
      → (told_to_stop s).worker ≡ true
      → disconnect env c s os ≡ record (join env c (told_to_stop s) os) { worker = false }
  unfolding disconnect
  disconnect-joins s os running handle =
      ap
        (λ (b : Bool).
          if not b then s else join_worker env c (told_to_stop s) (told_to_stop s).worker os)
        running
      ∙ join_worker-joins (told_to_stop s) (told_to_stop s).worker os handle

  -- `disconnect` on a running session whose thread was not joined yet never waits for ever: wherever
  -- the thread is in its loop, with `n` commands in the channel it has returned after `n + 5` of its
  -- steps at most, whatever the socket and the clock give it. The handle is gone then, and the flag
  -- is cleared.
  pub disconnect-ended :
      (s : RelaySession) (os : List Outside)
      → s.state.running ≡ true
      → s.worker ≡ true
      → length s.commands + 5 ≤ length os
      → ((disconnect env c s os).pc ≡ ended)
        × ((disconnect env c s os).worker ≡ false)
        × ((disconnect env c s os).state.running ≡ false)
  disconnect-ended s os running handle enough =
      let stopped : RelaySession = record s { state = record s.state { running = false } } in
      let told = (try_send stopped State.disconnect).1 in
      let (same, kept, size) = try_send-rest stopped State.disconnect in
      let cleared : IsStopped told.state = ap (λ (w : Worker). w.running) same in
      subst (λ (t : RelaySession). (t.pc ≡ ended) × (t.worker ≡ false) × (t.state.running ≡ false))
        (sym (disconnect-joins s os running (kept ∙ handle)))
        (
          join-ended told os cleared
              (omega (arith, steps_left-le told.pc (length told.commands), size, enough)),
          refl,
          join-IsStopped told os cleared,
        )
