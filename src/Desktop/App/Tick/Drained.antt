-- ===== src/Desktop/App/Tick/Drained.antt =====
-- apps/desktop/src/main.rs: the fuel of the timer's loop over the session's events.
use incom_udon_native_rust.Base.{
  ℕ, zero, suc, ◌<◌, List, [], ◌∷◌, Option, none, some, Bool, not, ◌||◌, ◌==◌, length, Outcome, ok,
  err, panic, ◌≡◌, refl, sym, ap, subst, inl, inr, Bool-cases, arith,
}
use incom_udon_native_rust.Profiles.Store.{TransceiverProfile, ProfileError, active}
use incom_udon_native_rust.Transport.State.{RelayEvent, Worker}
use incom_udon_native_rust.Transport.State
use incom_udon_native_rust.Transport.Session.{RelaySession, take_event, try_next_event}
use incom_udon_native_rust.Desktop.App.{Host, App}
use incom_udon_native_rust.Desktop.App.Tick.{
  play_frame, going_on, apply_event, pump_on, pump_event, pump_session, pump_rest, waiting_of,
}

module _ (host : Host) where
  -- With no events left.
  abbrev pub IsDrained : Option (App host × Bool) → Type 0
  IsDrained none = Unit
  IsDrained (some (a, stopped)) = waiting_of host a.session ≡ 0

  -- the session is as it was
  abbrev KeepsSession : App host → Option (App host × Bool) → Type 0
  KeepsSession a none = Unit
  KeepsSession a (some (a', stopped)) = a'.session ≡ a.session

  play_frame-session :
      (a : App host) (sender_id : ℕ) (frame : List ℕ) (o : Outcome ProfileError TransceiverProfile)
      → KeepsSession a (going_on host (play_frame host a sender_id frame o))
  unfolding play_frame
  play_frame-session a sender_id frame (ok p) =
      elim (Bool-cases (not p.mute_self_id || not (sender_id == p.sender_id))) [
        | inl heard ↦ rw heard refl
        | inr muted ↦ rw muted refl
      ]
  play_frame-session a sender_id frame (err e) = tt
  play_frame-session a sender_id frame panic = tt

  apply_event-session :
      (a : App host) (event : RelayEvent) → KeepsSession a (apply_event host a event)
  unfolding apply_event
  apply_event-session a (State.pcm_received sender_id frame) =
      play_frame-session a sender_id frame (active a.store)
  apply_event-session a (State.connected local_addr) = refl
  apply_event-session a (State.sent packet_type) = refl
  apply_event-session a (State.received packet) = refl
  apply_event-session a (State.receive_rejected error) = refl
  apply_event-session a (State.io_error message) = refl
  apply_event-session a State.stopped = refl

  -- The rounds `go` drain a session with at most `n` events, the last round included.
  abbrev Drains : ℕ → (App host → Bool → Option (App host × Bool)) → Type 0
  Drains n go =
      (a : App host) (stopped : Bool) → waiting_of host a.session < n → IsDrained (go a stopped)

  pump_on-IsDrained :
      (n : ℕ) (go : App host → Bool → Option (App host × Bool)) (a : App host) (stopped : Bool)
      (o : Option (App host × Bool))
      → Drains n go
      → waiting_of host a.session < n
      → KeepsSession a o
      → IsDrained (pump_on host go stopped o)
  pump_on-IsDrained n go a stopped none d lt k = tt
  pump_on-IsDrained n go a stopped (some (a', last)) d lt k =
      d a' (stopped || last) (subst (λ s. waiting_of host s < n) (sym k) lt)

  pump_events-IsDrained :
      (n : ℕ) (go : App host → Bool → Option (App host × Bool)) (a : App host) (stopped : Bool)
      (session : RelaySession) (events : List RelayEvent)
      → Drains n go
      → session.state.events ≡ events
      → length events < suc n
      → IsDrained (
          pump_event host go
            (record a {
              session = some (record session { state = (take_event session.state events).1 });
            })
            stopped
            (take_event session.state events).0)
  pump_events-IsDrained n go a stopped session [] d e lt = ap length e
  pump_events-IsDrained n go a stopped session (event ∷ events) d e lt =
      let next = record a {
        session = some (record session { state = record session.state { events = events } });
      } in
      pump_on-IsDrained n go next stopped (apply_event host next event) d (omega (arith, lt))
        (apply_event-session next event)

  pump_session-IsDrained :
      (n : ℕ) (go : App host → Bool → Option (App host × Bool)) (a : App host) (stopped : Bool)
      (s : Option RelaySession)
      → a.session ≡ s
      → Drains n go
      → waiting_of host s < suc n
      → IsDrained (pump_session host go a stopped s)
  unfolding try_next_event
  pump_session-IsDrained n go a stopped none e d lt = ap (waiting_of host) e
  pump_session-IsDrained n go a stopped (some session) e d lt =
      pump_events-IsDrained n go a stopped session session.state.events d refl lt

  -- The fuel is enough: one round more than events wait.
  pump_rest-IsDrained :
      (n : ℕ) (a : App host) (stopped : Bool)
      → waiting_of host a.session < n
      → IsDrained (pump_rest host n a stopped)
  unfolding pump_rest
  pump_rest-IsDrained zero a stopped lt = absurd (omega (arith, lt))
  pump_rest-IsDrained (suc n) a stopped lt =
      pump_session-IsDrained n (pump_rest host n) a stopped a.session refl (pump_rest-IsDrained n)
        lt
