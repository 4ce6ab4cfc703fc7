-- ===== src/Desktop/App/Calls/Total.antt =====
-- apps/desktop/src/main.rs: no handler panics.
use incom_udon_native_rust.Base.{
  ℕ, zero, suc, List, [], ◌∷◌, Option, none, some, Bool, true, false, ◌||◌, if◌then◌else◌, Outcome,
  bind-ne-panic, ok, err, panic, ◌≡◌, ◌≢◌, refl, sym, subst,
}
use incom_udon_native_rust.Base.Text.{Text}
use incom_udon_native_rust.Protocol.Types.{ptt_off}
use incom_udon_native_rust.Profiles.Store.{
  TransceiverProfile, RelayEndpoint, ProfileStore, ProfileError, active,
}
use incom_udon_native_rust.Profiles.Steady.{IsSelected, active-found}
use incom_udon_native_rust.Transport.State.{SocketAddr, RelayEvent}
use incom_udon_native_rust.Transport.Session.{Outside, RelaySession, try_next_event}
use incom_udon_native_rust.Desktop.Storage.{Returns, load_profile_store}
use incom_udon_native_rust.Desktop.Storage.Laws.{LoadsValid, load_profile_store-IsValid}
use incom_udon_native_rust.Desktop.Audio.{DesktopAudio}
use incom_udon_native_rust.Desktop.Window.{AppWindow, relay_from_window}
use incom_udon_native_rust.Desktop.Resolve.{first_or, resolve_relay}
use incom_udon_native_rust.Desktop.Window.Panics.{
  profile_from_window-ne-panic, relay_from_window-ne-panic,
}
use incom_udon_native_rust.Desktop.App.{Host, App, start_with, start_loaded, startup}
use incom_udon_native_rust.Desktop.App.Talk.{ptt_released, send_ptt_control}
use incom_udon_native_rust.Desktop.App.Save.{save_profile, save_relay_settings}
use incom_udon_native_rust.Desktop.App.Link.{
  Connecting, connect_entered, connect_unless, connect_relay, disconnect_relay,
}
use incom_udon_native_rust.Desktop.App.Tick.{
  captured_from, apply_event, pump_on, pump_event, pump_session, pump_rest, pump, thread_goes, tick,
  waiting_of, with_sent,
}
use incom_udon_native_rust.Desktop.App.Calls.{
  Input, edits, presses, releases, saves_profile, saves_relay, connects, disconnects, ticks, emits,
  plays, works, respond, run_inputs,
}
use incom_udon_native_rust.Desktop.App.Calls.Stages.{
  IsFine, IsFound, IsFineEvent, ptt_pressed-IsFine, released-IsFine, send_ptt_control-ne-panic,
  save_entered_profile-IsFine, save_entered_relay-IsFine, connect_resolved-IsFine,
  close_session-store, apply_event-IsFine, end_tick-IsFine,
}

first_or-ne-panic : (addresses : List SocketAddr) → first_or addresses ≢ panic
first_or-ne-panic [] = λ x. cc
first_or-ne-panic (address ∷ rest) = λ x. cc

module _ (host : Host) where
  captured_from-store :
      (a : App host) (audio : Option DesktopAudio) → (captured_from host a audio).store ≡ a.store
  unfolding captured_from
  captured_from-store a none = refl
  captured_from-store a (some audio) = refl

  -- The loop keeps the property, if the rounds behind it do.
  IsKept : (App host → Bool → Option (App host × Bool)) → Type 0
  IsKept go = (a : App host) (stopped : Bool) → IsSelected a.store → IsFineEvent host (go a stopped)

  pump_on-IsFine :
      (go : App host → Bool → Option (App host × Bool)) (stopped : Bool)
      (o : Option (App host × Bool))
      → IsKept go
      → IsFineEvent host o
      → IsFineEvent host (pump_on host go stopped o)
  unfolding IsKept
  pump_on-IsFine go stopped none k h = h
  pump_on-IsFine go stopped (some (a, last)) k h = k a (stopped || last) h

  pump_event-IsFine :
      (go : App host → Bool → Option (App host × Bool)) (a : App host) (stopped : Bool)
      (o : Option RelayEvent)
      → IsKept go
      → IsSelected a.store
      → IsFineEvent host (pump_event host go a stopped o)
  pump_event-IsFine go a stopped none k h = h
  pump_event-IsFine go a stopped (some event) k h =
      pump_on-IsFine go stopped (apply_event host a event) k (apply_event-IsFine host a event h)

  pump_session-IsFine :
      (go : App host → Bool → Option (App host × Bool)) (a : App host) (stopped : Bool)
      (s : Option RelaySession)
      → IsKept go
      → IsSelected a.store
      → IsFineEvent host (pump_session host go a stopped s)
  pump_session-IsFine go a stopped none k h = h
  pump_session-IsFine go a stopped (some session) k h =
      pump_event-IsFine go (record a { session = some (try_next_event session).1 }) stopped
        (try_next_event session).0 k h

  pump_rest-IsFine :
      (n : ℕ) (a : App host) (stopped : Bool)
      → IsSelected a.store
      → IsFineEvent host (pump_rest host n a stopped)
  unfolding pump_rest IsKept
  pump_rest-IsFine zero a stopped h = h
  pump_rest-IsFine (suc n) a stopped h =
      pump_session-IsFine (pump_rest host n) a stopped a.session (pump_rest-IsFine n) h

  pump-IsFine :
      (rounds : List (List Outside)) (a : App host) (stopped : Bool)
      → IsSelected a.store
      → IsFineEvent host (pump host rounds a stopped)
  unfolding pump IsKept
  pump-IsFine [] a stopped h = pump_rest-IsFine (suc (waiting_of host a.session)) a stopped h
  pump-IsFine (os ∷ rounds) a stopped h =
      pump_session-IsFine (pump host rounds) (thread_goes host a os) stopped
        (thread_goes host a os).session (pump-IsFine rounds) h

  sent-IsSelected :
      (a : App host) (b : Bool)
      → IsSelected a.store
      → IsSelected (if b then captured_from host a a.audio else a).store
  sent-IsSelected a true h = subst IsSelected (sym (captured_from-store a a.audio)) h
  sent-IsSelected a false h = h

  tick-IsFine :
      (a : App host) (rounds : List (List Outside)) (os : List Outside)
      → IsSelected a.store
      → IsFine host (tick host a rounds os)
  unfolding tick
  tick-IsFine a rounds os h =
      end_tick-IsFine host _ os
        (pump-IsFine rounds (with_sent host a) false (sent-IsSelected a a.ptt_active h))

  start_with-IsFine :
      (fs : host.files.Fs) (audio : Option DesktopAudio) (w : AppWindow) (store : ProfileStore)
      (status : Text) (o : Outcome ProfileError TransceiverProfile)
      → IsFound host o
      → IsSelected store
      → IsFine host (start_with host fs audio w store status o)
  start_with-IsFine fs audio w store status (ok p) f h = h
  start_with-IsFine fs audio w store status (err e) f h = cc
  start_with-IsFine fs audio w store status panic f h = cc

  start_loaded-IsFine :
      (fs : host.files.Fs) (audio : Option DesktopAudio) (w : AppWindow)
      (o : Option (ProfileStore × Text))
      → LoadsValid host.files host.storage_text o
      → IsFine host (start_loaded host fs audio w o)
  start_loaded-IsFine fs audio w o (store, status, e, valid) =
      subst (λ l. IsFine host (start_loaded host fs audio w l)) (sym e)
        (start_with-IsFine fs audio w store status (active store)
          (active-found store valid.active_in) valid.active_in)

  IsFine-some : (o : Option (App host)) → IsFine host o → (a : App host) × (o ≡ some a)
  IsFine-some none h = absurd h
  IsFine-some (some a) h = (a, refl)

  module _ (resolves : (name : Text) (port : ℕ) → host.to_socket_addrs name port ≢ panic)
      (returns : Returns host.files) where
    resolve_relay-ne-panic :
        (relay : RelayEndpoint) → resolve_relay host.to_socket_addrs relay ≢ panic
    unfolding resolve_relay
    resolve_relay-ne-panic relay =
        bind-ne-panic (host.to_socket_addrs relay.host relay.port) _
          (resolves relay.host relay.port) (λ addresses. first_or-ne-panic _)

    connect_entered-IsFine :
        (a : App host) (k : Connecting host) (o : Outcome Text RelayEndpoint)
        → o ≢ panic
        → IsSelected a.store
        → IsFine host (connect_entered host a k o)
    unfolding connect_entered
    connect_entered-IsFine a k (ok relay) n h =
        connect_resolved-IsFine host a k _ (resolve_relay-ne-panic relay) h
    connect_entered-IsFine a k (err e) n h = h
    connect_entered-IsFine a k panic n h = absurd (n refl)

    connect_unless-IsFine :
        (a : App host) (k : Connecting host) (s : Option RelaySession)
        → IsSelected a.store
        → IsFine host (connect_unless host a k s)
    unfolding connect_unless
    connect_unless-IsFine a k (some session) h = h
    connect_unless-IsFine a k none h =
        connect_entered-IsFine a k (relay_from_window host.texts a.window)
          (relay_from_window-ne-panic host.texts a.window) h

    respond-IsFine :
        (a : App host) (i : Input host) → IsSelected a.store → IsFine host (respond host a i)
    unfolding respond ptt_released save_profile save_relay_settings connect_relay disconnect_relay
    respond-IsFine a (edits w) h = h
    respond-IsFine a presses h = ptt_pressed-IsFine host a h
    respond-IsFine a releases h =
        released-IsFine host (record a { ptt_active = false })
          (send_ptt_control host a.session ptt_off)
          (send_ptt_control-ne-panic host a.session ptt_off) h
    respond-IsFine a saves_profile h =
        save_entered_profile-IsFine host returns a _
          (profile_from_window-ne-panic host.texts a.window) h
    respond-IsFine a saves_relay h =
        save_entered_relay-IsFine host returns a _ (relay_from_window-ne-panic host.texts a.window)
          h
    respond-IsFine a (connects k) h = connect_unless-IsFine a k a.session h
    respond-IsFine a (disconnects os) h =
        subst IsSelected (sym (close_session-store host a a.session os)) h
    respond-IsFine a (ticks rounds os) h = tick-IsFine a rounds os h
    respond-IsFine a (emits frames) h = h
    respond-IsFine a (plays n) h = h
    respond-IsFine a (works o) h = h

    run_inputs-IsFine :
        (o : Option (App host)) (inputs : List (Input host))
        → IsFine host o
        → IsFine host (run_inputs host o inputs)
    unfolding run_inputs
    run_inputs-IsFine none inputs h = absurd h
    run_inputs-IsFine (some a) [] h = h
    run_inputs-IsFine (some a) (i ∷ inputs) h =
        run_inputs-IsFine (respond host a i) inputs (respond-IsFine a i h)

    startup-IsFine :
        (fs : host.files.Fs) (audio : Option DesktopAudio) (w : AppWindow)
        → IsFine host (startup host fs audio w)
    unfolding startup
    startup-IsFine fs audio w =
        start_loaded-IsFine fs audio w (load_profile_store host.files host.storage_text fs)
          (load_profile_store-IsValid host.files host.storage_text returns fs)

    -- Where name resolution, the file system and the serialiser give results or errors and do not
    -- panic themselves: from the start of the application, whatever is in the file system and
    -- whether or not the sound devices were opened, no sequence of the user's input, timer ticks,
    -- sound callbacks and steps of the session's thread makes the start or a handler panic.
    pub run_inputs-total :
        (fs : host.files.Fs) (audio : Option DesktopAudio) (w : AppWindow)
        (inputs : List (Input host))
        → (a : App host) × (run_inputs host (startup host fs audio w) inputs ≡ some a)
    run_inputs-total fs audio w inputs =
        IsFine-some (run_inputs host (startup host fs audio w) inputs)
          (run_inputs-IsFine (startup host fs audio w) inputs (startup-IsFine fs audio w))
