-- ===== src/Desktop/App/Tick.antt =====
-- apps/desktop/src/main.rs: the timer's handler, which moves sound and events between the session
-- and the window.
pub mod Drained
pub mod Frames
use incom_udon_native_rust.Base.{
  ℕ, zero, suc, List, [], ◌∷◌, Option, none, some, Bool, false, not, ◌||◌, ◌==◌, if◌then◌else◌,
  length, Outcome, ok, err, panic,
}
use incom_udon_native_rust.Profiles.Store.{TransceiverProfile, ProfileError, active}
use incom_udon_native_rust.Transport.State.{RelayEvent, pcm_received}
use incom_udon_native_rust.Transport.Session.{
  Outside, RelaySession, send_pcm_frame, try_next_event, join,
}
use incom_udon_native_rust.Desktop.Audio.{
  DesktopAudio, try_next_capture_frame, queue_playback_frame,
}
use incom_udon_native_rust.Desktop.Window.{apply_relay_event}
use incom_udon_native_rust.Desktop.App.{Host, App}
use incom_udon_native_rust.Desktop.App.Link.{close_session}

module _ (host : Host) where
  abbrev pub send_to : Option RelaySession → List ℕ → Option RelaySession
  send_to none frame = none
  send_to (some session) frame = some (send_pcm_frame session frame).1

  -- the loop over the captured frames, at most as many as the number
  unfoldable pub send_captured :
      ℕ → DesktopAudio → Option RelaySession → DesktopAudio × Option RelaySession
  send_captured zero audio session = (audio, session)
  send_captured (suc n) audio session = elim (try_next_capture_frame audio).0 [
    | none ↦ ((try_next_capture_frame audio).1, session)
    | some frame ↦ send_captured n (try_next_capture_frame audio).1 (send_to session frame)
  ]

  unfoldable pub captured_from : App host → Option DesktopAudio → App host
  unfolding send_captured
  captured_from a none = a
  captured_from a (some audio) =
      let (audio', session) = send_captured 4 audio a.session in
      record a { audio = some audio'; session = session }

  abbrev pub queued : Option DesktopAudio → List ℕ → Option DesktopAudio
  queued none frame = none
  queued (some audio) frame = some (queue_playback_frame audio frame).1

  unfoldable pub play_frame :
      App host → ℕ → List ℕ → Outcome ProfileError TransceiverProfile → Option (App host)
  play_frame a sender_id frame (ok profile) = some (
      if not profile.mute_self_id || not (sender_id == profile.sender_id)
      then record a { audio = queued a.audio frame }
      else a)
  play_frame a sender_id frame (err error) = none
  play_frame a sender_id frame panic = none

  abbrev pub going_on : Option (App host) → Option (App host × Bool)
  going_on none = none
  going_on (some a) = some (a, false)

  -- one event; the flag says that the session has stopped
  unfoldable pub apply_event : App host → RelayEvent → Option (App host × Bool)
  unfolding play_frame
  apply_event a (pcm_received sender_id frame) =
      going_on (play_frame a sender_id frame (active a.store))
  apply_event a event =
      let (w, stopped) = apply_relay_event host.texts a.window event in
      some (record a { window = w }, stopped)

  abbrev pub waiting_of : Option RelaySession → ℕ
  waiting_of none = 0
  waiting_of (some session) = length session.state.events

  -- The rest of a round of the loop over the events, where `go` are the rounds behind it: behind
  -- the event, behind `try_next_event`, and at the test of the session.
  abbrev pub pump_on :
      (App host → Bool → Option (App host × Bool))
      → Bool
      → Option (App host × Bool)
      → Option (App host × Bool)
  pump_on go stopped none = none
  pump_on go stopped (some (a, last)) = go a (stopped || last)

  abbrev pub pump_event :
      (App host → Bool → Option (App host × Bool))
      → App host
      → Bool
      → Option RelayEvent
      → Option (App host × Bool)
  pump_event go a stopped none = some (a, stopped)
  pump_event go a stopped (some event) = pump_on go stopped (apply_event a event)

  abbrev pub pump_session :
      (App host → Bool → Option (App host × Bool))
      → App host
      → Bool
      → Option RelaySession
      → Option (App host × Bool)
  pump_session go a stopped none = some (a, stopped)
  pump_session go a stopped (some session) =
      pump_event go (record a { session = some (try_next_event session).1 }) stopped
        (try_next_event session).0

  -- the end of the loop, while which the thread adds no event; the fuel is a round more than
  -- events wait
  unfoldable pub pump_rest : ℕ → App host → Bool → Option (App host × Bool)
  unfolding apply_event
  pump_rest zero a stopped = some (a, stopped)
  pump_rest (suc n) a stopped = pump_session (pump_rest n) a stopped a.session

  abbrev pub advanced : Option RelaySession → List Outside → Option RelaySession
  advanced none os = none
  advanced (some session) os = some (join host.env host.primitives session os)

  -- the thread goes on, as many steps as the list has
  abbrev pub thread_goes : App host → List Outside → App host
  thread_goes a os = record a { session = advanced a.session os }

  -- The loop over the events. Before each call of `try_next_event` the thread goes the steps of a
  -- list, and adds events; a loop that ends has finitely many rounds, and behind those of the
  -- schedule the thread adds none.
  unfoldable pub pump : List (List Outside) → App host → Bool → Option (App host × Bool)
  unfolding pump_rest
  pump [] a stopped = pump_rest (suc (waiting_of a.session)) a stopped
  pump (os ∷ rounds) a stopped =
      pump_session (pump rounds) (thread_goes a os) stopped (thread_goes a os).session

  abbrev pub end_tick : Option (App host × Bool) → List Outside → Option (App host)
  end_tick none os = none
  end_tick (some (a, stopped)) os = some (if stopped then close_session host a a.session os else a)

  -- the part of the handler in front of the window
  abbrev pub with_sent : App host → App host
  with_sent a = if a.ptt_active then captured_from a a.audio else a

  -- The timer's handler: the thread's steps in the loop over the events, and those while it is
  -- joined, if the session has stopped.
  unfoldable pub tick : App host → List (List Outside) → List Outside → Option (App host)
  unfolding pump captured_from
  tick a rounds os = end_tick (pump rounds (with_sent a) false) os
