-- ===== src/Desktop/App/Calls.antt =====
-- apps/desktop/src/main.rs: any sequence of what may happen to the application: the user's input, the
-- timer, and between them the sound callbacks and the session's thread.
pub mod Stages
pub mod Total
use incom_udon_native_rust.Base.{ℕ, List, [], ◌∷◌, Option, none, some}
use incom_udon_native_rust.Audio.Playback.{pop_times}
use incom_udon_native_rust.Transport.Session.{Outside, RelaySession, thread_step}
use incom_udon_native_rust.Desktop.Audio.{DesktopAudio, send_frames}
use incom_udon_native_rust.Desktop.Window.{AppWindow}
use incom_udon_native_rust.Desktop.App.{Host, App}
use incom_udon_native_rust.Desktop.App.Talk.{ptt_pressed, ptt_released}
use incom_udon_native_rust.Desktop.App.Save.{save_profile, save_relay_settings}
use incom_udon_native_rust.Desktop.App.Link.{Connecting, connect_relay, disconnect_relay}
use incom_udon_native_rust.Desktop.App.Tick.{tick}

module _ (host : Host) where
  -- The user changes the window's properties, presses or releases the talk button, saves, connects
  -- or disconnects; the timer ticks; the microphone emits frames, the speaker takes samples; the
  -- thread goes one step.
  pub data Input : Type 0 where
    edits : AppWindow → Input
    presses releases saves_profile saves_relay : Input
    connects : Connecting host → Input
    disconnects : List Outside → Input
    ticks : List (List Outside) → List Outside → Input
    emits : List (List ℕ) → Input
    plays : ℕ → Input
    works : Outside → Input

  abbrev emitted : List (List ℕ) → Option DesktopAudio → Option DesktopAudio
  emitted frames none = none
  emitted frames (some audio) =
      some (record audio { capture_frames = send_frames audio.capture_frames frames })

  abbrev played : ℕ → Option DesktopAudio → Option DesktopAudio
  played n none = none
  played n (some audio) = some (record audio {
    playback = record audio.playback { samples = pop_times n audio.playback.samples };
  })

  abbrev worked : Outside → Option RelaySession → Option RelaySession
  worked o none = none
  worked o (some session) = some (thread_step host.env host.primitives session o)

  unfoldable pub respond : App host → Input → Option (App host)
  respond a (edits w) = some (record a { window = w })
  respond a presses = ptt_pressed host a
  respond a releases = ptt_released host a
  respond a saves_profile = save_profile host a
  respond a saves_relay = save_relay_settings host a
  respond a (connects k) = connect_relay host a k
  respond a (disconnects os) = some (disconnect_relay host a os)
  respond a (ticks rounds os) = tick host a rounds os
  respond a (emits frames) = some (record a { audio = emitted frames a.audio })
  respond a (plays n) = some (record a { audio = played n a.audio })
  respond a (works o) = some (record a { session = worked o a.session })

  unfoldable pub run_inputs : Option (App host) → List Input → Option (App host)
  unfolding respond
  run_inputs none inputs = none
  run_inputs (some a) [] = some a
  run_inputs (some a) (i ∷ inputs) = run_inputs (respond a i) inputs
