-- ===== src/Desktop/App.antt =====
-- apps/desktop/src/main.rs: the application's shared state and the handlers of its window and of
-- its timer. A handler is one step: the window runs one at a time, and it holds each lock only
-- inside of it. `none` is a panic.
pub mod Talk
pub mod Save
pub mod Link
pub mod Tick
pub mod Calls
use incom_udon_native_rust.Base.{
  ℕ, zero, suc, List, [], ◌∷◌, ◌++◌, Option, none, some, Bool, true, false, not, ◌||◌, ◌&&◌, ◌==◌,
  if◌then◌else◌, length, Outcome, ok, err, panic, map_err,
}
use incom_udon_native_rust.Base.Text.{Text, codes}
use incom_udon_native_rust.Protocol.Types.{PacketType, ptt_on, ptt_off, codec_config}
use incom_udon_native_rust.Profiles.Store.{
  Codec, opus, codec2, pcm, TransceiverProfile, RelayEndpoint, ProfileStore, ProfileError, Checked,
  active, replace_active, replace_relay,
}
use incom_udon_native_rust.Crypto.Primitives.{Primitives}
use incom_udon_native_rust.Transport.State.{
  SocketAddr, RelayConfig, new_config, RelayEvent, pcm_received, Env,
}
use incom_udon_native_rust.Transport.Session.{
  TransportError, Outside, RelaySession, Os, send_control, send_pcm_frame, try_next_event, connect,
  disconnect,
}
use incom_udon_native_rust.Desktop.Storage.{
  Files, ProfileStorageError, load_profile_store, save_profile_store,
}
use incom_udon_native_rust.Desktop.Audio.{
  DesktopAudio, try_next_capture_frame, discard_capture_frames, queue_playback_frame,
}
use incom_udon_native_rust.Desktop.Window.{
  AppWindow, Texts, apply_profile_to_window, apply_relay_to_window, profile_from_window,
  relay_from_window, set_save_status, set_connection_status, set_active_talker, apply_relay_event,
}
use incom_udon_native_rust.Desktop.Resolve.{resolve_relay}

-- What the application runs on: the file system, the socket's results, the cryptography, name
-- resolution, and the text of errors.
pub record Host : Type 1 where
  pub files : Files
  pub storage_text : ProfileStorageError files → Text
  pub transport_text : TransportError → Text
  pub texts : Texts
  pub env : Env
  pub primitives : Primitives
  pub to_socket_addrs : Text → ℕ → Outcome Text (List SocketAddr)

abbrev pub connect_first : Text
connect_first = codes "Connect to the relay first"

-- the result of a call, and the session behind it
abbrev pub Called : Type 0
Called = Outcome Text (Unit {0}) × Option RelaySession

module _ (host : Host) where
  -- The store, the session, the sound devices, the flag, the window, the files; and the sessions
  -- that were disconnected and dropped, the last one first.
  pub record App : Type 0 where
    pub store : ProfileStore
    pub session : Option RelaySession
    pub audio : Option DesktopAudio
    pub ptt_active : Bool
    pub window : AppWindow
    pub fs : host.files.Fs
    pub closed : List RelaySession

  abbrev pub show_connection : App → Text → App
  show_connection a status = record a { window = set_connection_status a.window status }

  abbrev pub show_save : App → Text → App
  show_save a status = record a { window = set_save_status a.window status }

  -- the window behind the first lines of `main`
  abbrev pub first_window : AppWindow → ProfileStore → Text → TransceiverProfile → AppWindow
  first_window w store load_status profile =
      (let shown = apply_relay_to_window (apply_profile_to_window w profile) store.relay in
        set_save_status
          (set_active_talker (set_connection_status shown (codes "Disconnected"))
            (codes "No active speaker"))
          load_status)

  abbrev pub start_with :
      host.files.Fs
      → Option DesktopAudio
      → AppWindow
      → ProfileStore
      → Text
      → Outcome ProfileError TransceiverProfile
      → Option App
  start_with fs audio w store load_status (ok profile) = some (record {
    store = store;
    session = none;
    audio = audio;
    ptt_active = false;
    window = first_window w store load_status profile;
    fs = fs;
    closed = [];
  })
  start_with fs audio w store load_status (err error) = none
  start_with fs audio w store load_status panic = none

  abbrev pub start_loaded :
      host.files.Fs → Option DesktopAudio → AppWindow → Option (ProfileStore × Text) → Option App
  start_loaded fs audio w none = none
  start_loaded fs audio w (some (store, load_status)) =
      start_with fs audio w store load_status (active store)

  -- `main` in front of the handlers; the sound devices that were opened are an argument
  unfoldable pub startup : host.files.Fs → Option DesktopAudio → AppWindow → Option App
  startup fs audio w = start_loaded fs audio w (load_profile_store host.files host.storage_text fs)
