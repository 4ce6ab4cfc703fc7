-- ===== src/Desktop/AppTests.antt =====
-- apps/desktop/src/main.rs: the handlers at concrete inputs.
use incom_udon_native_rust.Base.{◌≡◌, refl, ap, ◌∙◌, arith, [], ◌∷◌, some, none, true, false, ok}
use incom_udon_native_rust.Base.Text.{codes, trim, is_whitespace}
use incom_udon_native_rust.Profiles.Store.{
  validate_profile, validate_bitrate, pcm, aes_gcm_v2, default_profile, default_store, active,
  replace_active, assign_active,
}
use incom_udon_native_rust.Profiles.Validity.{validate_profile_iff}
use incom_udon_native_rust.Crypto.Samples.{samples}
use incom_udon_native_rust.Transport.State.{connected, stopped}
use incom_udon_native_rust.Transport.Worker.{quiet}
use incom_udon_native_rust.Transport.Session.{
  polling, RelaySession, send_control, try_send, Outside,
}
use incom_udon_native_rust.Desktop.Storage.Laws.{default_store-validates}
use incom_udon_native_rust.Desktop.Audio.{DesktopAudio, discard_capture_frames, discard_from}
use incom_udon_native_rust.Desktop.Window.{
  apply_profile_to_window, profile_from_window, set_save_status,
}
use incom_udon_native_rust.Desktop.Window.Fields.{as_saved, profile_from_window-apply_profile}
use incom_udon_native_rust.Desktop.App.{Host, App, startup}
use incom_udon_native_rust.Desktop.App.Talk.{
  ptt_pressed, press_codec, press_with, requested, then_ptt_on, send_pcm_codec_config,
  send_ptt_control,
}
use incom_udon_native_rust.Desktop.App.Talk.Granted.{
  Granted, config_command, talk_command, ptt_pressed-Granted,
}
use incom_udon_native_rust.Desktop.App.Save.{
  save_profile, save_entered_profile, after_update, after_save,
}
use incom_udon_native_rust.Desktop.App.Save.Durable.{IsDurable, save_profile-IsDurable}
use incom_udon_native_rust.Transport.State.{send_pcm}
use incom_udon_native_rust.Desktop.App.Tick.{with_sent}
use incom_udon_native_rust.Desktop.App.Tick.Frames.{with_sent_lem}
use incom_udon_native_rust.Desktop.App.Calls.{presses, releases, saves_profile, ticks, run_inputs}
use incom_udon_native_rust.Desktop.App.Calls.Total.{run_inputs-total}
use incom_udon_native_rust.Desktop.Tests.{
  one_file, one_file-Returns, one_file-IsFaithful, no_text, saves,
}
use incom_udon_native_rust.Desktop.WindowTests.{
  quiet_texts, lookup_two, first_address, empty_window,
}

abbrev host : Host
host = record {
  files = one_file;
  storage_text = no_text;
  transport_text = λ e. [];
  texts = quiet_texts;
  env = record { send_result = λ n. none; error_text = λ e. [] };
  primitives = samples;
  to_socket_addrs = lookup_two;
}

abbrev devices : DesktopAudio
devices = record {
  capture_frames = (1 ∷ []) ∷ [];
  playback = record { samples = []; capacity_samples = 1_920; dropped_samples = 0 };
}

-- a step of the thread while nothing arrives
abbrev works_later : Outside
works_later = record { checked_at = 5; reset_at = 6; arrival = quiet }

run_inputs-total_example :
    (a : App host) × (run_inputs host
        (startup host none (some devices) empty_window)
        (presses ∷ saves_profile ∷ ticks ((works_later ∷ []) ∷ []) [] ∷ releases ∷ [])
      ≡ some a)
run_inputs-total_example =
    run_inputs-total host (λ name port e. cc) one_file-Returns none (some devices) empty_window
      (presses ∷ saves_profile ∷ ticks ((works_later ∷ []) ∷ []) [] ∷ releases ∷ [])

-- A session that waits for commands, with two events.
abbrev linked : RelaySession
linked = record {
  config = record {
    relay_addr = first_address;
    channel_id = 0;
    sender_id = 0;
    encryption = aes_gcm_v2;
    password = [];
    keepalive_interval = 10_000;
  };
  commands = [];
  worker = true;
  pc = polling;
  state = record {
    sequence = 1;
    media = record { key = none; audio_sequence = 0; nonce = 0 };
    last_keepalive = 0;
    running = true;
    events = connected first_address ∷ stopped ∷ [];
    wire = [];
  };
}

-- The application with a profile for PCM.
abbrev ready : App host
ready = record {
  store = record default_store {
    profiles = record default_profile { codec = pcm; bitrate_bps = none } ∷ [];
  };
  session = some linked;
  audio = some devices;
  ptt_active = false;
  window = empty_window;
  fs = none;
  closed = [];
}

abbrev talking : App host
talking = record ready {
  session = some (record linked { commands = config_command ∷ talk_command ∷ [] });
  audio = some (record devices { capture_frames = [] });
  ptt_active = true;
  window = record empty_window { connection_status = codes "Requesting talk" };
}

presses_ready : ptt_pressed host ready ≡ some talking
unfolding ptt_pressed active press_codec press_with requested then_ptt_on send_pcm_codec_config
    send_ptt_control send_control try_send discard_capture_frames discard_from
presses_ready = refl

ptt_pressed-Granted_example : Granted host ready talking
ptt_pressed-Granted_example = ptt_pressed-Granted host ready talking presses_ready refl refl

-- The window shows the profile of the default store.
abbrev shown : App host
shown = record ready {
  store = default_store;
  window = apply_profile_to_window empty_window default_profile;
}

abbrev kept : App host
kept = record shown {
  window = record shown.window { profile_save_status = codes "Profile saved" };
  fs = some (codes "{}");
}

default_profile-validates : validate_profile default_profile ≡ ok tt
unfolding validate_profile validate_bitrate trim is_whitespace
default_profile-validates = refl

as_saved-default : as_saved default_profile ≡ default_profile
unfolding trim is_whitespace
as_saved-default = refl

enters_default :
    profile_from_window quiet_texts (apply_profile_to_window empty_window default_profile)
    ≡ ok default_profile
enters_default =
    profile_from_window-apply_profile quiet_texts empty_window default_profile
      ((validate_profile_iff default_profile).0 default_profile-validates)
      (record {
        channel_id_u32 = omega arith;
        sender_id_u32 = omega arith;
        bitrate_i32 = omega arith;
      })
    ∙ ap ok as_saved-default

replaces_default : replace_active default_store default_profile ≡ (ok tt, default_store)
unfolding replace_active assign_active validate_profile trim is_whitespace validate_bitrate
replaces_default = rw (default_profile-validates, default_store-validates)

saves_shown : save_profile host shown ≡ some kept
unfolding save_profile save_entered_profile after_update after_save set_save_status
saves_shown = rw (enters_default, replaces_default, saves)

save_profile-IsDurable_example : IsDurable host kept
save_profile-IsDurable_example =
    save_profile-IsDurable host one_file-IsFaithful shown kept saves_shown refl

-- While the application talks, a frame was captured.
abbrev hearing : App host
hearing = record talking { audio = some devices }

with_sent_lem_example : with_sent host hearing ≡ record hearing {
  audio = some (record devices { capture_frames = [] });
  session =
      some (record linked { commands = config_command ∷ talk_command ∷ send_pcm (1 ∷ []) ∷ [] });
}
with_sent_lem_example =
    with_sent_lem host hearing devices
      (record linked { commands = config_command ∷ talk_command ∷ [] }) refl refl refl refl
      (omega arith)
