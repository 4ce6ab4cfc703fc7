-- ===== src/Desktop/WindowTests.antt =====
-- apps/desktop/src/main.rs: the window's fields and the relay's address at concrete inputs.
use incom_udon_native_rust.Base.{ℕ, ◌≡◌, refl, arith, List, [], ◌∷◌, true, false, Outcome, ok}
use incom_udon_native_rust.Base.Text.{Text, codes, trim, is_whitespace}
use incom_udon_native_rust.Profiles.Store.{
  validate_profile, validate_bitrate, aes_gcm_v1, TransceiverProfile, default_profile,
  default_relay,
}
use incom_udon_native_rust.Profiles.Validity.{ProfileIsValid, validate_profile_iff}
use incom_udon_native_rust.Transport.State.{SocketAddr}
use incom_udon_native_rust.Desktop.Window.{
  pos, AppWindow, Texts, apply_profile_to_window, profile_from_window,
}
use incom_udon_native_rust.Desktop.Window.Fields.{
  as_saved, Entered, profile_from_window-apply_profile, profile_from_window-Entered,
}
use incom_udon_native_rust.Desktop.Resolve.{resolve_relay}
use incom_udon_native_rust.Desktop.Resolve.Choice.{
  preferred, or_unresolved, resolve_relay-preferred,
}

abbrev pub quiet_texts : Texts
quiet_texts = record { profile_error = λ e. []; protocol_error = λ e. []; socket_addr = λ a. [] }

abbrev pub first_address : SocketAddr
first_address = record { is_ipv6 = false; ip = 1; port = 50_000 }

abbrev second_address : SocketAddr
second_address = record { is_ipv6 = true; ip = 2; port = 50_000 }

abbrev pub lookup_two : Text → ℕ → Outcome Text (List SocketAddr)
lookup_two name port = ok (first_address ∷ second_address ∷ [])

resolve_relay-preferred_example :
    resolve_relay lookup_two default_relay
    ≡ or_unresolved (preferred default_relay (first_address ∷ second_address ∷ []))
resolve_relay-preferred_example =
    resolve_relay-preferred lookup_two default_relay (first_address ∷ second_address ∷ []) refl

-- An IPv6 address is preferred.
resolves_second : resolve_relay lookup_two default_relay ≡ ok second_address
resolves_second = resolve_relay-preferred_example

abbrev pub empty_window : AppWindow
empty_window = record {
  profile_name = [];
  channel_id = [];
  sender_id = [];
  receive_only = false;
  mute_self_id = false;
  codec_index = pos 0;
  bitrate_bps = pos 0;
  relay_host = [];
  relay_port = pos 0;
  force_ipv4 = false;
  connection_status = [];
  active_talker = [];
  profile_save_status = [];
}

abbrev spoken : TransceiverProfile
spoken = record default_profile {
  name = codes " Base ";
  channel_id = 1_234;
  sender_id = 4_294_967_295;
  encryption = aes_gcm_v1;
}

spoken-validates : validate_profile spoken ≡ ok tt
unfolding validate_profile validate_bitrate trim is_whitespace
spoken-validates = refl

spoken-IsValid : ProfileIsValid spoken
spoken-IsValid = (validate_profile_iff spoken).0 spoken-validates

profile_from_window-apply_profile_example :
    profile_from_window quiet_texts (apply_profile_to_window empty_window spoken)
    ≡ ok (as_saved spoken)
profile_from_window-apply_profile_example =
    profile_from_window-apply_profile quiet_texts empty_window spoken spoken-IsValid (record {
      channel_id_u32 = omega arith;
      sender_id_u32 = omega arith;
      bitrate_i32 = omega arith;
    })

profile_from_window-Entered_example :
    Entered quiet_texts (apply_profile_to_window empty_window spoken) (as_saved spoken)
profile_from_window-Entered_example =
    profile_from_window-Entered quiet_texts (apply_profile_to_window empty_window spoken)
      (as_saved spoken) profile_from_window-apply_profile_example
