-- ===== src/Desktop/Window/Panics.antt =====
-- apps/desktop/src/main.rs: reading the window gives a result or an error.
use incom_udon_native_rust.Base.{
  ℕ, zero, suc, Option, none, some, panic, map_err, bind-ne-panic, map_err-ne-panic, ◌≢◌,
}
use incom_udon_native_rust.Base.Text.{Text}
use incom_udon_native_rust.Base.Decimal.{parse_u32}
use incom_udon_native_rust.Profiles.Store.{validate_profile, validate_relay_endpoint}
use incom_udon_native_rust.Profiles.Updates.{
  validate_profile-ne-panic, validate_relay_endpoint-ne-panic,
}
use incom_udon_native_rust.Desktop.Window.{
  Texts, ℤ, pos, negsuc, AppWindow, codec_from_index, u16_try_from, or_message, entered_profile,
  entered_relay, profile_from_window, relay_from_window,
}

or_message-ne-panic : (message : Text) (o : Option ℕ) → or_message message o ≢ panic
or_message-ne-panic message (some n) = λ x. cc
or_message-ne-panic message none = λ x. cc

codec_from_index-ne-panic : (index : ℤ) → codec_from_index index ≢ panic
unfolding codec_from_index
codec_from_index-ne-panic (pos zero) = λ x. cc
codec_from_index-ne-panic (pos (suc zero)) = λ x. cc
codec_from_index-ne-panic (pos (suc (suc zero))) = λ x. cc
codec_from_index-ne-panic (pos (suc (suc (suc n)))) = λ x. cc
codec_from_index-ne-panic (negsuc n) = λ x. cc

module _ (texts : Texts) where
  pub profile_from_window-ne-panic : (w : AppWindow) → profile_from_window texts w ≢ panic
  unfolding profile_from_window
  profile_from_window-ne-panic w =
      bind-ne-panic (or_message _ (parse_u32 w.channel_id)) _
        (or_message-ne-panic _ (parse_u32 w.channel_id))
        (λ channel.
          bind-ne-panic (or_message _ (parse_u32 w.sender_id)) _
            (or_message-ne-panic _ (parse_u32 w.sender_id))
            (λ sender.
              bind-ne-panic (codec_from_index w.codec_index) _
                (codec_from_index-ne-panic w.codec_index)
                (λ codec.
                  bind-ne-panic
                    (map_err texts.profile_error
                      (validate_profile (entered_profile w channel sender codec)))
                    _
                    (map_err-ne-panic _ (validate_profile (entered_profile w channel sender codec))
                      (validate_profile-ne-panic (entered_profile w channel sender codec)))
                    (λ valid x. cc))))

  pub relay_from_window-ne-panic : (w : AppWindow) → relay_from_window texts w ≢ panic
  unfolding relay_from_window
  relay_from_window-ne-panic w =
      bind-ne-panic (or_message _ (u16_try_from w.relay_port)) _
        (or_message-ne-panic _ (u16_try_from w.relay_port))
        (λ port.
          bind-ne-panic
            (map_err texts.profile_error (validate_relay_endpoint (entered_relay w port))) _
            (map_err-ne-panic _ (validate_relay_endpoint (entered_relay w port))
              (validate_relay_endpoint-ne-panic (entered_relay w port)))
            (λ valid x. cc))
