-- ===== src/Desktop/Window/Fields.antt =====
-- apps/desktop/src/main.rs: what the window shows of a profile or of the relay, and what is read
-- back from it.
use incom_udon_native_rust.Base.{
  ℕ, ◌^◌, ◌≤◌, ◌<◌, Option, none, some, length, ok, map_err, map_err-eq-ok, >>=-eq-ok, ◌≡◌, refl,
  sym, ap, ◌∙◌, subst, arith,
}
use incom_udon_native_rust.Base.Text.{
  Text, codes, trim, trim-trim, is_empty, IsBlank, is_empty-trim_iff,
}
use incom_udon_native_rust.Base.Decimal.{parse_u32, parse_u32-to_string, parse_u32-lt}
use incom_udon_native_rust.Profiles.Store.{
  Codec, opus, codec2, pcm, aes_gcm_v2, TransceiverProfile, RelayEndpoint, validate_profile,
}
use incom_udon_native_rust.Profiles.Validity.{
  BitrateIsValid, ProfileIsValid, RelayIsValid, validate_profile_iff, validate_relay_endpoint_iff,
}
use incom_udon_native_rust.Desktop.Window.{
  pos, as_i32, u32_try_from, u16_try_from, AppWindow, Texts, codec_to_index, codec_from_index,
  unwrap_or_default, apply_profile_to_window, apply_relay_to_window, or_message, positive,
  selected_bitrate, entered_profile, entered_relay, profile_from_window, relay_from_window,
}

-- The ranges of the fields of a profile; the bitrate is one that fits Slint's `int`.
pub record FitsWindow (p : TransceiverProfile) : Type 0 where
  pub channel_id_u32 : p.channel_id < 2 ^ 32
  pub sender_id_u32 : p.sender_id < 2 ^ 32
  pub bitrate_i32 : unwrap_or_default p.bitrate_bps < 2 ^ 31

codec_from_index-codec_to_index : (c : Codec) → codec_from_index (codec_to_index c) ≡ ok c
unfolding codec_from_index codec_to_index
codec_from_index-codec_to_index opus = refl
codec_from_index-codec_to_index codec2 = refl
codec_from_index-codec_to_index pcm = refl

positive-as_i32 : (v : ℕ) → 0 < v → v < 2 ^ 31 → positive (u32_try_from (as_i32 v)) ≡ some v
positive-as_i32 v h k = ground (arith, h, k)

selected_bitrate-as_i32 :
    (c : Codec) (b : Option ℕ)
    → BitrateIsValid c b
    → unwrap_or_default b < 2 ^ 31
    → selected_bitrate c (as_i32 (unwrap_or_default b)) ≡ b
unfolding selected_bitrate
selected_bitrate-as_i32 pcm (some v) h k = absurd h
selected_bitrate-as_i32 pcm none h k = refl
selected_bitrate-as_i32 opus (some v) h k = positive-as_i32 v h k
selected_bitrate-as_i32 opus none h k = absurd h
selected_bitrate-as_i32 codec2 (some v) h k = positive-as_i32 v h k
selected_bitrate-as_i32 codec2 none h k = absurd h

IsBlank-trim : (s : Text) → IsBlank (trim s) → IsBlank s
IsBlank-trim s b =
    (is_empty-trim_iff s).0 (ap is_empty (sym (trim-trim s)) ∙ (is_empty-trim_iff (trim s)).1 b)

-- A profile as the window's save reads it back.
abbrev pub as_saved : TransceiverProfile → TransceiverProfile
as_saved p = record p { name = trim p.name; encryption = aes_gcm_v2 }

as_saved-IsValid : (p : TransceiverProfile) → ProfileIsValid p → ProfileIsValid (as_saved p)
as_saved-IsValid p v = record {
  named = λ b. v.named (IsBlank-trim p.name b);
  short = subst (λ t. length t ≤ 64) (sym (trim-trim p.name)) v.short;
  bitrate = v.bitrate;
}

module _ (texts : Texts) where
  -- A valid profile with fields in the range of their types, and with a bitrate below 2 ^ 31, is
  -- read back from a window that shows it, with the white space around its name trimmed, and with
  -- its encryption set to AES-GCM version 2, whatever it was.
  pub profile_from_window-apply_profile :
      (w : AppWindow) (p : TransceiverProfile)
      → ProfileIsValid p
      → FitsWindow p
      → profile_from_window texts (apply_profile_to_window w p) ≡ ok (as_saved p)
  unfolding profile_from_window apply_profile_to_window entered_profile
  profile_from_window-apply_profile w p v fits =
      rw
        (
          parse_u32-to_string p.channel_id fits.channel_id_u32,
          parse_u32-to_string p.sender_id fits.sender_id_u32,
          codec_from_index-codec_to_index p.codec,
          selected_bitrate-as_i32 p.codec p.bitrate_bps v.bitrate fits.bitrate_i32,
          (validate_profile_iff (as_saved p)).1 (as_saved-IsValid p v),
        )
        refl

  pub relay_from_window-apply_relay :
      (w : AppWindow) (r : RelayEndpoint)
      → RelayIsValid r
      → r.port < 2 ^ 16
      → relay_from_window texts (apply_relay_to_window w r) ≡ ok (record r { host = trim r.host })
  unfolding relay_from_window apply_relay_to_window entered_relay
  relay_from_window-apply_relay w r v fits =
      let small : u16_try_from (pos r.port) ≡ some r.port = ground (arith, fits) in
      rw
        (
          small,
          (validate_relay_endpoint_iff (record r { host = trim r.host })).1
              (record { named = λ b. v.named (IsBlank-trim r.host b); port = v.port }),
        )
        refl

  -- What the window's text may give.
  pub record Entered (w : AppWindow) (p : TransceiverProfile) : Type 0 where
    pub valid : ProfileIsValid p
    pub channel_id_u32 : p.channel_id < 2 ^ 32
    pub sender_id_u32 : p.sender_id < 2 ^ 32
    pub trimmed : p.name ≡ trim w.profile_name
    pub secured : p.encryption ≡ aes_gcm_v2

  or_message-ok : (message : Text) (o : Option ℕ) {n : ℕ} → or_message message o ≡ ok n → o ≡ some n
  or_message-ok message (some m) e = cc
  or_message-ok message none e = cc

  -- Whatever is typed into the window, a profile that is read from it is valid, its ids are in the
  -- range of their type, its name is the window's without the white space around it, and its
  -- encryption is AES-GCM version 2.
  pub profile_from_window-Entered :
      (w : AppWindow) (p : TransceiverProfile) → profile_from_window texts w ≡ ok p → Entered w p
  unfolding profile_from_window entered_profile
  profile_from_window-Entered w p e =
      let (channel, e1, rest1) =
        >>=-eq-ok
          (or_message (codes "channel ID must be an unsigned integer") (parse_u32 w.channel_id)) _
          e in
      let (sender, e2, rest2) =
        >>=-eq-ok
          (or_message (codes "sender ID must be an unsigned integer") (parse_u32 w.sender_id)) _
          rest1 in
      let (codec, e3, rest3) = >>=-eq-ok (codec_from_index w.codec_index) _ rest2 in
      let (checked, e4, rest4) =
        >>=-eq-ok
          (map_err texts.profile_error (validate_profile (entered_profile w channel sender codec)))
          _ rest3 in
      let same : entered_profile w channel sender codec ≡ p = cc in
      subst (Entered w) same (record {
        valid =
            (validate_profile_iff (entered_profile w channel sender codec)).0
              (map_err-eq-ok texts.profile_error _ e4);
        channel_id_u32 = parse_u32-lt w.channel_id (or_message-ok _ (parse_u32 w.channel_id) e1);
        sender_id_u32 = parse_u32-lt w.sender_id (or_message-ok _ (parse_u32 w.sender_id) e2);
        trimmed = refl;
        secured = refl;
      })
