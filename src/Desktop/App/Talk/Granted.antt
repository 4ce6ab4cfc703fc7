-- ===== src/Desktop/App/Talk/Granted.antt =====
-- apps/desktop/src/main.rs: what pressing the talk button needs, and what it queues.
use incom_udon_native_rust.Base.{
  ℕ, List, [], ◌∷◌, ◌++◌, Option, none, some, true, false, ◌||◌, leb, if◌then◌else◌, length,
  Outcome, ok, err, panic, map_err, map_err-eq-ok, ◌≡◌, refl, sym, ap, ◌∙◌, subst, inl, inr,
  Bool-cases, arith, append_assoc,
}
use incom_udon_native_rust.Base.Text.{Text}
use incom_udon_native_rust.Protocol.Types.{PacketType, ptt_on, codec_config}
use incom_udon_native_rust.Profiles.Store.{
  Codec, opus, codec2, pcm, TransceiverProfile, ProfileError, active,
}
use incom_udon_native_rust.Transport.State.{RelayCommand, default_command_capacity}
use incom_udon_native_rust.Transport.State
use incom_udon_native_rust.Transport.Session.{
  TransportError, RelaySession, is_ended, try_send, send_control,
}
use incom_udon_native_rust.Desktop.Audio.{DesktopAudio, discard_from, discard_capture_frames}
use incom_udon_native_rust.Desktop.App.{Host, App, Called}
use incom_udon_native_rust.Desktop.App.Talk.{
  send_pcm_codec_config, send_ptt_control, then_ptt_on, requested, press_with, press_codec,
  press_active, ptt_pressed,
}

-- The command is in the channel, behind what waited there, and nothing else has changed.
abbrev pub Queued : RelayCommand → RelaySession → RelaySession → Type 0
Queued command s s' = s' ≡ record s { commands = s.commands ++ command ∷ [] }

-- PCM without a bitrate mode, and the request to talk.
abbrev pub config_command : RelayCommand
config_command = State.send_control codec_config (1 ∷ 0 ∷ 0 ∷ 0 ∷ [])

abbrev pub talk_command : RelayCommand
talk_command = State.send_control ptt_on []

send_control-Queued :
    (s : RelaySession) (packet_type : PacketType) (payload : List ℕ)
    → (send_control s packet_type payload).0 ≡ ok tt
    → Queued (State.send_control packet_type payload) s (send_control s packet_type payload).1
unfolding send_control try_send
send_control-Queued s packet_type payload e =
    elim (Bool-cases (is_ended s.pc || leb default_command_capacity (length s.commands))) [
      | inl refused ↦ absurd (ground (arith, refused, e))
      | inr taken ↦ rw taken refl
    ]

discard_from-nil : (frames : List (List ℕ)) → discard_from frames ≡ []
unfolding discard_from
discard_from-nil [] = refl
discard_from-nil (frame ∷ frames) = discard_from-nil frames

module _ (host : Host) where
  -- Both commands are in the channel, behind what waited.
  pub record Asked (before : Option RelaySession) (after : Option RelaySession) : Type 0 where
    pub session : RelaySession
    pub was : before ≡ some session
    pub is :
        after
        ≡ some
            (record session { commands = session.commands ++ config_command ∷ talk_command ∷ [] })

  module _ (s : RelaySession) where
    abbrev configured : Outcome TransportError (Unit {0}) × RelaySession
    configured = send_control s codec_config (1 ∷ 0 ∷ 0 ∷ 0 ∷ [])

    asked_by :
        (o : Outcome TransportError (Unit {0})) (f : TransportError → Text)
        → configured.0 ≡ o
        → (then_ptt_on host (map_err f o, some configured.1)).0 ≡ ok tt
        → Asked (some s) (then_ptt_on host (map_err f o, some configured.1)).1
    unfolding then_ptt_on send_ptt_control
    asked_by (ok done) f e h =
        let first = send_control-Queued s codec_config (1 ∷ 0 ∷ 0 ∷ 0 ∷ []) e in
        let second =
          send_control-Queued configured.1 ptt_on []
            (map_err-eq-ok _ (send_control configured.1 ptt_on []).0 h) in
        record {
          session = s;
          was = refl;
          is = ap some (
              second
              ∙ ap (λ (x : RelaySession). record x { commands = x.commands ++ talk_command ∷ [] })
                  first
              ∙ ap (λ l. record s { commands = l })
                  (append_assoc s.commands (config_command ∷ []) (talk_command ∷ [])));
        }
    asked_by (err error) f e h = cc
    asked_by panic f e h = cc

  asked :
      (session : Option RelaySession)
      → (then_ptt_on host (send_pcm_codec_config host session)).0 ≡ ok tt
      → Asked session (then_ptt_on host (send_pcm_codec_config host session)).1
  unfolding then_ptt_on send_pcm_codec_config
  asked none e = cc
  asked (some s) e = asked_by s (configured s).0 _ refl e

  some-path : {B : Type 0} (f : App host → B) {a a' : App host} → some a ≡ some a' → f a ≡ f a'
  some-path f {a} e = ap (λ (o : Option (App host)). elim o [ none ↦ f a | some x ↦ f x ]) e

  stays :
      (a a' : App host)
      → a.ptt_active ≡ a'.ptt_active
      → a.ptt_active ≡ false
      → a'.ptt_active ≡ true
      → ⊥
  stays a a' same before after = cc

  -- What a press that starts to talk has found and done.
  pub record Granted (a a' : App host) : Type 0 where
    pub may_talk : a.window.receive_only ≡ false
    pub profile : TransceiverProfile
    pub is_active : active a.store ≡ ok profile
    pub is_pcm : profile.codec ≡ pcm
    pub audio : DesktopAudio
    pub has_audio : a.audio ≡ some audio
    pub no_old_frames : a'.audio ≡ some (record audio { capture_frames = [] })
    pub queued : Asked a.session a'.session

  requested-ok :
      (a a' : App host) (r : Called)
      → requested host a r ≡ some a'
      → a.ptt_active ≡ false
      → a'.ptt_active ≡ true
      → (r.0 ≡ ok tt) × (r.1 ≡ a'.session) × (a.audio ≡ a'.audio)
  unfolding requested
  requested-ok a a' (ok done, session) e before after =
      (refl, some-path (λ (x : App host). x.session) e, some-path (λ (x : App host). x.audio) e)
  requested-ok a a' (err error, session) e before after =
      let now : a.ptt_active ≡ a'.ptt_active = some-path (λ (x : App host). x.ptt_active) e in
      absurd (stays a a' now before after)
  requested-ok a a' (panic, session) e before after = cc

  pressed_audio :
      (a a' : App host) (o : Option DesktopAudio)
      → press_with host a o ≡ some a'
      → a.ptt_active ≡ false
      → a'.ptt_active ≡ true
      → (audio : DesktopAudio) × (o ≡ some audio)
        × (a'.audio ≡ some (record audio { capture_frames = [] }))
        × Asked a.session a'.session
  unfolding press_with discard_capture_frames
  pressed_audio a a' none e before after =
      absurd (stays a a' (some-path (λ (x : App host). x.ptt_active) e) before after)
  pressed_audio a a' (some audio) e before after =
      let call = then_ptt_on host (send_pcm_codec_config host a.session) in
      let (sent, same, kept) =
        requested-ok (record a { audio = some (discard_capture_frames audio) }) a' call e before
          after in
      (
        audio,
        refl,
        sym kept
            ∙ ap (λ l. some (record audio { capture_frames = l }))
                (discard_from-nil audio.capture_frames),
        subst (Asked a.session) same (asked a.session sent),
      )

  pressed_codec :
      (a a' : App host) (c : Codec)
      → press_codec host a c ≡ some a'
      → a.ptt_active ≡ false
      → a'.ptt_active ≡ true
      → (c ≡ pcm) × (press_with host a a.audio ≡ some a')
  unfolding press_codec
  pressed_codec a a' pcm e before after = (refl, e)
  pressed_codec a a' opus e before after =
      absurd (stays a a' (some-path (λ (x : App host). x.ptt_active) e) before after)
  pressed_codec a a' codec2 e before after =
      absurd (stays a a' (some-path (λ (x : App host). x.ptt_active) e) before after)

  pressed_active :
      (a a' : App host) (o : Outcome ProfileError TransceiverProfile)
      → active a.store ≡ o
      → a.window.receive_only ≡ false
      → press_active host a o ≡ some a'
      → a.ptt_active ≡ false
      → a'.ptt_active ≡ true
      → Granted a a'
  pressed_active a a' (ok p) found talks e before after =
      let (is_pcm, path) = pressed_codec a a' p.codec e before after in
      let (audio, has, old, ask) = pressed_audio a a' a.audio path before after in
      record {
        may_talk = talks;
        profile = p;
        is_active = found;
        is_pcm = is_pcm;
        audio = audio;
        has_audio = has;
        no_old_frames = old;
        queued = ask;
      }
  pressed_active a a' (err error) found talks e before after = cc
  pressed_active a a' panic found talks e before after = cc

  -- If pressing the talk button makes the application talk, it is not receive-only, the active
  -- profile's codec is PCM, there are sound devices, and there is a session; the frames that the
  -- microphone had left are gone, and the channel to the session's thread has the PCM configuration
  -- and the request to talk, in this order, behind what waited there, with nothing else changed.
  pub ptt_pressed-Granted :
      (a a' : App host)
      → ptt_pressed host a ≡ some a'
      → a.ptt_active ≡ false
      → a'.ptt_active ≡ true
      → Granted a a'
  unfolding ptt_pressed
  ptt_pressed-Granted a a' e before after = elim (Bool-cases a.window.receive_only) [
    | inl only ↦
        let same : some a ≡ some a' =
          sym (ap (λ b. if b then some a else press_active host a (active a.store)) only) ∙ e in
        absurd (no_talk same)
    | inr talks ↦
        pressed_active a a' (active a.store) refl talks
          (sym (ap (λ b. if b then some a else press_active host a (active a.store)) talks) ∙ e)
          before after
  ]
    where
      no_talk : some a ≡ some a' → ⊥
      no_talk same = cc
