-- ===== src/Desktop/App/Calls/Stages.antt =====
-- apps/desktop/src/main.rs: the stages of the handlers do not panic.
use incom_udon_native_rust.Base.{
  map_err-ne-panic, [], ℕ, List, Option, none, some, Bool, true, false, not, ◌||◌, ◌==◌,
  if◌then◌else◌, Outcome, ok, err, panic, ◌≡◌, ◌≢◌, refl, sym, subst, inl, inr, Bool-cases,
}
use incom_udon_native_rust.Base.Text.{Text}
use incom_udon_native_rust.Protocol.Types.{PacketType, ptt_on, codec_config}
use incom_udon_native_rust.Profiles.Store.{
  Codec, opus, codec2, pcm, TransceiverProfile, RelayEndpoint, ProfileStore, ProfileError, Checked,
  active,
}
use incom_udon_native_rust.Profiles.Steady.{
  IsSelected, IsSteady, active-found, replace_active-IsSteady, replace_relay-IsSteady,
}
use incom_udon_native_rust.Transport.State.{SocketAddr, RelayEvent}
use incom_udon_native_rust.Transport.State
use incom_udon_native_rust.Transport.Session.{TransportError, Outside, RelaySession, send_control}
use incom_udon_native_rust.Transport.Session.Panics.{send_control-ne-panic, connect-ne-panic}
use incom_udon_native_rust.Desktop.Storage.{Returns, save_profile_store}
use incom_udon_native_rust.Desktop.Storage.Panics.{save_profile_store-ne-panic}
use incom_udon_native_rust.Desktop.Audio.{DesktopAudio, discard_capture_frames}
use incom_udon_native_rust.Desktop.App.{Host, App, Called, connect_first}
use incom_udon_native_rust.Desktop.App.Save.{
  Saved, after_save, after_update, save_entered_profile, save_entered_relay,
}
use incom_udon_native_rust.Desktop.App.Link.{
  Connecting, connected_app, connect_profile, connect_resolved, close_session,
}
use incom_udon_native_rust.Desktop.App.Tick.{play_frame, going_on, apply_event, end_tick}
use incom_udon_native_rust.Desktop.App.Talk.{
  same_text, requested, press_with, press_codec, press_active, ptt_pressed, released, then_ptt_on,
  send_pcm_codec_config, send_ptt_control,
}

module _ (host : Host) where
  -- No panic, and a store in which a profile is selected.
  abbrev pub IsFine : Option (App host) → Type 0
  IsFine none = ⊥
  IsFine (some a) = IsSelected a.store

  pub if-IsFine :
      (b : Bool) (x y : Option (App host)) → IsFine x → IsFine y → IsFine (if b then x else y)
  if-IsFine true x y h k = h
  if-IsFine false x y h k = k

  -- The outcome is a value.
  abbrev pub IsFound : {E A : Type 0} → Outcome E A → Type 0
  IsFound {A = A} o = (a : A) × (o ≡ ok a)

  send_pcm_codec_config-ne-panic :
      (s : Option RelaySession) → (send_pcm_codec_config host s).0 ≢ panic
  unfolding send_pcm_codec_config
  send_pcm_codec_config-ne-panic none = λ x. cc
  send_pcm_codec_config-ne-panic (some session) =
      map_err-ne-panic _ (send_control session codec_config _).0
        (send_control-ne-panic session codec_config _)

  pub send_ptt_control-ne-panic :
      (s : Option RelaySession) (t : PacketType) → (send_ptt_control host s t).0 ≢ panic
  unfolding send_ptt_control
  send_ptt_control-ne-panic none t = λ x. cc
  send_ptt_control-ne-panic (some session) t =
      map_err-ne-panic _ (send_control session t []).0 (send_control-ne-panic session t [])

  then_ptt_on-ne-panic : (r : Called) → r.0 ≢ panic → (then_ptt_on host r).0 ≢ panic
  unfolding then_ptt_on
  then_ptt_on-ne-panic (ok sent, session) h = send_ptt_control-ne-panic session ptt_on
  then_ptt_on-ne-panic (err error, session) h = λ x. cc
  then_ptt_on-ne-panic (panic, session) h = h

  requested-IsFine :
      (a : App host) (r : Called) → r.0 ≢ panic → IsSelected a.store → IsFine (requested host a r)
  unfolding requested
  requested-IsFine a (ok done, session) k h = h
  requested-IsFine a (err error, session) k h = h
  requested-IsFine a (panic, session) k h = absurd (k refl)

  press_with-IsFine :
      (a : App host) (audio : Option DesktopAudio)
      → IsSelected a.store
      → IsFine (press_with host a audio)
  unfolding press_with
  press_with-IsFine a none h = h
  press_with-IsFine a (some audio) h =
      requested-IsFine (record a { audio = some (discard_capture_frames audio) })
        (then_ptt_on host (send_pcm_codec_config host a.session))
        (then_ptt_on-ne-panic (send_pcm_codec_config host a.session)
          (send_pcm_codec_config-ne-panic a.session))
        h

  press_codec-IsFine :
      (a : App host) (c : Codec) → IsSelected a.store → IsFine (press_codec host a c)
  unfolding press_codec
  press_codec-IsFine a pcm h = press_with-IsFine a a.audio h
  press_codec-IsFine a opus h = h
  press_codec-IsFine a codec2 h = h

  pub press_active-IsFine :
      (a : App host) (o : Outcome ProfileError TransceiverProfile)
      → IsFound o
      → IsSelected a.store
      → IsFine (press_active host a o)
  press_active-IsFine a (ok p) f h = press_codec-IsFine a p.codec h
  press_active-IsFine a (err e) f h = cc
  press_active-IsFine a panic f h = cc

  pub active-IsFound : (a : App host) → IsSelected a.store → IsFound (active a.store)
  active-IsFound a h = active-found a.store h

  pub ptt_pressed-IsFine : (a : App host) → IsSelected a.store → IsFine (ptt_pressed host a)
  unfolding ptt_pressed
  ptt_pressed-IsFine a h =
      if-IsFine a.window.receive_only _ _ h
        (press_active-IsFine a (active a.store) (active-IsFound a h) h)

  pub released-IsFine :
      (a : App host) (r : Called) → r.0 ≢ panic → IsSelected a.store → IsFine (released host a r)
  unfolding released
  released-IsFine a (ok done, session) k h = h
  released-IsFine a (err error, session) k h = if-IsFine (same_text error connect_first) _ _ h h
  released-IsFine a (panic, session) k h = absurd (k refl)

  pub after_save-IsFine :
      (a : App host) (done : Text) (r : Saved host)
      → r.0 ≢ panic
      → IsSelected a.store
      → IsFine (after_save host a done r)
  unfolding after_save
  after_save-IsFine a done (ok written, fs) k h = h
  after_save-IsFine a done (err error, fs) k h = h
  after_save-IsFine a done (panic, fs) k h = absurd (k refl)

  module _ (returns : Returns host.files) where
    pub after_update-IsFine :
        (a : App host) (done : Text) (r : Checked × ProfileStore)
        → IsSteady r
        → IsFine (after_update host a done r)
    unfolding after_update
    after_update-IsFine a done (ok updated, store) h =
        after_save-IsFine (record a { store = store }) done
          (save_profile_store host.files a.fs store)
          (save_profile_store-ne-panic host.files returns a.fs store) h.1
    after_update-IsFine a done (err error, store) h = h.1
    after_update-IsFine a done (panic, store) h = absurd (h.0 refl)

    pub save_entered_profile-IsFine :
        (a : App host) (o : Outcome Text TransceiverProfile)
        → o ≢ panic
        → IsSelected a.store
        → IsFine (save_entered_profile host a o)
    unfolding save_entered_profile
    save_entered_profile-IsFine a (ok p) k h =
        after_update-IsFine a _ _ (replace_active-IsSteady a.store p h)
    save_entered_profile-IsFine a (err e) k h = h
    save_entered_profile-IsFine a panic k h = absurd (k refl)

    pub save_entered_relay-IsFine :
        (a : App host) (o : Outcome Text RelayEndpoint)
        → o ≢ panic
        → IsSelected a.store
        → IsFine (save_entered_relay host a o)
    unfolding save_entered_relay
    save_entered_relay-IsFine a (ok r) k h =
        after_update-IsFine a _ _ (replace_relay-IsSteady a.store r h)
    save_entered_relay-IsFine a (err e) k h = h
    save_entered_relay-IsFine a panic k h = absurd (k refl)

  pub connected_app-IsFine :
      (a : App host) (o : Outcome TransportError RelaySession)
      → o ≢ panic
      → IsSelected a.store
      → IsFine (connected_app host a o)
  unfolding connected_app
  connected_app-IsFine a (ok session) k h = h
  connected_app-IsFine a (err error) k h = h
  connected_app-IsFine a panic k h = absurd (k refl)

  pub connect_profile-IsFine :
      (a : App host) (k : Connecting host) (address : SocketAddr)
      (o : Outcome ProfileError TransceiverProfile)
      → IsFound o
      → IsSelected a.store
      → IsFine (connect_profile host a k address o)
  unfolding connect_profile
  connect_profile-IsFine a k address (ok p) f h =
      connected_app-IsFine a _ (connect-ne-panic host.env host.primitives k.os _ k.nonce k.now) h
  connect_profile-IsFine a k address (err e) f h = cc
  connect_profile-IsFine a k address panic f h = cc

  pub connect_resolved-IsFine :
      (a : App host) (k : Connecting host) (o : Outcome Text SocketAddr)
      → o ≢ panic
      → IsSelected a.store
      → IsFine (connect_resolved host a k o)
  unfolding connect_resolved
  connect_resolved-IsFine a k (ok address) n h =
      connect_profile-IsFine a k address (active a.store) (active-IsFound a h) h
  connect_resolved-IsFine a k (err e) n h = h
  connect_resolved-IsFine a k panic n h = absurd (n refl)

  pub close_session-store :
      (a : App host) (s : Option RelaySession) (os : List Outside)
      → (close_session host a s os).store ≡ a.store
  unfolding close_session
  close_session-store a none os = refl
  close_session-store a (some session) os = refl

  pub play_frame-IsFine :
      (a : App host) (sender_id : ℕ) (frame : List ℕ) (o : Outcome ProfileError TransceiverProfile)
      → IsFound o
      → IsSelected a.store
      → IsFine (play_frame host a sender_id frame o)
  unfolding play_frame
  play_frame-IsFine a sender_id frame (ok p) f h =
      elim (Bool-cases (not p.mute_self_id || not (sender_id == p.sender_id))) [
        | inl heard ↦ rw heard h
        | inr muted ↦ rw muted h
      ]
  play_frame-IsFine a sender_id frame (err e) f h = cc
  play_frame-IsFine a sender_id frame panic f h = cc

  -- The same of a handler that also tells whether the session has stopped.
  abbrev pub IsFineEvent : Option (App host × Bool) → Type 0
  IsFineEvent none = ⊥
  IsFineEvent (some (a, stopped)) = IsSelected a.store

  pub going_on-IsFine : (o : Option (App host)) → IsFine o → IsFineEvent (going_on host o)
  going_on-IsFine none h = h
  going_on-IsFine (some a) h = h

  pub apply_event-IsFine :
      (a : App host) (event : RelayEvent)
      → IsSelected a.store
      → IsFineEvent (apply_event host a event)
  unfolding apply_event
  apply_event-IsFine a (State.pcm_received sender_id frame) h =
      going_on-IsFine _
        (play_frame-IsFine a sender_id frame (active a.store) (active-IsFound a h) h)
  apply_event-IsFine a (State.connected local_addr) h = h
  apply_event-IsFine a (State.sent packet_type) h = h
  apply_event-IsFine a (State.received packet) h = h
  apply_event-IsFine a (State.receive_rejected error) h = h
  apply_event-IsFine a (State.io_error message) h = h
  apply_event-IsFine a State.stopped h = h

  pub end_tick-IsFine :
      (o : Option (App host × Bool)) (os : List Outside)
      → IsFineEvent o
      → IsFine (end_tick host o os)
  end_tick-IsFine none os h = h
  end_tick-IsFine (some (a, true)) os h =
      subst IsSelected (sym (close_session-store a a.session os)) h
  end_tick-IsFine (some (a, false)) os h = h
