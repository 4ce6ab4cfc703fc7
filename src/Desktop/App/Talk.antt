-- ===== src/Desktop/App/Talk.antt =====
-- apps/desktop/src/main.rs: the handlers of the talk button.
pub mod Granted
use incom_udon_native_rust.Base.{
  [], ◌∷◌, ◌++◌, Option, none, some, Bool, true, false, ◌&&◌, ◌==◌, if◌then◌else◌, Outcome, ok, err,
  panic, map_err,
}
use incom_udon_native_rust.Base.Text.{Text, codes}
use incom_udon_native_rust.Protocol.Types.{PacketType, ptt_on, ptt_off, codec_config}
use incom_udon_native_rust.Profiles.Store.{
  Codec, opus, codec2, pcm, TransceiverProfile, ProfileError, active,
}
use incom_udon_native_rust.Transport.Session.{RelaySession, send_control}
use incom_udon_native_rust.Desktop.Audio.{DesktopAudio, discard_capture_frames}
use incom_udon_native_rust.Desktop.App.{Host, App, Called, connect_first, show_connection}

abbrev pub same_text : Text → Text → Bool
same_text [] [] = true
same_text [] (d ∷ ds) = false
same_text (c ∷ cs) [] = false
same_text (c ∷ cs) (d ∷ ds) = c == d && same_text cs ds

module _ (host : Host) where
  unfoldable pub send_pcm_codec_config : Option RelaySession → Called
  send_pcm_codec_config none = (err connect_first, none)
  send_pcm_codec_config (some session) =
      let (result, session') = send_control session codec_config (0x01 ∷ 0x00 ∷ 0x00 ∷ 0x00 ∷ []) in
      (
        map_err
            (λ error. codes "PCM codec configuration send failed: " ++ host.transport_text error)
            result,
        some session',
      )

  unfoldable pub send_ptt_control : Option RelaySession → PacketType → Called
  send_ptt_control none packet_type = (err connect_first, none)
  send_ptt_control (some session) packet_type =
      let (result, session') = send_control session packet_type [] in
      (
        map_err (λ error. codes "PTT send failed: " ++ host.transport_text error) result,
        some session',
      )

  -- `.and_then(|()| send_ptt_control(…))`
  unfoldable pub then_ptt_on : Called → Called
  then_ptt_on (ok sent, session) = send_ptt_control session ptt_on
  then_ptt_on (err error, session) = (err error, session)
  then_ptt_on (panic, session) = (panic, session)

  unfoldable pub requested : App host → Called → Option (App host)
  requested a (ok sent, session) = some (
      show_connection host (record a { session = session; ptt_active = true })
        (codes "Requesting talk"))
  requested a (err error, session) =
      some (show_connection host (record a { session = session }) error)
  requested a (panic, session) = none

  unfoldable pub press_with : App host → Option DesktopAudio → Option (App host)
  unfolding requested then_ptt_on
  press_with a none = some (show_connection host a (codes "Audio device is unavailable"))
  press_with a (some audio) =
      requested (record a { audio = some (discard_capture_frames audio) })
        (then_ptt_on (send_pcm_codec_config a.session))

  unfoldable pub press_codec : App host → Codec → Option (App host)
  unfolding press_with
  press_codec a pcm = press_with a a.audio
  press_codec a opus =
      some (show_connection host a (codes "PCM is currently the only available audio codec"))
  press_codec a codec2 =
      some (show_connection host a (codes "PCM is currently the only available audio codec"))

  abbrev pub press_active : App host → Outcome ProfileError TransceiverProfile → Option (App host)
  press_active a (ok profile) = press_codec a profile.codec
  press_active a (err error) = none
  press_active a panic = none

  unfoldable pub ptt_pressed : App host → Option (App host)
  unfolding press_codec
  ptt_pressed a = if a.window.receive_only then some a else press_active a (active a.store)

  unfoldable pub released : App host → Called → Option (App host)
  released a (ok sent, session) =
      some (show_connection host (record a { session = session }) (codes "Connected"))
  released a (err error, session) =
      if same_text error connect_first
      then some (record a { session = session })
      else some (show_connection host (record a { session = session }) error)
  released a (panic, session) = none

  unfoldable pub ptt_released : App host → Option (App host)
  unfolding released
  ptt_released a = released (record a { ptt_active = false }) (send_ptt_control a.session ptt_off)
