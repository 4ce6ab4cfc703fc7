-- ===== src/Desktop/App/Tick/Frames.antt =====
-- apps/desktop/src/main.rs: the frames that the timer moves from the microphone to the session.
use incom_udon_native_rust.Base.{
  ℕ, zero, suc, ◌+◌, ◌≤◌, List, [], ◌∷◌, ◌++◌, Option, some, true, false, ◌||◌, leb, if◌then◌else◌,
  length, take, drop, map, ◌≡◌, refl, sym, ap, ◌∙◌, arith, append-nil, append_assoc, length-append,
}
use incom_udon_native_rust.Audio.Playback.{PlaybackBuffer}
use incom_udon_native_rust.Transport.State.{default_command_capacity, send_pcm}
use incom_udon_native_rust.Transport.Session.{RelaySession, is_ended, try_send, send_pcm_frame}
use incom_udon_native_rust.Desktop.Audio.{DesktopAudio, try_next_capture_frame}
use incom_udon_native_rust.Desktop.App.{Host, App}
use incom_udon_native_rust.Desktop.App.Tick.{send_captured, captured_from, with_sent}

-- The session with commands for the frames behind what waits.
abbrev pub with_frames : RelaySession → List (List ℕ) → RelaySession
with_frames s frames = record s { commands = s.commands ++ map send_pcm frames }

send_pcm_frame-room :
    (s : RelaySession) (frame : List ℕ)
    → is_ended s.pc ≡ false
    → length s.commands + 1 ≤ default_command_capacity
    → (send_pcm_frame s frame).1 ≡ with_frames s (frame ∷ [])
unfolding send_pcm_frame try_send
send_pcm_frame-room s frame running room =
    let open_channel : (is_ended s.pc || leb default_command_capacity (length s.commands)) ≡ false =
      ground (arith, running, room) in
    rw open_channel refl

module _ (host : Host) where
  send_captured-room :
      (n : ℕ) (frames : List (List ℕ)) (playback : PlaybackBuffer) (s : RelaySession)
      → is_ended s.pc ≡ false
      → length s.commands + n ≤ default_command_capacity
      → send_captured host n (record { capture_frames = frames; playback = playback }) (some s) ≡ (
        record { capture_frames = drop n frames; playback = playback },
        some (with_frames s (take n frames)),
      )
  unfolding send_captured try_next_capture_frame
  send_captured-room zero frames playback s running room =
      ap
        (λ l. (
          record { capture_frames = frames; playback = playback },
          some (record s { commands = l }),
        ))
        (sym (append-nil s.commands))
  send_captured-room (suc n) [] playback s running room =
      ap
        (λ l.
          (record { capture_frames = []; playback = playback }, some (record s { commands = l })))
        (sym (append-nil s.commands))
  send_captured-room (suc n) (frame ∷ frames) playback s running room =
      let sent = send_pcm_frame-room s frame running (omega (arith, room)) in
      ap
        (λ x.
          send_captured host n (record { capture_frames = frames; playback = playback }) (some x))
        sent
      ∙ send_captured-room n frames playback (with_frames s (frame ∷ [])) running
          (omega (arith, room, length-append s.commands (send_pcm frame ∷ [])))
      ∙ ap
          (λ l. (
            record { capture_frames = drop n frames; playback = playback },
            some (record s { commands = l }),
          ))
          (append_assoc s.commands (send_pcm frame ∷ []) (map send_pcm (take n frames)))

  -- While the application talks, with sound devices and with a session whose thread runs and whose
  -- channel has room for four commands: a tick takes the oldest frames from the microphone, at most
  -- four, and puts a command for each of them, in their order, behind what waits; it changes nothing
  -- else before it turns to the events.
  pub with_sent_lem :
      (a : App host) (audio : DesktopAudio) (s : RelaySession)
      → a.ptt_active ≡ true
      → a.audio ≡ some audio
      → a.session ≡ some s
      → is_ended s.pc ≡ false
      → length s.commands + 4 ≤ default_command_capacity
      → with_sent host a ≡ record a {
        audio = some (record audio { capture_frames = drop 4 audio.capture_frames });
        session = some (with_frames s (take 4 audio.capture_frames));
      }
  unfolding captured_from
  with_sent_lem a audio s talks devices linked running room =
      ap (λ b. if b then captured_from host a a.audio else a) talks
      ∙ ap (captured_from host a) devices
      ∙ ap
          (λ o. record a {
            audio = some (send_captured host 4 audio o).0;
            session = (send_captured host 4 audio o).1;
          })
          linked
      ∙ ap
          (λ (r : DesktopAudio × Option RelaySession). record a { audio = some r.0; session = r.1 })
          (send_captured-room 4 audio.capture_frames audio.playback s running room)
