-- ===== src/Desktop/Audio.antt =====
-- apps/desktop/src/desktop_audio.rs: the microphone's and the speaker's callbacks around the capture
-- assembler and the playback buffer. The devices of cpal, the sample formats and `f32` are
-- parameters.
pub mod Output
use incom_udon_native_rust.Base.{
  ℕ, zero, suc, ◌-◌, ◌^◌, List, [], ◌∷◌, ◌++◌, Option, none, some, Bool, true, false, leb,
  if◌then◌else◌, length, map, replicate, drop, ◌/◌, ◌*◌, Outcome, ok, err, panic, ◌>>=◌, ◌>>◌,
  map_err,
}
use incom_udon_native_rust.Base.Text.{Text, codes}
use incom_udon_native_rust.Audio.Pcm.{pcm_sample_rate}
use incom_udon_native_rust.Audio.Playback.{PlaybackBuffer, push_pcm_frame, pop_sample}
use incom_udon_native_rust.Audio.Playback
use incom_udon_native_rust.Audio.Capture.{
  Float, CaptureFrameAssembler, Progress, push_interleaved_f32, saturating_add32,
}
use incom_udon_native_rust.Audio.Capture

abbrev pub capture_queue_capacity : ℕ
capture_queue_capacity = 8

abbrev pub playback_queue_frames : ℕ
playback_queue_frames = 12

-- `DesktopAudio`: the frames in the capture channel, oldest first, and the playback buffer
pub record DesktopAudio : Type 0 where
  pub capture_frames : List (List ℕ)
  pub playback : PlaybackBuffer

abbrev front_frame : List (List ℕ) → Option (List ℕ)
front_frame [] = none
front_frame (frame ∷ frames) = some frame

abbrev other_frames : List (List ℕ) → List (List ℕ)
other_frames [] = []
other_frames (frame ∷ frames) = frames

unfoldable pub try_next_capture_frame : DesktopAudio → Option (List ℕ) × DesktopAudio
try_next_capture_frame a =
    (front_frame a.capture_frames, record a { capture_frames = other_frames a.capture_frames })

-- `while …try_recv().is_ok() {}`
unfoldable pub discard_from : List (List ℕ) → List (List ℕ)
discard_from [] = []
discard_from (frame ∷ frames) = discard_from frames

unfoldable pub discard_capture_frames : DesktopAudio → DesktopAudio
discard_capture_frames a = record a { capture_frames = discard_from a.capture_frames }

unfoldable pub queue_playback_frame : DesktopAudio → List ℕ → Bool × DesktopAudio
queue_playback_frame a frame =
    let (taken, playback) = push_pcm_frame a.playback frame in
    (taken, record a { playback = playback })

-- `try_send` on the capture channel; a full one drops the frame
unfoldable pub send_frame : List (List ℕ) → List ℕ → List (List ℕ)
send_frame queue frame =
    if leb capture_queue_capacity (length queue) then queue else queue ++ frame ∷ []

unfoldable pub send_frames : List (List ℕ) → List (List ℕ) → List (List ℕ)
send_frames queue [] = queue
send_frames queue (frame ∷ frames) = send_frames (send_frame queue frame) frames

-- What cpal gives: the sample formats, the default configurations and whether the streams start.
pub data SampleFormat : Type 0 where
  f32_format i16_format u16_format : SampleFormat
  other_format : Text → SampleFormat

pub record StreamConfig : Type 0 where
  pub sample_rate : ℕ
  pub channels : ℕ
  pub sample_format : SampleFormat

pub record Devices : Type 0 where
  pub has_input : Bool
  pub has_output : Bool
  pub input_config : Outcome Text StreamConfig
  pub output_config : Outcome Text StreamConfig
  pub build_input : StreamConfig → Option Text
  pub build_output : StreamConfig → Option Text
  pub play_input : Option Text
  pub play_output : Option Text

abbrev pub try_text : Option Text → Outcome Text (Unit {0})
try_text none = ok tt
try_text (some error) = err error

abbrev pub require : Bool → Text → Outcome Text (Unit {0})
require true message = ok tt
require false message = err message

-- a failed assertion is a panic
abbrev pub assert_some : {A : Type 0} → Option A → Outcome Text A
assert_some (some a) = ok a
assert_some none = panic

abbrev pub check_format : Text → SampleFormat → Outcome Text (Unit {0})
check_format message f32_format = ok tt
check_format message i16_format = ok tt
check_format message u16_format = ok tt
check_format message (other_format name) = err (message ++ name)

unfoldable pub build_input_stream : Devices → StreamConfig → Outcome Text CaptureFrameAssembler
build_input_stream devices config = do
  assembler ← assert_some (Capture.new config.sample_rate config.channels)
  check_format (codes "unsupported microphone sample format: ") config.sample_format
  try_text (devices.build_input config)
  ok assembler

module _ (fl : Float) where
  -- The variables that the output callback keeps.
  pub record OutputState : Type 0 where
    pub phase : ℕ
    pub current_sample : fl.F32

  unfoldable pub build_output_stream : Devices → StreamConfig → Outcome Text OutputState
  build_output_stream devices config = do
    check_format (codes "unsupported speaker sample format: ") config.sample_format
    try_text (devices.build_output config)
    ok (record { phase = 0; current_sample = fl.of_nat 0 })

  -- What `open` makes: the value, and what the callbacks own.
  pub record Opened : Type 0 where
    pub audio : DesktopAudio
    pub assembler : CaptureFrameAssembler
    pub output : OutputState
    pub input_config : StreamConfig
    pub output_config : StreamConfig

  unfoldable pub open_audio : Devices → Outcome Text Opened
  unfolding build_input_stream build_output_stream
  open_audio devices = do
    require devices.has_input (codes "no default microphone is available")
    require devices.has_output (codes "no default speaker is available")
    input_config ← devices.input_config
    output_config ← devices.output_config
    playback ← assert_some (Playback.new playback_queue_frames)
    assembler ← build_input_stream devices input_config
    output ← build_output_stream devices output_config
    try_text devices.play_input
    try_text devices.play_output
    ok (record {
      audio = record { capture_frames = []; playback = playback };
      assembler = assembler;
      output = output;
      input_config = input_config;
      output_config = output_config;
    })

  -- The input callback, at the samples as `f32`; `none` is a panic of the assembler.
  abbrev pub captured :
      DesktopAudio → Option Progress → Option (CaptureFrameAssembler × DesktopAudio)
  captured a none = none
  captured a (some (assembler, frames)) =
      some (assembler, record a { capture_frames = send_frames a.capture_frames frames })

  unfoldable pub input_callback :
      {T : Type 0}
      → (T → fl.F32)
      → CaptureFrameAssembler
      → DesktopAudio
      → List T
      → Option (CaptureFrameAssembler × DesktopAudio)
  input_callback to_sample assembler a samples =
      captured a (push_interleaved_f32 fl assembler (map to_sample samples))

  -- The output callback for one device frame: the sample at 8 kHz that it plays, and the state
  -- behind it. `sample as f32 / i16::MAX as f32` is `scaled`.
  module _ (scaled : ℕ → fl.F32) (output_rate : ℕ) where
    abbrev pub or_silence : Option ℕ → fl.F32
    or_silence none = fl.of_nat 0
    or_silence (some sample) = scaled sample

    unfoldable pub output_frame : OutputState → PlaybackBuffer → OutputState × PlaybackBuffer
    output_frame s playback =
        let phase = saturating_add32 s.phase pcm_sample_rate in
        if leb output_rate phase
        then (let (popped, playback') = pop_sample playback in
            (record { phase = phase - output_rate; current_sample = or_silence popped }, playback'))
        else (record s { phase = phase }, playback)

    -- the loop over the chunks, for as many device frames
    unfoldable pub output_device_frames :
        {T : Type 0}
        → (fl.F32 → T)
        → ℕ
        → ℕ
        → OutputState
        → PlaybackBuffer
        → List T × OutputState × PlaybackBuffer
    output_device_frames from_sample channels zero s playback = ([], s, playback)
    output_device_frames from_sample channels (suc n) s playback =
        let (s', playback') = output_frame s playback in
        let (written, s'', playback'') = output_device_frames from_sample channels n s' playback' in
        (replicate channels (from_sample s'.current_sample) ++ written, s'', playback'')

    -- The output callback with the lock: it writes over the whole chunks of the device's buffer
    -- `samples` (`data` in the source), and leaves what is too short for a chunk. `chunks_exact_mut` panics on no channels,
    -- which is `none`.
    unfoldable pub output_frames :
        {T : Type 0}
        → (fl.F32 → T)
        → ℕ
        → List T
        → OutputState
        → PlaybackBuffer
        → Option (List T × OutputState × PlaybackBuffer)
    unfolding output_device_frames
    output_frames from_sample zero samples s playback = none
    output_frames from_sample (suc channels) samples s playback =
        let n = length samples / suc channels in
        let (written, s', playback') =
          output_device_frames from_sample (suc channels) n s playback in
        some (written ++ drop (n * suc channels) samples, s', playback')
