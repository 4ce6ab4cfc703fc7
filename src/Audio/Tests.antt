-- ===== src/Audio/Tests.antt =====
-- crates/incomudon-audio/src/lib.rs: the queue, the buffers and the assembler at concrete inputs.
use incom_udon_native_rust.Base.{
  ℕ, ◌+◌, ◌*◌, ◌%◌, ◌<◌, ◌≡◌, ◌↔◌, refl, arith, List, [], ◌∷◌, ◌++◌, some, length, replicate,
}
use incom_udon_native_rust.Base.Words.{u64_mod}
use incom_udon_native_rust.Audio.Samples.{ints}
use incom_udon_native_rust.Audio.Pcm.{encode_pcm_frame, decode_pcm_frame, sample_bytes}
use incom_udon_native_rust.Audio.PcmRoundTrip.{encode_pcm_frame_iff}
use incom_udon_native_rust.Audio.Queue.{FrameQueue, QueueOp, push, take_next, run}
use incom_udon_native_rust.Audio.QueueBounds
use incom_udon_native_rust.Audio.QueueBounds.{window_run, run_refines, run_balance, delivered}
use incom_udon_native_rust.Audio.Playback.{PlaybackBuffer, push_pcm_frame}
use incom_udon_native_rust.Audio.PlaybackBounds
use incom_udon_native_rust.Audio.PlaybackBounds.{Pushed, push_pcm_frame-Pushed}
use incom_udon_native_rust.Audio.Capture.{
  CaptureFrameAssembler, Progress, ◌>>=◌, push_interleaved_f32,
}
use incom_udon_native_rust.Audio.CaptureRate.{IsReady, Progressed}
use incom_udon_native_rust.Audio.CaptureStreams.{
  push_interleaved-append, push_interleaved-Progressed,
}
use incom_udon_native_rust.Audio.CaptureFrames.{push_interleaved_whole}

encode_pcm_frame_iff_example :
    (encode_pcm_frame (replicate 160 513) ≡ some (sample_bytes (replicate 160 513)))
    ↔ (decode_pcm_frame (sample_bytes (replicate 160 513)) ≡ some (replicate 160 513))
encode_pcm_frame_iff_example =
    encode_pcm_frame_iff (replicate 160 513) (sample_bytes (replicate 160 513)) (omega arith)
      (unfold sample_bytes in omega arith)

abbrev full_queue : FrameQueue ℕ
full_queue = record { frames = 1 ∷ 2 ∷ []; capacity = 2; dropped_frames = 5 }

full_queue-IsBounded : QueueBounds.IsBounded full_queue
full_queue-IsBounded = record {
  non_zero = omega arith;
  within = omega arith;
  counter_u64 = omega arith;
}

abbrev calls : List (QueueOp ℕ)
calls = push 3 ∷ take_next ∷ push 4 ∷ push 5 ∷ take_next ∷ []

run_refines_example :
    ((run full_queue calls).0, (run full_queue calls).1.frames) ≡ window_run 2 (1 ∷ 2 ∷ []) calls
run_refines_example = run_refines full_queue calls full_queue-IsBounded

run_balance_example :
    QueueBounds.IsBounded (run full_queue calls).1
    × ((5 + 2 + 3) % u64_mod
        ≡ ((run full_queue calls).1.dropped_frames
            + length (run full_queue calls).1.frames
            + delivered (run full_queue calls).0)
          % u64_mod)
run_balance_example = run_balance full_queue calls full_queue-IsBounded

abbrev one_frame : PlaybackBuffer
one_frame = record { samples = replicate 100 9; capacity_samples = 160; dropped_samples = 3 }

one_frame-IsBounded : PlaybackBounds.IsBounded one_frame
one_frame-IsBounded = record {
  holds_frame = omega arith;
  capacity_usize = omega arith;
  within = omega arith;
}

push_pcm_frame-Pushed_example :
    Pushed one_frame (replicate 320 1) (push_pcm_frame one_frame (replicate 320 1))
push_pcm_frame-Pushed_example =
    push_pcm_frame-Pushed one_frame (replicate 320 1) one_frame-IsBounded

abbrev stereo : CaptureFrameAssembler
stereo = record { input_rate = 48_000; channels = 2; phase = 0; frame = [] }

stereo-IsReady : IsReady stereo
stereo-IsReady = record {
  rate_enough = omega arith;
  rate_fits = omega arith;
  has_channels = omega arith;
  phase_in = omega arith;
  partial = omega arith;
}

push_interleaved-Progressed_example :
    (n : ℕ) × (rest : ℕ) × (q : Progress) × (5 ≡ n * 2 + rest)
    × (rest < 2)
    × (push_interleaved_f32 ints stereo (1 ∷ 2 ∷ 3 ∷ 4 ∷ 5 ∷ []) ≡ some q)
    × Progressed (stereo, []) n q
push_interleaved-Progressed_example =
    push_interleaved-Progressed ints stereo (1 ∷ 2 ∷ 3 ∷ 4 ∷ 5 ∷ []) stereo-IsReady

push_interleaved-append_example : push_interleaved_f32 ints stereo (1 ∷ 2 ∷ 3 ∷ 4 ∷ 5 ∷ 6 ∷ []) ≡ (
    push_interleaved_f32 ints stereo (1 ∷ 2 ∷ 3 ∷ 4 ∷ []) >>= λ p.
    push_interleaved_f32 ints p.0 (5 ∷ 6 ∷ []) >>= λ q. some (q.0, p.1 ++ q.1))
push_interleaved-append_example =
    push_interleaved-append ints stereo (1 ∷ 2 ∷ 3 ∷ 4 ∷ []) (5 ∷ 6 ∷ []) 2 (omega arith) refl

-- One frame of 20 ms from a device of fifty samples times 480 a second.
abbrev mono : CaptureFrameAssembler
mono = record { input_rate = 24_000; channels = 1; phase = 0; frame = [] }

mono-IsReady : IsReady mono
mono-IsReady = record {
  rate_enough = omega arith;
  rate_fits = omega arith;
  has_channels = omega arith;
  phase_in = omega arith;
  partial = omega arith;
}

push_interleaved_whole_example :
    (q : Progress) × (push_interleaved_f32 ints mono (replicate 480 7) ≡ some q)
    × (length q.1 ≡ 1)
    × (q.0.phase ≡ 0)
    × (q.0.frame ≡ [])
push_interleaved_whole_example =
    push_interleaved_whole ints mono (replicate 480 7) 480 1 mono-IsReady refl refl refl refl
