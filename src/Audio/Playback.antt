-- ===== src/Audio/Playback.antt =====
-- crates/incomudon-audio/src/lib.rs: `PlaybackBuffer`. `usize` and `u64` have 64 bits and wrap, as
-- in a release build.
use incom_udon_native_rust.Base.{
  ℕ, zero, suc, ◌+◌, ◌-◌, ◌*◌, ◌%◌, ◌^◌, List, [], ◌++◌, Option, none, some, Bool, true, false, not,
  ltb, min, if◌then◌else◌, length,
}
use incom_udon_native_rust.Base.Words.{u64_mod, wrapping_add64}
use incom_udon_native_rust.Audio.Pcm.{pcm_frame_samples, decode_pcm_frame}
use incom_udon_native_rust.Audio.Queue.{pop_front, front}

pub record PlaybackBuffer : Type 0 where
  pub samples : List ℕ
  pub capacity_samples : ℕ
  pub dropped_samples : ℕ

-- `none` is the failed assertion.
unfoldable pub new : ℕ → Option PlaybackBuffer
new frame_capacity =
    if not (ltb 0 frame_capacity)
    then none
    else some (record {
      samples = [];
      capacity_samples = frame_capacity * pcm_frame_samples % u64_mod;
      dropped_samples = 0;
    })

-- `usize::saturating_add`
abbrev pub saturating_add : ℕ → ℕ → ℕ
saturating_add a b = min (a + b) (2 ^ 64 - 1)

-- `for _ in 0..n { samples.pop_front(); }`
unfoldable pub pop_times : ℕ → List ℕ → List ℕ
pop_times zero samples = samples
pop_times (suc n) samples = pop_times n (pop_front samples)

-- the body of `push_pcm_frame`, at the decoded frame
unfoldable pub push_decoded : PlaybackBuffer → Option (List ℕ) → Bool × PlaybackBuffer
push_decoded b none = (false, b)
push_decoded b (some samples) =
    let overflow = saturating_add (length b.samples) (length samples) - b.capacity_samples in
    (
      true,
      record b {
        samples = pop_times overflow b.samples ++ samples;
        dropped_samples = wrapping_add64 b.dropped_samples overflow;
      },
    )

unfoldable pub push_pcm_frame : PlaybackBuffer → List ℕ → Bool × PlaybackBuffer
unfolding push_decoded
push_pcm_frame b frame = push_decoded b (decode_pcm_frame frame)

unfoldable pub pop_sample : PlaybackBuffer → Option ℕ × PlaybackBuffer
pop_sample b = (front b.samples, record b { samples = pop_front b.samples })
