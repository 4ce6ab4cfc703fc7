-- ===== src/Audio/Capture.antt =====
-- crates/incomudon-audio/src/lib.rs: `CaptureFrameAssembler`. There is no `f32` in the logic, so
-- the type and the operations on it that the code calls are the parameter `Float`.
use incom_udon_native_rust.Base.{
  ℕ, ◌+◌, ◌-◌, ◌^◌, ◌<◌, min, List, [], ◌∷◌, ◌++◌, Option, none, some, not, ◌||◌, ltb, ◌==◌,
  if◌then◌else◌, length,
}
use incom_udon_native_rust.Base.Words.{u16_mod}
use incom_udon_native_rust.Audio.Pcm.{pcm_sample_rate, pcm_frame_samples, encode_pcm_frame}

-- Rust's `f32`: `Iterator::sum`, `/`, `*`, `clamp`, `round`, and the casts from `usize` and to
-- `i16`, which gives a bit pattern of sixteen bits.
pub record Float : Type 1 where
  pub F32 : Type 0
  pub sum : List F32 → F32
  pub div : F32 → F32 → F32
  pub mul : F32 → F32 → F32
  pub clamp : F32 → F32 → F32 → F32
  pub round : F32 → F32
  pub of_nat : ℕ → F32
  pub neg : F32 → F32
  pub to_i16 : F32 → ℕ
  pub to_i16-lt : (x : F32) → to_i16 x < u16_mod

-- the options of a chain of calls, whose `none` is a panic
infixl 5 ◌>>=◌
abbrev pub ◌>>=◌ : {A B : Type 0} → Option A → (A → Option B) → Option B
none >>= f = none
some a >>= f = f a

-- `chunks_exact(n)`: the list gathers `held` until it has `n` elements; a rest is left out.
module _ {A : Type 0} (n : ℕ) where
  unfoldable pub chunks_from : List A → List A → List (List A)
  chunks_from held [] = []
  chunks_from held (x ∷ xs) =
      let held' = held ++ x ∷ [] in
      let full = length held' == n in
      let rest = chunks_from (if full then [] else held') xs in if full then held' ∷ rest else rest

unfoldable pub chunks_exact : {A : Type 0} → ℕ → List A → List (List A)
chunks_exact n xs = chunks_from n [] xs

pub record CaptureFrameAssembler : Type 0 where
  pub input_rate : ℕ
  pub channels : ℕ
  pub phase : ℕ
  pub frame : List ℕ

-- `none` is a failed assertion.
unfoldable pub new : ℕ → ℕ → Option CaptureFrameAssembler
new input_rate channels =
    if not (ltb 0 input_rate) || not (ltb 0 channels)
    then none
    else some (record { input_rate = input_rate; channels = channels; phase = 0; frame = [] })

-- `u32::saturating_add`
abbrev pub saturating_add32 : ℕ → ℕ → ℕ
saturating_add32 a b = min (a + b) (2 ^ 32 - 1)

-- the state behind a device frame, with the frames complete so far
abbrev pub Progress : Type 0
Progress = CaptureFrameAssembler × List (List ℕ)

-- the loop's body behind the `continue`, at the sample to push
unfoldable pub push_sample : CaptureFrameAssembler → ℕ → List (List ℕ) → Option Progress
push_sample c sample complete_frames =
    let c' = record c { frame = c.frame ++ sample ∷ [] } in
    if length c'.frame == pcm_frame_samples
    then encode_pcm_frame c'.frame
      >>= (λ bytes. some (record c' { frame = [] }, complete_frames ++ bytes ∷ []))
    else some (c', complete_frames)

module _ (fl : Float) where
  open fl use {F32, sum, div, mul, clamp, round, of_nat, neg, to_i16}

  unfoldable pub float_to_i16 : F32 → ℕ
  float_to_i16 sample =
      to_i16 (round (mul (clamp sample (neg (of_nat 1)) (of_nat 1)) (of_nat 32767)))

  -- one round of the loop
  unfoldable pub push_device_frame :
      CaptureFrameAssembler → List F32 → List (List ℕ) → Option Progress
  push_device_frame c device_frame complete_frames =
      let mono = div (sum device_frame) (of_nat c.channels) in
      let phase = saturating_add32 c.phase pcm_sample_rate in
      if ltb phase c.input_rate
      then some (record c { phase = phase }, complete_frames)
      else push_sample (record c { phase = phase - c.input_rate }) (float_to_i16 mono)
          complete_frames

  unfoldable pub push_device_frames :
      CaptureFrameAssembler → List (List F32) → List (List ℕ) → Option Progress
  push_device_frames c [] complete_frames = some (c, complete_frames)
  push_device_frames c (device_frame ∷ rest) complete_frames =
      push_device_frame c device_frame complete_frames >>= λ p. push_device_frames p.0 rest p.1

  -- `none` is a panic.
  unfoldable pub push_interleaved_f32 : CaptureFrameAssembler → List F32 → Option Progress
  push_interleaved_f32 c samples = push_device_frames c (chunks_exact c.channels samples) []
