-- ===== src/Audio/PlaybackBounds.antt =====
-- crates/incomudon-audio/src/lib.rs: the bounds of `PlaybackBuffer`, and what it keeps.
use incom_udon_native_rust.Base.{
  ℕ, zero, suc, ◌+◌, ◌-◌, ◌*◌, ◌%◌, ◌^◌, ◌≤◌, ◌<◌, List, [], ◌∷◌, ◌++◌, some, Bool, true, false,
  length, drop, ◌≡◌, ◌≢◌, refl, sym, ap, ◌∙◌, arith, length-append, inl, inr, Option-cases,
  drop-nil,
}
use incom_udon_native_rust.Base.Words.{u64_mod}
use incom_udon_native_rust.Audio.Pcm.{pcm_frame_samples, pcm_frame_bytes, decode_pcm_frame}
use incom_udon_native_rust.Audio.PcmRoundTrip.{length-decode_pcm_frame, decode_pcm_frame-none}
use incom_udon_native_rust.Audio.Windows.{last, length-last, drop-append_within}
use incom_udon_native_rust.Audio.Playback.{
  PlaybackBuffer, new, pop_times, push_pcm_frame, saturating_add,
}

-- The capacity holds a frame, and every size stays in the range of `usize`.
pub record IsBounded (b : PlaybackBuffer) : Type 0 where
  pub holds_frame : pcm_frame_samples ≤ b.capacity_samples
  pub capacity_usize : b.capacity_samples < 2 ^ 63
  pub within : length b.samples ≤ b.capacity_samples

pop_times-drop : (n : ℕ) (xs : List ℕ) → pop_times n xs ≡ drop n xs
unfolding pop_times
pop_times-drop zero xs = refl
pop_times-drop (suc n) [] = pop_times-drop n [] ∙ drop-nil n
pop_times-drop (suc n) (x ∷ xs) = pop_times-drop n xs

module _ (b : PlaybackBuffer) (samples : List ℕ) (v : IsBounded b)
    (one_frame : length samples ≡ pcm_frame_samples) where
  overflow : ℕ
  overflow = saturating_add (length b.samples) (length samples) - b.capacity_samples

  overflow-eq : overflow ≡ length b.samples + pcm_frame_samples - b.capacity_samples
  unfolding overflow
  overflow-eq = omega (arith, v.within, v.capacity_usize, one_frame)

  push_decoded-last :
      pop_times overflow b.samples ++ samples ≡ last b.capacity_samples (b.samples ++ samples)
  push_decoded-last =
      ap (λ xs. xs ++ samples) (pop_times-drop overflow b.samples)
      ∙ sym (
          drop-append_within overflow b.samples samples
            (omega (arith, overflow-eq, v.holds_frame, v.within)))
      ∙ ap (λ k. drop k (b.samples ++ samples)) {x = overflow}
          (omega (arith, overflow-eq, length-append b.samples samples, one_frame))

  push_decoded-within : length (pop_times overflow b.samples ++ samples) ≤ b.capacity_samples
  push_decoded-within =
      omega
        (arith, ap length push_decoded-last, length-last b.capacity_samples (b.samples ++ samples))

-- What a push of these bytes may leave, and return.
abbrev pub Pushed : PlaybackBuffer → List ℕ → Bool × PlaybackBuffer → Type 0
Pushed b frame (false, b') = (length frame ≢ pcm_frame_bytes) × (b' ≡ b)
Pushed b frame (true, b') =
    (samples : List ℕ) × (decode_pcm_frame frame ≡ some samples)
    × (b'.samples ≡ last b.capacity_samples (b.samples ++ samples))
    × (b'.dropped_samples
        ≡ (b.dropped_samples + (length b.samples + pcm_frame_samples - b.capacity_samples))
          % u64_mod)
    × (b'.capacity_samples ≡ b.capacity_samples)
    × IsBounded b'

-- `push_pcm_frame` on any bytes, and a buffer within a capacity that holds a frame and is less
-- than 2 ^ 63: when it returns true, the bytes were decoded, the buffer keeps the latest samples
-- that fit, counts those that it drops, and stays within its capacity; when it returns false, the
-- bytes are not 320 and nothing changes.
pub push_pcm_frame-Pushed :
    (b : PlaybackBuffer) (frame : List ℕ) → IsBounded b → Pushed b frame (push_pcm_frame b frame)
unfolding push_pcm_frame overflow
push_pcm_frame-Pushed b frame v = elim (Option-cases (decode_pcm_frame frame)) [
  | inl e ↦ rw e (decode_pcm_frame-none frame e, refl)
  | inr (samples, e) ↦
      let one_frame = (length-decode_pcm_frame frame e).1 in
      rw e (
        samples,
        e,
        push_decoded-last b samples v one_frame,
        omega (arith, overflow-eq b samples v one_frame),
        refl,
        record {
          holds_frame = v.holds_frame;
          capacity_usize = v.capacity_usize;
          within = push_decoded-within b samples v one_frame;
        },
      )
]

-- A new buffer for at least one frame, of a size that fits, is empty and bounded.
pub new-IsBounded :
    (frame_capacity : ℕ) {b : PlaybackBuffer}
    → frame_capacity * pcm_frame_samples < 2 ^ 63
    → new frame_capacity ≡ some b
    → IsBounded b × (b.samples ≡ []) × (b.capacity_samples ≡ frame_capacity * pcm_frame_samples)
unfolding new
new-IsBounded frame_capacity h e = ground arith
