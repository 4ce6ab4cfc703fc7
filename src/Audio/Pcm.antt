-- ===== src/Audio/Pcm.antt =====
-- crates/incomudon-audio/src/lib.rs: `encode_pcm_frame`, `decode_pcm_frame`. An `i16` is its two's
-- complement bit pattern, a number below 2 ^ 16. A failed `assert` is `none` of the encoder.
use incom_udon_native_rust.Base.{
  ℕ, ◌*◌, ◌+◌, ◌/◌, ◌%◌, List, [], ◌∷◌, ◌++◌, Option, none, some, not, ◌==◌, if◌then◌else◌, length,
}

abbrev pub pcm_sample_rate : ℕ
pcm_sample_rate = 8_000

abbrev pub pcm_frame_samples : ℕ
pcm_frame_samples = 160

abbrev pub pcm_frame_bytes : ℕ
pcm_frame_bytes = pcm_frame_samples * 2

-- the loop `for sample in samples`, with `to_le_bytes`
unfoldable pub sample_bytes : List ℕ → List ℕ
sample_bytes [] = []
sample_bytes (sample ∷ samples) = (sample % 256 ∷ sample / 256 % 256 ∷ []) ++ sample_bytes samples

unfoldable pub encode_pcm_frame : List ℕ → Option (List ℕ)
encode_pcm_frame samples =
    if not (length samples == pcm_frame_samples) then none else some (sample_bytes samples)

-- `as_chunks::<2>().0` mapped by `i16::from_le_bytes`; an odd byte at the end is left out
unfoldable pub byte_samples : List ℕ → List ℕ
byte_samples [] = []
byte_samples (low ∷ []) = []
byte_samples (low ∷ high ∷ bytes) = (low + high * 256) ∷ byte_samples bytes

unfoldable pub decode_pcm_frame : List ℕ → Option (List ℕ)
decode_pcm_frame bytes =
    if not (length bytes == pcm_frame_bytes) then none else some (byte_samples bytes)
