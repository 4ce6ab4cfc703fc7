-- ===== src/Audio/PcmRoundTrip.antt =====
-- crates/incomudon-audio/src/lib.rs: `encode_pcm_frame` against `decode_pcm_frame`.
use incom_udon_native_rust.Base.{
  ℕ, zero, suc, ◌*◌, ◌/◌, ◌<◌, List, [], ◌∷◌, none, some, length, All, ◌≡◌, refl, ◌↔◌, ◌≢◌, arith,
}
use incom_udon_native_rust.Base.Words.{IsBytes, u16_mod}
use incom_udon_native_rust.Audio.Pcm.{
  pcm_frame_samples, pcm_frame_bytes, sample_bytes, encode_pcm_frame, byte_samples,
  decode_pcm_frame,
}

-- Bit patterns of `i16`.
abbrev pub IsSamples : List ℕ → Type 0
IsSamples = All (λ s. s < u16_mod)

pub length-sample_bytes : (samples : List ℕ) → length (sample_bytes samples) ≡ length samples * 2
unfolding sample_bytes
length-sample_bytes [] = refl
length-sample_bytes (s ∷ samples) = omega (arith, length-sample_bytes samples)

pub length-byte_samples : (bytes : List ℕ) → length (byte_samples bytes) ≡ length bytes / 2
unfolding byte_samples
length-byte_samples [] = refl
length-byte_samples (low ∷ []) = refl
length-byte_samples (low ∷ high ∷ bytes) = omega (arith, length-byte_samples bytes)

byte_samples-sample_bytes :
    (samples : List ℕ) → IsSamples samples → byte_samples (sample_bytes samples) ≡ samples
unfolding byte_samples sample_bytes
byte_samples-sample_bytes [] h = refl
byte_samples-sample_bytes (s ∷ samples) h = ground (arith, byte_samples-sample_bytes samples h.1)

sample_bytes-byte_samples :
    (bytes : List ℕ) (n : ℕ)
    → IsBytes bytes
    → length bytes ≡ n * 2
    → sample_bytes (byte_samples bytes) ≡ bytes
unfolding byte_samples sample_bytes
sample_bytes-byte_samples [] n h e = refl
sample_bytes-byte_samples (low ∷ []) n h e = absurd (omega arith)
sample_bytes-byte_samples (low ∷ high ∷ bytes) zero h e = absurd (omega arith)
sample_bytes-byte_samples (low ∷ high ∷ bytes) (suc n) h e =
    ground (arith, sample_bytes-byte_samples bytes n h.1.1)

-- On samples and bytes of their types, a frame is encoded to these bytes exactly when these bytes
-- are decoded to the frame.
pub encode_pcm_frame_iff :
    (samples bytes : List ℕ)
    → IsSamples samples
    → IsBytes bytes
    → (encode_pcm_frame samples ≡ some bytes) ↔ (decode_pcm_frame bytes ≡ some samples)
unfolding encode_pcm_frame decode_pcm_frame
encode_pcm_frame_iff samples bytes hs hb = (
  λ e. ground (arith, length-sample_bytes samples, byte_samples-sample_bytes samples hs),
  λ e.
      ground
        (arith, length-byte_samples bytes, sample_bytes-byte_samples bytes pcm_frame_samples hb),
)

pub length-encode_pcm_frame :
    (samples : List ℕ) {bytes : List ℕ}
    → encode_pcm_frame samples ≡ some bytes
    → length bytes ≡ pcm_frame_bytes
unfolding encode_pcm_frame
length-encode_pcm_frame samples e = ground (arith, length-sample_bytes samples)

pub length-decode_pcm_frame :
    (bytes : List ℕ) {samples : List ℕ}
    → decode_pcm_frame bytes ≡ some samples
    → (length bytes ≡ pcm_frame_bytes) × (length samples ≡ pcm_frame_samples)
unfolding decode_pcm_frame
length-decode_pcm_frame bytes e = ground (arith, length-byte_samples bytes)

pub decode_pcm_frame-none :
    (bytes : List ℕ) → decode_pcm_frame bytes ≡ none → length bytes ≢ pcm_frame_bytes
unfolding decode_pcm_frame
decode_pcm_frame-none bytes e = ground arith
