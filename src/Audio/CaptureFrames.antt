-- ===== src/Audio/CaptureFrames.antt =====
-- crates/incomudon-audio/src/lib.rs: `CaptureFrameAssembler` on whole numbers of 20 ms.
use incom_udon_native_rust.Base.{
  ℕ, ◌+◌, ◌*◌, ◌≤◌, ◌<◌, List, [], some, length, ◌≡◌, sym, ap, ◌∙◌, arith, ◌⊎◌, inl, inr,
  length-eq-zero, subst,
}
use incom_udon_native_rust.Audio.Capture.{
  Float, CaptureFrameAssembler, Progress, push_interleaved_f32,
}
use incom_udon_native_rust.Audio.CaptureRate.{IsReady, samples_out}
use incom_udon_native_rust.Audio.CaptureStreams.{push_interleaved-Progressed}

mul_lt : (a b r : ℕ) → a < b → a * r + r ≤ b * r
mul_lt a b r h = grind arith

lt_cases : (a b : ℕ) → (a < b) ⊎ (b ≤ a)
lt_cases a b = ground arith

quotient_unique : (a b r rest : ℕ) → rest < r → a * r + rest ≡ b * r → (a ≡ b) × (rest ≡ 0)
quotient_unique a b r rest small e = elim (lt_cases a b) [
  | inl less ↦ absurd (omega (arith, mul_lt a b r less))
  | inr more ↦ elim (lt_cases b a) [
    | inl greater ↦ absurd (omega (arith, mul_lt b a r greater))
    | inr le ↦ let same : a ≡ b = omega arith in (same, omega (arith, ap (λ (t : ℕ). t * r) same))
  ]
]

rest_balance :
    (out phase rate held start n m k : ℕ)
    → out * rate + phase ≡ (0 * 160 + held) * rate + start + n * 8000
    → rate ≡ 50 * m
    → held ≡ 0
    → start ≡ 0
    → n ≡ k * m
    → out * (50 * m) + phase ≡ k * 160 * (50 * m)
rest_balance out phase rate held start n m k e r h s c = omega (
  arith,
  subst (λ x. out * x + phase ≡ (0 * 160 + held) * x + start + n * 8000) r e,
  ap (λ (t : ℕ). t * (50 * m)) h,
)

-- Started at rest on a device of `50 * m` samples a second (44100 and 48000 are such rates), from
-- 8000 up to less than 2 ^ 32 - 8000, with a channel at least, the assembler makes exactly `k`
-- frames of `k` times 20 ms of sound, and is at rest again.
pub push_interleaved_whole :
    (fl : Float) (c : CaptureFrameAssembler) (samples : List fl.F32) (m k : ℕ)
    → IsReady c
    → c.phase ≡ 0
    → c.frame ≡ []
    → c.input_rate ≡ 50 * m
    → length samples ≡ k * m * c.channels
    → (q : Progress) × (push_interleaved_f32 fl c samples ≡ some q)
      × (length q.1 ≡ k)
      × (q.0.phase ≡ 0)
      × (q.0.frame ≡ [])
push_interleaved_whole fl c samples m k r rest_phase rest_frame rate size =
    let (n, rest, q, cut, small, done, p) = push_interleaved-Progressed fl c samples r in
    let n_is : n ≡ k * m = (quotient_unique n (k * m) c.channels rest small (sym cut ∙ size)).0 in
    let phase_small : q.0.phase < 50 * m = omega (arith, p.ready.phase_in, p.same_rate, rate) in
    let balance : samples_out q * (50 * m) + q.0.phase ≡ k * 160 * (50 * m) =
      rest_balance (samples_out q) q.0.phase c.input_rate (length c.frame) c.phase n m k p.balance
        rate (ap length rest_frame) rest_phase n_is in
    let (out, phase) =
      quotient_unique (samples_out q) (k * 160) (50 * m) q.0.phase phase_small balance in
    (
      q,
      done,
      omega (arith, out, p.ready.partial),
      phase,
      length-eq-zero q.0.frame (omega (arith, out, p.ready.partial)),
    )
