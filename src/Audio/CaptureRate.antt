-- ===== src/Audio/CaptureRate.antt =====
-- crates/incomudon-audio/src/lib.rs: the states that `CaptureFrameAssembler` reaches, and its
-- conversion of the sample rate.
use incom_udon_native_rust.Base.{
  ℕ, suc, ◌+◌, ◌-◌, ◌*◌, ◌^◌, ◌≤◌, ◌<◌, min, List, [], ◌∷◌, ◌++◌, some, ltb, length, All,
  All-append, ◌≡◌, refl, ap, ◌∙◌, arith, length-append, inl, inr, Bool-cases, tests, ==_iff, lt→==,
  subst,
}
use incom_udon_native_rust.Audio.Pcm.{
  pcm_sample_rate, pcm_frame_samples, pcm_frame_bytes, encode_pcm_frame, sample_bytes,
}
use incom_udon_native_rust.Audio.PcmRoundTrip.{length-sample_bytes}
use incom_udon_native_rust.Audio.Capture.{
  Float, CaptureFrameAssembler, Progress, push_sample, float_to_i16, push_device_frame,
  push_device_frames,
}

-- A device that delivers at least 8000 samples a second; phase and frame are at rest.
pub record IsReady (c : CaptureFrameAssembler) : Type 0 where
  pub rate_enough : pcm_sample_rate ≤ c.input_rate
  pub rate_fits : c.input_rate + pcm_sample_rate < 2 ^ 32
  pub has_channels : 0 < c.channels
  pub phase_in : c.phase < c.input_rate
  pub partial : length c.frame < pcm_frame_samples

-- the samples at 8 kHz that are in complete frames or in the current one
abbrev pub samples_out : Progress → ℕ
samples_out p = length p.1 * pcm_frame_samples + length p.0.frame

-- `q` is what `n` device frames make of `p`.
pub record Progressed (p : Progress) (n : ℕ) (q : Progress) : Type 0 where
  pub ready : IsReady q.0
  pub same_rate : q.0.input_rate ≡ p.0.input_rate
  pub same_channels : q.0.channels ≡ p.0.channels
  pub balance :
      samples_out q * p.0.input_rate + q.0.phase
      ≡ samples_out p * p.0.input_rate + p.0.phase + n * pcm_sample_rate
  pub sizes : All (λ frame. length frame ≡ pcm_frame_bytes) q.1

encode_pcm_frame-some :
    (samples : List ℕ)
    → length samples ≡ pcm_frame_samples
    → (bytes : List ℕ) × (encode_pcm_frame samples ≡ some bytes) × (length bytes ≡ pcm_frame_bytes)
unfolding encode_pcm_frame
encode_pcm_frame-some samples e = (
  sample_bytes samples,
  rw ((==_iff (length samples) pcm_frame_samples).1 e),
  omega (arith, length-sample_bytes samples),
)

push_sample-full :
    (c : CaptureFrameAssembler) (sample : ℕ) (done : List (List ℕ))
    → length (c.frame ++ sample ∷ []) ≡ pcm_frame_samples
    → (bytes : List ℕ) × (push_sample c sample done
        ≡ some (record c { frame = [] }, done ++ bytes ∷ []))
      × (length bytes ≡ pcm_frame_bytes)
unfolding push_sample
push_sample-full c sample done e =
    let (bytes, e1, e2) = encode_pcm_frame-some (c.frame ++ sample ∷ []) e in
    (bytes, rw ((==_iff (length (c.frame ++ sample ∷ [])) pcm_frame_samples).1 e, e1), e2)

push_sample-partial :
    (c : CaptureFrameAssembler) (sample : ℕ) (done : List (List ℕ))
    → length (c.frame ++ sample ∷ []) < pcm_frame_samples
    → push_sample c sample done ≡ some (record c { frame = c.frame ++ sample ∷ [] }, done)
unfolding push_sample
push_sample-partial c sample done lt =
    rw (lt→== (length (c.frame ++ sample ∷ [])) pcm_frame_samples lt)

-- A sample pushed by a device frame: one more sample is out.
push_sample-Progressed :
    (p : Progress) (phase sample : ℕ)
    → IsReady p.0
    → All (λ frame. length frame ≡ pcm_frame_bytes) p.1
    → phase + p.0.input_rate ≡ p.0.phase + pcm_sample_rate
    → (q : Progress) × (push_sample (record p.0 { phase = phase }) sample p.1 ≡ some q)
      × Progressed p 1 q
push_sample-Progressed p phase sample r s e =
    elim (Bool-cases (ltb (length p.0.frame + 1) pcm_frame_samples)) [
      | inl room ↦ (
        (record p.0 { phase = phase; frame = p.0.frame ++ sample ∷ [] }, p.1),
        push_sample-partial (record p.0 { phase = phase }) sample p.1
            (omega (tests, length-append p.0.frame (sample ∷ []))),
        record {
          ready = record {
            rate_enough = r.rate_enough;
            rate_fits = r.rate_fits;
            has_channels = r.has_channels;
            phase_in = omega arith;
            partial = omega (tests, length-append p.0.frame (sample ∷ []));
          };
          same_rate = refl;
          same_channels = refl;
          balance = omega (
            arith,
            length-append p.0.frame (sample ∷ []),
            ap (λ (t : ℕ). t * p.0.input_rate) (length-append p.0.frame (sample ∷ [])),
          );
          sizes = s;
        },
      )
      | inr last ↦
          let (bytes, e1, e2) =
            push_sample-full (record p.0 { phase = phase }) sample p.1
              (omega (tests, r.partial, length-append p.0.frame (sample ∷ []))) in
          let filled : length p.0.frame ≡ 159 = omega (tests, r.partial) in
          (
            (record p.0 { phase = phase; frame = [] }, p.1 ++ bytes ∷ []),
            e1,
            record {
              ready = record {
                rate_enough = r.rate_enough;
                rate_fits = r.rate_fits;
                has_channels = r.has_channels;
                phase_in = omega arith;
                partial = omega arith;
              };
              same_rate = refl;
              same_channels = refl;
              balance = omega (
                arith,
                ap (λ (t : ℕ). t * p.0.input_rate) filled,
                ap (λ (t : ℕ). t * 160 * p.0.input_rate) (length-append p.1 (bytes ∷ [])),
              );
              sizes = All-append _ p.1 (bytes ∷ []) s (e2, tt);
            },
          )
    ]

balance_trans :
    (p q t : Progress) (n : ℕ)
    → Progressed p 1 q
    → Progressed q n t
    → samples_out t * p.0.input_rate + t.0.phase
      ≡ samples_out p * p.0.input_rate + p.0.phase + suc n * pcm_sample_rate
balance_trans p q t n one more =
    let back : samples_out t * p.0.input_rate + t.0.phase
        ≡ samples_out q * p.0.input_rate + q.0.phase + n * pcm_sample_rate =
      subst
        (λ r. samples_out t * r + t.0.phase ≡ samples_out q * r + q.0.phase + n * pcm_sample_rate)
        one.same_rate more.balance in
    omega (arith, back, one.balance)

module _ (fl : Float) where
  push_device_frame-Progressed :
      (p : Progress) (d : List fl.F32)
      → IsReady p.0
      → All (λ frame. length frame ≡ pcm_frame_bytes) p.1
      → (q : Progress) × (push_device_frame fl p.0 d p.1 ≡ some q) × Progressed p 1 q
  unfolding push_device_frame
  push_device_frame-Progressed p d r s =
      elim (Bool-cases (ltb (min (p.0.phase + pcm_sample_rate) (2 ^ 32 - 1)) p.0.input_rate)) [
        | inl skip ↦ (
          (record p.0 { phase = min (p.0.phase + pcm_sample_rate) (2 ^ 32 - 1) }, p.1),
          rw skip,
          record {
            ready = record {
              rate_enough = r.rate_enough;
              rate_fits = r.rate_fits;
              has_channels = r.has_channels;
              phase_in = omega tests;
              partial = r.partial;
            };
            same_rate = refl;
            same_channels = refl;
            balance = omega (tests, r.rate_fits, r.phase_in);
            sizes = s;
          },
        )
        | inr take ↦ rw take (
            push_sample-Progressed p
              (min (p.0.phase + pcm_sample_rate) (2 ^ 32 - 1) - p.0.input_rate)
              (float_to_i16 fl (fl.div (fl.sum d) (fl.of_nat p.0.channels))) r s
              (omega (tests, r.rate_fits, r.phase_in)))
      ]

  pub push_device_frames-Progressed :
      (ds : List (List fl.F32)) (p : Progress)
      → IsReady p.0
      → All (λ frame. length frame ≡ pcm_frame_bytes) p.1
      → (q : Progress) × (push_device_frames fl p.0 ds p.1 ≡ some q) × Progressed p (length ds) q
  unfolding push_device_frames
  push_device_frames-Progressed [] p r s = (
    p,
    refl,
    record { ready = r; same_rate = refl; same_channels = refl; balance = omega arith; sizes = s },
  )
  push_device_frames-Progressed (d ∷ ds) p r s =
      let (q, e1, one) = push_device_frame-Progressed p d r s in
      let (t, e2, more) = push_device_frames-Progressed ds q one.ready one.sizes in
      (
        t,
        rw e1 e2,
        record {
          ready = more.ready;
          same_rate = more.same_rate ∙ one.same_rate;
          same_channels = more.same_channels ∙ one.same_channels;
          balance = balance_trans p q t (length ds) one more;
          sizes = more.sizes;
        },
      )
