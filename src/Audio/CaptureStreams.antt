-- ===== src/Audio/CaptureStreams.antt =====
-- crates/incomudon-audio/src/lib.rs: `push_interleaved_f32` on streams of device buffers.
use incom_udon_native_rust.Base.{
  ℕ, zero, suc, ◌+◌, ◌-◌, ◌*◌, ◌^◌, ◌<◌, min, List, [], ◌∷◌, ◌++◌, Option, none, some, ltb, ◌==◌,
  length, ◌≡◌, refl, sym, ap, ◌∙◌, arith, length-append, Bool-cases, inl, inr, tests, ==_iff, lt→==,
  Option-cases, append_assoc, append-nil, length-eq-zero, take,
}
use incom_udon_native_rust.Audio.Pcm.{pcm_sample_rate, pcm_frame_samples, encode_pcm_frame}
use incom_udon_native_rust.Audio.Capture.{
  Float, ◌>>=◌, chunks_from, chunks_exact, CaptureFrameAssembler, Progress, push_sample,
  float_to_i16, push_device_frame, push_device_frames, push_interleaved_f32,
}
use incom_udon_native_rust.Audio.CaptureRate.{IsReady, Progressed, push_device_frames-Progressed}

module _ {A : Type 0} (n : ℕ) where
  chunks_from-full :
      (held : List A) (x : A) (xs : List A)
      → length held + 1 ≡ n
      → chunks_from n held (x ∷ xs) ≡ (held ++ x ∷ []) ∷ chunks_from n [] xs
  unfolding chunks_from
  chunks_from-full held x xs e =
      rw ((==_iff (length (held ++ x ∷ [])) n).1 (omega (arith, length-append held (x ∷ []))))

  chunks_from-room :
      (held : List A) (x : A) (xs : List A)
      → length held + 1 < n
      → chunks_from n held (x ∷ xs) ≡ chunks_from n (held ++ x ∷ []) xs
  unfolding chunks_from
  chunks_from-room held x xs lt =
      rw (lt→== (length (held ++ x ∷ [])) n (omega (arith, length-append held (x ∷ []))))

  -- As many chunks as go into the list; fewer than `n` elements are left out.
  chunks_from-count :
      (held xs : List A)
      → length held < n
      → (rest : ℕ) × (length held + length xs ≡ length (chunks_from n held xs) * n + rest)
        × (rest < n)
  chunks_from-count held [] lt = (length held, unfold chunks_from in omega arith, lt)
  chunks_from-count held (x ∷ xs) lt = elim (Bool-cases (ltb (length held + 1) n)) [
    | inl room ↦
        let (rest, e, small) =
          chunks_from-count (held ++ x ∷ []) xs (omega (tests, length-append held (x ∷ []))) in
        (
          rest,
          rw (chunks_from-room held x xs (omega tests))
              (omega (arith, e, length-append held (x ∷ []))),
          small,
        )
    | inr last ↦
        let (rest, e, small) = chunks_from-count [] xs (omega arith) in
        (rest, rw (chunks_from-full held x xs (omega tests)) (omega (tests, e)), small)
  ]

  -- Cut at a multiple of `n`, a list has the chunks of its parts.
  chunks_from-append :
      (k : ℕ) (held xs ys : List A)
      → length held < n
      → length held + length xs ≡ k * n
      → chunks_from n held (xs ++ ys) ≡ chunks_from n held xs ++ chunks_from n [] ys
  chunks_from-append zero held [] ys lt e =
      ap (λ h. chunks_from n h ys) (length-eq-zero held (omega arith)) ∙ unfold chunks_from in refl
  chunks_from-append (suc k) held [] ys lt e = absurd (grind arith)
  chunks_from-append zero held (x ∷ xs) ys lt e = absurd (omega arith)
  chunks_from-append (suc k) held (x ∷ xs) ys lt e = elim (Bool-cases (ltb (length held + 1) n)) [
    | inl room ↦
        rw
          (
            chunks_from-room held x xs (omega tests),
            chunks_from-room held x (xs ++ ys) (omega tests),
          )
          (chunks_from-append (suc k) (held ++ x ∷ []) xs ys
            (omega (tests, length-append held (x ∷ [])))
            (omega (arith, length-append held (x ∷ []))))
    | inr last ↦
        rw
          (
            chunks_from-full held x xs (omega tests),
            chunks_from-full held x (xs ++ ys) (omega tests),
          )
          (ap (λ r. (held ++ x ∷ []) ∷ r)
            (chunks_from-append k [] xs ys (omega arith) (omega tests)))
  ]

module _ (fl : Float) where
  push_device_frames-append :
      (ds es : List (List fl.F32)) (c : CaptureFrameAssembler) (done : List (List ℕ))
      → push_device_frames fl c (ds ++ es) done
        ≡ (push_device_frames fl c ds done >>= λ p. push_device_frames fl p.0 es p.1)
  unfolding push_device_frames
  push_device_frames-append [] es c done = refl
  push_device_frames-append (d ∷ ds) es c done =
      elim (Option-cases (push_device_frame fl c d done)) [
        | inl e ↦ rw e
        | inr (p, e) ↦ rw e (push_device_frames-append ds es p.0 p.1)
      ]

  -- Frames that are complete already stand in front of those to come.
  abbrev onto : List (List ℕ) → Progress → Option Progress
  onto done p = some (p.0, done ++ p.1)

  push_sample-onto :
      (c : CaptureFrameAssembler) (sample : ℕ) (done : List (List ℕ))
      → push_sample c sample done ≡ (push_sample c sample [] >>= onto done)
  unfolding push_sample
  push_sample-onto c sample done =
      elim (Bool-cases (length (c.frame ++ sample ∷ []) == pcm_frame_samples)) [
        | inl full ↦ rw full (elim (Option-cases (encode_pcm_frame (c.frame ++ sample ∷ []))) [
          | inl e ↦ rw e
          | inr (bytes, e) ↦ rw e
        ])
        | inr room ↦ rw room (
            ap (λ r. some (record c { frame = c.frame ++ sample ∷ [] }, r)) (sym (append-nil done)))
      ]

  push_device_frame-onto :
      (c : CaptureFrameAssembler) (d : List fl.F32) (done : List (List ℕ))
      → push_device_frame fl c d done ≡ (push_device_frame fl c d [] >>= onto done)
  unfolding push_device_frame
  push_device_frame-onto c d done =
      elim (Bool-cases (ltb (min (c.phase + pcm_sample_rate) (2 ^ 32 - 1)) c.input_rate)) [
        | inl skip ↦ rw skip (
            ap (λ r. some (record c { phase = min (c.phase + pcm_sample_rate) (2 ^ 32 - 1) }, r))
              (sym (append-nil done)))
        | inr take ↦ rw take (
            push_sample-onto
              (record c { phase = min (c.phase + pcm_sample_rate) (2 ^ 32 - 1) - c.input_rate })
              (float_to_i16 fl (fl.div (fl.sum d) (fl.of_nat c.channels))) done)
      ]

  push_device_frames-onto :
      (ds : List (List fl.F32)) (c : CaptureFrameAssembler) (done : List (List ℕ))
      → push_device_frames fl c ds done ≡ (push_device_frames fl c ds [] >>= onto done)
  unfolding push_device_frames
  push_device_frames-onto [] c done = ap (λ r. some (c, r)) (sym (append-nil done))
  push_device_frames-onto (d ∷ ds) c done =
      rw (push_device_frame-onto c d done) (elim (Option-cases (push_device_frame fl c d [])) [
        | inl e ↦ rw e
        | inr (p, e) ↦ rw e (
            push_device_frames-onto ds p.0 (done ++ p.1)
            ∙ regroup p (push_device_frames fl p.0 ds [])
            ∙ ap (λ r. r >>= onto done) (sym (push_device_frames-onto ds p.0 p.1)))
      ])
    where
      regroup :
          (p : Progress) (r : Option Progress)
          → (r >>= onto (done ++ p.1)) ≡ ((r >>= onto p.1) >>= onto done)
      regroup p none = refl
      regroup p (some q) = ap (λ r. some (q.0, r)) (append_assoc done p.1 q.1)

  channels-push_sample :
      (c : CaptureFrameAssembler) (sample : ℕ) (done : List (List ℕ)) (q : Progress)
      → push_sample c sample done ≡ some q
      → q.0.channels ≡ c.channels
  unfolding push_sample
  channels-push_sample c sample done q e = ground arith

  channels-push_device_frame :
      (c : CaptureFrameAssembler) (d : List fl.F32) (done : List (List ℕ)) (q : Progress)
      → push_device_frame fl c d done ≡ some q
      → q.0.channels ≡ c.channels
  unfolding push_device_frame
  channels-push_device_frame c d done q e = ground (
    arith,
    channels-push_sample
        (record c { phase = min (c.phase + pcm_sample_rate) (2 ^ 32 - 1) - c.input_rate })
        (float_to_i16 fl (fl.div (fl.sum d) (fl.of_nat c.channels))) done q,
  )

  channels-push_device_frames :
      (ds : List (List fl.F32)) (c : CaptureFrameAssembler) (done : List (List ℕ)) (q : Progress)
      → push_device_frames fl c ds done ≡ some q
      → q.0.channels ≡ c.channels
  unfolding push_device_frames
  channels-push_device_frames [] c done q e = cc
  channels-push_device_frames (d ∷ ds) c done q e =
      elim (Option-cases (push_device_frame fl c d done)) [
        | inl none_left ↦ cc
        | inr (p, e') ↦
            channels-push_device_frames ds p.0 p.1 q (rw e' at e)
            ∙ channels-push_device_frame c d done p e'
      ]

  -- It does not matter how the device cuts its stream into buffers, so long as there is a channel
  -- and it cuts between device frames: two buffers leave the state and the frames of the joined
  -- buffer.
  pub push_interleaved-append :
      (c : CaptureFrameAssembler) (xs ys : List fl.F32) (k : ℕ)
      → 0 < c.channels
      → length xs ≡ k * c.channels
      → push_interleaved_f32 fl c (xs ++ ys) ≡ (
          push_interleaved_f32 fl c xs >>= λ p.
          push_interleaved_f32 fl p.0 ys >>= λ q. some (q.0, p.1 ++ q.1))
  unfolding push_interleaved_f32 chunks_exact
  push_interleaved-append c xs ys k h e =
      ap (λ ds. push_device_frames fl c ds [])
        (chunks_from-append c.channels k [] xs ys h (omega arith))
      ∙ push_device_frames-append (chunks_exact c.channels xs) (chunks_exact c.channels ys) c []
      ∙ elim (Option-cases (push_device_frames fl c (chunks_exact c.channels xs) [])) [
        | inl e ↦ rw e
        | inr (p, e) ↦ rw e (
            push_device_frames-onto (chunks_exact c.channels ys) p.0 p.1
            ∙ ap (λ n. push_device_frames fl p.0 (chunks_exact n ys) [] >>= onto p.1)
                (sym (channels-push_device_frames (chunks_exact c.channels xs) c [] p e)))
      ]

  -- An assembler with a channel at least, a device rate from 8000 up to less than 2 ^ 32 - 8000,
  -- its phase below the rate and less than a frame gathered never panics on a buffer of `n` whole
  -- device frames and a rest, which is left out. All frames that it emits have 320 bytes, it stays
  -- such an assembler, and the rate is converted exactly: samples at 8 kHz times the rate, plus
  -- the phase, grow by 8000 for each device frame.
  pub push_interleaved-Progressed :
      (c : CaptureFrameAssembler) (samples : List fl.F32)
      → IsReady c
      → (n : ℕ) × (rest : ℕ) × (q : Progress) × (length samples ≡ n * c.channels + rest)
        × (rest < c.channels)
        × (push_interleaved_f32 fl c samples ≡ some q)
        × Progressed (c, []) n q
  unfolding push_interleaved_f32 chunks_exact
  push_interleaved-Progressed c samples r =
      let (rest, e, small) = chunks_from-count c.channels [] samples r.has_channels in
      let (q, done, p) =
        push_device_frames-Progressed fl (chunks_exact c.channels samples) (c, []) r tt in
      (length (chunks_exact c.channels samples), rest, q, omega (arith, e), small, done, p)
