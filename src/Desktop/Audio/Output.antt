-- ===== src/Desktop/Audio/Output.antt =====
-- apps/desktop/src/desktop_audio.rs: the rate of the output callback, and the capture channel.
use incom_udon_native_rust.Base.{
  ℕ, zero, suc, ◌+◌, ◌-◌, ◌*◌, ◌/◌, ◌^◌, ◌≤◌, ◌<◌, List, [], ◌∷◌, ◌++◌, leb, min, length, replicate,
  drop, ◌≡◌, refl, sym, ap, ◌∙◌, inl, inr, Bool-cases, arith, length-append, length-replicate,
  drop-drop, take, take_all, take-append_take, length-take, take-append_of_length, append_assoc,
  append-nil, List, some, length-drop, drop-append_of_length,
}
use incom_udon_native_rust.Audio.Pcm.{pcm_sample_rate}
use incom_udon_native_rust.Audio.Queue.{pop_front}
use incom_udon_native_rust.Audio.Playback.{PlaybackBuffer, pop_sample}
use incom_udon_native_rust.Audio.Capture.{Float}
use incom_udon_native_rust.Desktop.Audio.{
  OutputState, output_frame, output_device_frames, output_frames, capture_queue_capacity,
  send_frame, send_frames,
}

pop_front-drop {ℓ} : {A : Type ℓ} (xs : List A) → pop_front xs ≡ drop 1 xs
pop_front-drop [] = refl
pop_front-drop (x ∷ xs) = refl

module _ (fl : Float) (scaled : ℕ → fl.F32) (output_rate : ℕ) where
  -- The state that the callback reaches: the phase is below the rate.
  pub record IsReady (s : OutputState fl) : Type 0 where
    pub rate_enough : pcm_sample_rate ≤ output_rate
    pub rate_fits : output_rate + pcm_sample_rate < 2 ^ 32
    pub phase_in : s.phase < output_rate

  -- From `s` and `b`, after `n` device frames and `popped` samples taken.
  pub record Played (n popped : ℕ) (s : OutputState fl) (b : PlaybackBuffer) (s' : OutputState fl)
      (b' : PlaybackBuffer) : Type 0 where
    pub ready : IsReady s'
    pub balance : popped * output_rate + s'.phase ≡ s.phase + n * pcm_sample_rate
    pub taken : b'.samples ≡ drop popped b.samples
    pub same_capacity : b'.capacity_samples ≡ b.capacity_samples
    pub same_dropped : b'.dropped_samples ≡ b.dropped_samples

  output_frame-Played :
      (s : OutputState fl) (b : PlaybackBuffer)
      → IsReady s
      → (popped : ℕ) × Played 1 popped s b
          (output_frame fl scaled output_rate s b).0
          (output_frame fl scaled output_rate s b).1
  unfolding output_frame pop_sample
  output_frame-Played s b r =
      elim (Bool-cases (leb output_rate (min (s.phase + pcm_sample_rate) (2 ^ 32 - 1)))) [
        | inl due ↦ (
          1,
          rw due (record {
            ready = record {
              rate_enough = r.rate_enough;
              rate_fits = r.rate_fits;
              phase_in = ground (arith, r.phase_in, r.rate_enough, r.rate_fits);
            };
            balance = ground (arith, r.phase_in, r.rate_enough, r.rate_fits);
            taken = pop_front-drop b.samples;
            same_capacity = refl;
            same_dropped = refl;
          }),
        )
        | inr early ↦ (
          0,
          rw early (record {
            ready = record {
              rate_enough = r.rate_enough;
              rate_fits = r.rate_fits;
              phase_in = ground (arith, r.phase_in, r.rate_enough, r.rate_fits);
            };
            balance = ground (arith, r.phase_in, r.rate_enough, r.rate_fits);
            taken = refl;
            same_capacity = refl;
            same_dropped = refl;
          }),
        )
      ]

  compose :
      (n p q : ℕ) {s s' s'' : OutputState fl} {b b' b'' : PlaybackBuffer}
      → Played 1 p s b s' b'
      → Played n q s' b' s'' b''
      → Played (suc n) (p + q) s b s'' b''
  compose n p q {s} {s'} {s''} {b} {b'} {b''} first later = record {
    ready = later.ready;
    balance = grind (arith, first.balance, later.balance);
    taken = later.taken ∙ ap (drop q) first.taken ∙ drop-drop q p b.samples;
    same_capacity = later.same_capacity ∙ first.same_capacity;
    same_dropped = later.same_dropped ∙ first.same_dropped;
  }

  output_device_frames-Played :
      {T : Type 0} (from_sample : fl.F32 → T) (channels n : ℕ) (s : OutputState fl)
      (b : PlaybackBuffer)
      → IsReady s
      → (popped : ℕ) × Played n popped s b
          (output_device_frames fl scaled output_rate from_sample channels n s b).1
          (output_device_frames fl scaled output_rate from_sample channels n s b).2
        × (length (output_device_frames fl scaled output_rate from_sample channels n s b).0
            ≡ n * channels)
  unfolding output_device_frames
  output_device_frames-Played from_sample channels zero s b r = (
    0,
    record {
      ready = r;
      balance = omega arith;
      taken = refl;
      same_capacity = refl;
      same_dropped = refl;
    },
    omega arith,
  )
  output_device_frames-Played from_sample channels (suc n) s b r =
      let (s', b') = output_frame fl scaled output_rate s b in
      let (p, first) = output_frame-Played s b r in
      let (q, later, size) = output_device_frames-Played from_sample channels n s' b' first.ready in
      (p + q, compose n p q first later, written-size from_sample channels n s' b' size)
    where
      written-size :
          {T : Type 0} (from_sample : fl.F32 → T) (channels n : ℕ) (s' : OutputState fl)
          (b' : PlaybackBuffer)
          → length (output_device_frames fl scaled output_rate from_sample channels n s' b').0
            ≡ n * channels
          → length (
              replicate channels (from_sample s'.current_sample)
              ++ (output_device_frames fl scaled output_rate from_sample channels n s' b').0)
            ≡ suc n * channels
      written-size from_sample channels n s' b' e = grind (
        arith,
        e,
        length-append (replicate channels (from_sample s'.current_sample))
            (output_device_frames fl scaled output_rate from_sample channels n s' b').0,
        length-replicate channels (from_sample s'.current_sample),
      )

  -- The output callback at a device rate from 8000 up to less than 2 ^ 32 - 8000, with its phase
  -- below the rate and at least one channel: it does not panic, leaves the size of the device's
  -- buffer and the samples behind the last whole device frame, stays in such a state, and asks the
  -- playback buffer for its oldest sample so often that the rate is converted exactly: the times
  -- it asks, times the rate, plus the new phase, are the old phase plus 8000 for each device frame
  -- of the buffer. As many samples are gone from the front of the playback buffer, as far as there
  -- were any; its capacity and its count of drops stay.
  pub output_frames-Played :
      {T : Type 0} (from_sample : fl.F32 → T) (channels : ℕ) (samples : List T) (s : OutputState fl)
      (b : PlaybackBuffer)
      → IsReady s
      → 1 ≤ channels
      → (popped : ℕ) × (written : List T) × (s' : OutputState fl) × (b' : PlaybackBuffer)
        × (output_frames fl scaled output_rate from_sample channels samples s b
            ≡ some (written, s', b'))
        × Played (length samples / channels) popped s b s' b'
        × (length written ≡ length samples)
        × (drop (length samples / channels * channels) written
            ≡ drop (length samples / channels * channels) samples)
  unfolding output_frames
  output_frames-Played from_sample zero samples s b r some_channel =
      absurd (omega (arith, some_channel))
  output_frames-Played from_sample (suc channels) samples s b r some_channel =
      let n = length samples / suc channels in
      let (written, s', b') =
        output_device_frames fl scaled output_rate from_sample (suc channels) n s b in
      let (popped, played, size) = output_device_frames-Played from_sample (suc channels) n s b r in
      let rest = drop (n * suc channels) samples in
      let fits : n * suc channels ≤ length samples = omega (arith, some_channel) in
      (
        popped,
        written ++ rest,
        s',
        b',
        refl,
        played,
        omega
            (arith, length-append written rest, size, length-drop (n * suc channels) samples, fits),
        drop-append_of_length (n * suc channels) written rest size,
      )

send_frame-take :
    (queue : List (List ℕ)) (frame : List ℕ)
    → length queue ≤ capture_queue_capacity
    → send_frame queue frame ≡ take capture_queue_capacity (queue ++ frame ∷ [])
unfolding send_frame
send_frame-take queue frame h = elim (Bool-cases (leb capture_queue_capacity (length queue))) [
  | inl full ↦
      rw full (sym (take-append_of_length capture_queue_capacity queue (frame ∷ []) (ground arith)))
  | inr room ↦ rw room (
      sym (
        take_all capture_queue_capacity (queue ++ frame ∷ [])
          (ground (arith, length-append queue (frame ∷ [])))))
]

-- The capture channel keeps the oldest frames: with at most eight in it, any frames that the
-- callback emits are appended, and what is beyond eight is lost.
pub send_frames-take :
    (queue frames : List (List ℕ))
    → length queue ≤ capture_queue_capacity
    → send_frames queue frames ≡ take capture_queue_capacity (queue ++ frames)
unfolding send_frames
send_frames-take queue [] h =
    sym (
      ap (take capture_queue_capacity) (append-nil queue) ∙ take_all capture_queue_capacity queue h)
send_frames-take queue (frame ∷ frames) h =
    let sent = send_frame-take queue frame h in
    send_frames-take (send_frame queue frame) frames
      (rw sent (ground (arith, length-take capture_queue_capacity (queue ++ frame ∷ []))))
    ∙ ap (λ q. take capture_queue_capacity (q ++ frames)) sent
    ∙ take-append_take capture_queue_capacity (queue ++ frame ∷ []) frames
    ∙ ap (take capture_queue_capacity) (append_assoc queue (frame ∷ []) frames)
