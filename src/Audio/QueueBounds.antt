-- ===== src/Audio/QueueBounds.antt =====
-- crates/incomudon-audio/src/lib.rs: the bounds of `FrameQueue`, what it keeps, and its count of
-- dropped frames.
use incom_udon_native_rust.Base.{
  ℕ, suc, ◌+◌, ◌-◌, ◌%◌, ◌≤◌, ◌<◌, List, [], ◌∷◌, ◌++◌, Option, none, some, length, ◌≡◌, refl, sym,
  ap, ◌∙◌, arith, length-append, drop, ==_iff, lt→==, ◌⊎◌, inl, inr,
}
use incom_udon_native_rust.Base.Words.{wrapping_add64, u64_mod}
use incom_udon_native_rust.Audio.Windows.{last, last_all}
use incom_udon_native_rust.Audio.Queue.{
  FrameQueue, new, push_latest, pop, pop_front, front, QueueOp, push, take_next, run,
}

pub record IsBounded {ℓ} {A : Type ℓ} (q : FrameQueue A) : Type 0 where
  pub non_zero : 0 < q.capacity
  pub within : length q.frames ≤ q.capacity
  pub counter_u64 : q.dropped_frames < u64_mod

module _ {ℓ} {A : Type ℓ} where
  length-pop_front : (xs : List A) → length (pop_front xs) ≡ length xs - 1
  length-pop_front [] = omega arith
  length-pop_front (x ∷ xs) = omega arith

  pop_front-append : (xs ys : List A) → 0 < length xs → pop_front xs ++ ys ≡ drop 1 (xs ++ ys)
  pop_front-append [] ys h = absurd (omega arith)
  pop_front-append (x ∷ xs) ys h = refl

  -- The two branches of `push_latest`.
  push_latest-full :
      (q : FrameQueue A) (x : A)
      → length q.frames ≡ q.capacity
      → push_latest q x ≡ record q {
        frames = pop_front q.frames ++ x ∷ [];
        dropped_frames = wrapping_add64 q.dropped_frames 1;
      }
  unfolding push_latest
  push_latest-full q x e = rw ((==_iff (length q.frames) q.capacity).1 e)

  push_latest-room :
      (q : FrameQueue A) (x : A)
      → length q.frames < q.capacity
      → push_latest q x ≡ record q { frames = q.frames ++ x ∷ [] }
  unfolding push_latest
  push_latest-room q x lt = rw (lt→== (length q.frames) q.capacity lt)

  module _ (q : FrameQueue A) (x : A) (b : IsBounded q) where
    full_or_room : (length q.frames ≡ q.capacity) ⊎ (length q.frames < q.capacity)
    full_or_room = ground (arith, b.within)

    capacity-push_latest : (push_latest q x).capacity ≡ q.capacity
    capacity-push_latest = elim full_or_room [
      | inl full ↦ rw (push_latest-full q x full)
      | inr room ↦ rw (push_latest-room q x room)
    ]

    frames-push_latest : (push_latest q x).frames ≡ last q.capacity (q.frames ++ x ∷ [])
    frames-push_latest = elim full_or_room [
      | inl full ↦ rw (push_latest-full q x full) (
          pop_front-append q.frames (x ∷ []) (omega (arith, b.non_zero))
          ∙ ap (λ k. drop k (q.frames ++ x ∷ [])) {x = 1}
              (omega (arith, length-append q.frames (x ∷ []))))
      | inr room ↦ rw (push_latest-room q x room) (
          sym (
            last_all q.capacity (q.frames ++ x ∷ [])
              (omega (arith, length-append q.frames (x ∷ [])))))
    ]

    -- one more frame is held or counted as dropped
    counts-push_latest :
        (IsBounded (push_latest q x))
        × ((length (push_latest q x).frames ≡ length q.frames + 1)
              × ((push_latest q x).dropped_frames ≡ q.dropped_frames)
            ⊎ (length (push_latest q x).frames ≡ length q.frames)
              × ((push_latest q x).dropped_frames ≡ (q.dropped_frames + 1) % u64_mod))
    counts-push_latest = elim full_or_room [
      | inl full ↦ rw (push_latest-full q x full) (
        record {
          non_zero = b.non_zero;
          within = omega (
            arith,
            length-append (pop_front q.frames) (x ∷ []),
            length-pop_front q.frames,
            b.non_zero,
          );
          counter_u64 = omega arith;
        },
        inr (
          omega (
            arith,
            length-append (pop_front q.frames) (x ∷ []),
            length-pop_front q.frames,
            b.non_zero,
          ),
          refl,
        ),
      )
      | inr room ↦ rw (push_latest-room q x room) (
        record {
          non_zero = b.non_zero;
          within = omega (arith, length-append q.frames (x ∷ []));
          counter_u64 = b.counter_u64;
        },
        inl (omega (arith, length-append q.frames (x ∷ [])), refl),
      )
    ]

  -- The abstract queue: the last `capacity` of the frames that wait.
  unfoldable pub window_run : ℕ → List A → List (QueueOp A) → List (Option A) × List A
  window_run capacity xs [] = ([], xs)
  window_run capacity xs (push x ∷ ops) = window_run capacity (last capacity (xs ++ x ∷ [])) ops
  window_run capacity xs (take_next ∷ ops) =
      let (outs, ys) = window_run capacity (pop_front xs) ops in (front xs ∷ outs, ys)

  pop-IsBounded : (q : FrameQueue A) → IsBounded q → IsBounded (pop q).1
  unfolding pop
  pop-IsBounded q b = record {
    non_zero = b.non_zero;
    within = omega (arith, length-pop_front q.frames, b.within);
    counter_u64 = b.counter_u64;
  }

  -- On a queue within a capacity of at least one, a producer and a consumer, whatever the order of
  -- their calls, see the abstract queue: each pop gives the oldest frame that is still held, and a
  -- push on a full queue loses the oldest one.
  pub run_refines :
      (q : FrameQueue A) (ops : List (QueueOp A))
      → IsBounded q
      → ((run q ops).0, (run q ops).1.frames) ≡ window_run q.capacity q.frames ops
  unfolding run window_run pop
  run_refines q [] b = refl
  run_refines q (push x ∷ ops) b =
      run_refines (push_latest q x) ops (counts-push_latest q x b).0
      ∙ rw (capacity-push_latest q x b, frames-push_latest q x b)
  run_refines q (take_next ∷ ops) b =
      ap (λ (r : List (Option A) × List A). (front q.frames ∷ r.0, r.1))
        (run_refines (pop q).1 ops (pop-IsBounded q b))

abbrev pub pushes {ℓ} : {A : Type ℓ} → List (QueueOp A) → ℕ
pushes [] = 0
pushes (push x ∷ ops) = suc (pushes ops)
pushes (take_next ∷ ops) = pushes ops

abbrev pub count_some {ℓ} : {A : Type ℓ} → Option A → ℕ
count_some none = 0
count_some (some x) = 1

abbrev pub delivered {ℓ} : {A : Type ℓ} → List (Option A) → ℕ
delivered [] = 0
delivered (got ∷ outs) = count_some got + delivered outs

module _ {ℓ} {A : Type ℓ} where
  pop-balance : (xs : List A) → count_some (front xs) + length (pop_front xs) ≡ length xs
  pop-balance [] = refl
  pop-balance (x ∷ xs) = omega arith

  -- From a queue within a capacity of at least one, and after any calls, the queue is within its
  -- capacity, and no frame is unaccounted for: modulo 2 ^ 64, the drops, the frames held and the
  -- frames pushed add up to the drops, the frames held and the frames delivered at the end.
  pub run_balance :
      (q : FrameQueue A) (ops : List (QueueOp A))
      → IsBounded q
      → IsBounded (run q ops).1
        × ((q.dropped_frames + length q.frames + pushes ops) % u64_mod
            ≡ ((run q ops).1.dropped_frames + length (run q ops).1.frames + delivered (run q ops).0)
              % u64_mod)
  unfolding run pop
  run_balance q [] b = (b, omega arith)
  run_balance q (push x ∷ ops) b =
      let (b', counts) = counts-push_latest q x b in
      let (b'', balance) = run_balance (push_latest q x) ops b' in
      (b'', omega (arith, balance, counts))
  run_balance q (take_next ∷ ops) b =
      let (b'', balance) = run_balance (pop q).1 ops (pop-IsBounded q b) in
      (b'', omega (arith, balance, pop-balance q.frames))

  new-IsBounded :
      (capacity : ℕ) {q : FrameQueue A}
      → new capacity ≡ some q
      → IsBounded q × (q.frames ≡ []) × (q.capacity ≡ capacity)
  unfolding new
  new-IsBounded capacity e = ground arith
