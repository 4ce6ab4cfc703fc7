-- ===== src/Audio/Queue.antt =====
-- crates/incomudon-audio/src/lib.rs: `FrameQueue`. The `u64` counter wraps, as in a release build.
use incom_udon_native_rust.Base.{
  ℕ, List, [], ◌∷◌, ◌++◌, Option, none, some, Bool, true, false, not, ltb, ◌==◌, if◌then◌else◌,
  length,
}
use incom_udon_native_rust.Base.Words.{wrapping_add64}

-- `VecDeque::pop_front`, without and with its result
abbrev pub pop_front {ℓ} : {A : Type ℓ} → List A → List A
pop_front [] = []
pop_front (x ∷ xs) = xs

abbrev pub front {ℓ} : {A : Type ℓ} → List A → Option A
front [] = none
front (x ∷ xs) = some x

pub record FrameQueue {ℓ} (A : Type ℓ) : Type ℓ where
  pub frames : List A
  pub capacity : ℕ
  pub dropped_frames : ℕ

module _ {ℓ} {A : Type ℓ} where
  -- `none` is the failed assertion.
  unfoldable pub new : ℕ → Option (FrameQueue A)
  new capacity =
      if not (ltb 0 capacity)
      then none
      else some (record { frames = []; capacity = capacity; dropped_frames = 0 })

  unfoldable pub push_latest : FrameQueue A → A → FrameQueue A
  push_latest q frame =
      let q' =
        (if length q.frames == q.capacity
          then record q {
            frames = pop_front q.frames;
            dropped_frames = wrapping_add64 q.dropped_frames 1;
          }
          else q) in
      record q' { frames = q'.frames ++ frame ∷ [] }

  unfoldable pub pop : FrameQueue A → Option A × FrameQueue A
  pop q = (front q.frames, record q { frames = pop_front q.frames })

  unfoldable pub len : FrameQueue A → ℕ
  len q = length q.frames

  abbrev is_nil : List A → Bool
  is_nil [] = true
  is_nil (x ∷ xs) = false

  unfoldable pub is_empty : FrameQueue A → Bool
  is_empty q = is_nil q.frames

-- A producer's and a consumer's calls in order, with what the consumer was given.
pub data QueueOp {ℓ} (A : Type ℓ) : Type ℓ where
  push : A → QueueOp A
  take_next : QueueOp A

unfoldable pub run {ℓ} :
    {A : Type ℓ} → FrameQueue A → List (QueueOp A) → List (Option A) × FrameQueue A
run q [] = ([], q)
run q (push x ∷ ops) = run (push_latest q x) ops
run q (take_next ∷ ops) = let (got, q') = pop q in let (outs, q'') = run q' ops in (got ∷ outs, q'')
