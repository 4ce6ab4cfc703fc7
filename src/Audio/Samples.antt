-- ===== src/Audio/Samples.antt =====
-- crates/incomudon-audio/src/lib.rs: a stand-in for `f32`, for evaluation: whole numbers.
use incom_udon_native_rust.Base.{ℕ, ◌+◌, ◌%◌, List, [], ◌∷◌, arith}
use incom_udon_native_rust.Base.Words.{u16_mod}
use incom_udon_native_rust.Audio.Capture.{Float}

-- Every sample is its bit pattern.
abbrev pub ints : Float
ints = record {
  F32 = ℕ;
  sum = total;
  div = λ a b. a;
  mul = λ a b. a;
  clamp = λ x low high. x;
  round = λ x. x;
  of_nat = λ n. n;
  neg = λ x. x;
  to_i16 = λ x. x % u16_mod;
  to_i16-lt = λ x. omega arith;
}
  where
    total : List ℕ → ℕ
    total [] = 0
    total (x ∷ xs) = x + total xs
