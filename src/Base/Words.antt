-- ===== src/Base/Words.antt =====
-- Unsigned machine words as native numbers, and their big- and little-endian bytes
-- (`to_be_bytes`, `from_be_bytes`, `to_le_bytes`, `from_le_bytes`).
use Prim.Native.Nat.{ℕ, ◌+◌, ◌*◌, ◌/◌, ◌%◌, ◌^◌, ◌<◌}
use mathlib.Core.Path.{◌≡◌}
use mathlib.Core.List.{List, [], ◌∷◌, ◌++◌}
use native.Mathlib.Omega.{arith}
use incom_udon_native_rust.Base.Lists.{All}

abbrev pub u8_mod : ℕ
u8_mod = 2 ^ 8

abbrev pub u16_mod : ℕ
u16_mod = 2 ^ 16

abbrev pub u32_mod : ℕ
u32_mod = 2 ^ 32

abbrev pub u64_mod : ℕ
u64_mod = 2 ^ 64

-- Every element is a byte.
abbrev pub IsBytes : List ℕ → Type 0
IsBytes = All (λ b. b < 256)

-- `wrapping_add`
abbrev pub wrapping_add16 : ℕ → ℕ → ℕ
wrapping_add16 a b = (a + b) % u16_mod

abbrev pub wrapping_add64 : ℕ → ℕ → ℕ
wrapping_add64 a b = (a + b) % u64_mod

abbrev pub be16 : ℕ → List ℕ
be16 w = w / 256 % 256 ∷ w % 256 ∷ []

abbrev pub be32 : ℕ → List ℕ
be32 w = w / 2 ^ 24 % 256 ∷ w / 2 ^ 16 % 256 ∷ w / 256 % 256 ∷ w % 256 ∷ []

abbrev pub be64 : ℕ → List ℕ
be64 w = be32 (w / 2 ^ 32) ++ be32 w

abbrev pub from_be16 : ℕ → ℕ → ℕ
from_be16 a b = a * 256 + b

abbrev pub from_be32 : ℕ → ℕ → ℕ → ℕ → ℕ
from_be32 a b c d = a * 2 ^ 24 + b * 2 ^ 16 + c * 256 + d

abbrev pub from_be64 : ℕ → ℕ → ℕ → ℕ → ℕ → ℕ → ℕ → ℕ → ℕ
from_be64 a b c d e f g h = from_be32 a b c d * 2 ^ 32 + from_be32 e f g h

pub from_be16_lem : (w : ℕ) → w < u16_mod → from_be16 (w / 256 % 256) (w % 256) ≡ w
from_be16_lem w h = omega arith

pub from_be32_lem :
    (w : ℕ)
    → w < u32_mod
    → from_be32 (w / 2 ^ 24 % 256) (w / 2 ^ 16 % 256) (w / 256 % 256) (w % 256) ≡ w
from_be32_lem w h = omega arith

pub from_be64_lem :
    (w : ℕ)
    → w < u64_mod
    → from_be64
        (w / 2 ^ 32 / 2 ^ 24 % 256)
        (w / 2 ^ 32 / 2 ^ 16 % 256)
        (w / 2 ^ 32 / 256 % 256)
        (w / 2 ^ 32 % 256)
        (w / 2 ^ 24 % 256)
        (w / 2 ^ 16 % 256)
        (w / 256 % 256)
        (w % 256)
      ≡ w
from_be64_lem w h = omega arith

module _ (a b : ℕ) (ha : a < 256) (hb : b < 256) where
  pub be16-from_be16 : be16 (from_be16 a b) ≡ a ∷ b ∷ []
  be16-from_be16 = ground arith

  pub from_be16-lt : from_be16 a b < u16_mod
  from_be16-lt = omega arith

module _ (a b c d : ℕ) (ha : a < 256) (hb : b < 256) (hc : c < 256) (hd : d < 256) where
  pub be32-from_be32 : be32 (from_be32 a b c d) ≡ a ∷ b ∷ c ∷ d ∷ []
  be32-from_be32 = ground arith

  pub from_be32-lt : from_be32 a b c d < u32_mod
  from_be32-lt = omega arith
