-- ===== src/Base/Decimal.antt =====
-- Rust's decimal text of a `u32`: `to_string` and `parse::<u32>`.
use Prim.Native.Nat.{ℕ, zero, suc, ◌+◌, ◌-◌, ◌*◌, ◌/◌, ◌%◌, ◌^◌, ◌≤◌, ◌<◌}
use mathlib.Core.Path.{◌≡◌, refl, ap, ◌∙◌, sym}
use mathlib.Core.Logic.{inl, inr}
use mathlib.Core.Bool.{Bool, ◌&&◌}
use mathlib.Core.Option.{Option, none, some}
use mathlib.Core.List.{[], ◌∷◌, ◌++◌}
use native.Mathlib.Omega.{arith}
use incom_udon_native_rust.Base.Tests.{Bool-cases, leb, ltb, ◌==◌, if◌then◌else◌}
use incom_udon_native_rust.Base.Lists.{length, length-append}
use incom_udon_native_rust.Base.Text.{Text}

-- the digits of a number below 10 ^ fuel
unfoldable pub to_digits : ℕ → ℕ → Text
to_digits zero n = []
to_digits (suc fuel) n =
    let front = to_digits fuel (n / 10) in
    if ltb n 10 then (b'0' + n) ∷ [] else front ++ (b'0' + n % 10) ∷ []

-- A `u32` has ten digits at most.
unfoldable pub to_string : ℕ → Text
to_string n = to_digits 10 n

abbrev digit_fits : ℕ → ℕ → Bool
digit_fits acc c = leb b'0' c && leb c b'9' && ltb (acc * 10 + (c - b'0')) (2 ^ 32)

-- the digits behind `acc`, with the checked multiplication and addition
unfoldable pub parse_digits : ℕ → Text → Option ℕ
parse_digits acc [] = some acc
parse_digits acc (c ∷ cs) =
    let rest = parse_digits (acc * 10 + (c - b'0')) cs in if digit_fits acc c then rest else none

-- `parse::<u32>`: a plus may stand in front
unfoldable pub parse_u32 : Text → Option ℕ
unfolding parse_digits
parse_u32 [] = none
parse_u32 (c ∷ []) = parse_digits 0 (c ∷ [])
parse_u32 (c ∷ d ∷ ds) = if c == b'+' then parse_digits 0 (d ∷ ds) else parse_digits 0 (c ∷ d ∷ ds)

parse_digits-lt :
    (acc : ℕ) (s : Text) {n : ℕ} → acc < 2 ^ 32 → parse_digits acc s ≡ some n → n < 2 ^ 32
unfolding parse_digits
parse_digits-lt acc [] {n} h e = ground (arith, h, e)
parse_digits-lt acc (c ∷ cs) {n} h e = elim (Bool-cases (digit_fits acc c)) [
  | inl fits ↦
      parse_digits-lt (acc * 10 + (c - b'0')) cs (ground (arith, fits)) (ground (arith, fits, e))
  | inr bad ↦ absurd (ground (arith, bad, e))
]

-- What is parsed is a `u32`.
pub parse_u32-lt : (s : Text) {n : ℕ} → parse_u32 s ≡ some n → n < 2 ^ 32
unfolding parse_u32
parse_u32-lt [] e = cc
parse_u32-lt (c ∷ []) e = parse_digits-lt 0 (c ∷ []) (omega arith) e
parse_u32-lt (c ∷ d ∷ ds) e = elim (Bool-cases (c == b'+')) [
  | inl plus ↦ parse_digits-lt 0 (d ∷ ds) (omega arith) (sym (rw plus refl) ∙ e)
  | inr other ↦ parse_digits-lt 0 (c ∷ d ∷ ds) (omega arith) (sym (rw other refl) ∙ e)
]

parse_digits-append :
    (acc : ℕ) (xs ys : Text) {n : ℕ}
    → parse_digits acc xs ≡ some n
    → parse_digits acc (xs ++ ys) ≡ parse_digits n ys
unfolding parse_digits
parse_digits-append acc [] ys {n} e = ground (arith, e)
parse_digits-append acc (x ∷ xs) ys {n} e = elim (Bool-cases (digit_fits acc x)) [
  | inl fits ↦ rw fits (parse_digits-append (acc * 10 + (x - b'0')) xs ys (ground (arith, fits, e)))
  | inr bad ↦ absurd (ground (arith, bad, e))
]

parse_digits-to_digits :
    (fuel n : ℕ) → n < 10 ^ fuel → n < 2 ^ 32 → parse_digits 0 (to_digits fuel n) ≡ some n
unfolding parse_digits to_digits
parse_digits-to_digits zero n h k = ap some (omega arith)
parse_digits-to_digits (suc fuel) n h k = elim (Bool-cases (ltb n 10)) [
  | inl one ↦ rw one (ground (arith, one))
  | inr more ↦ rw more (
      parse_digits-append 0 (to_digits fuel (n / 10)) ((b'0' + n % 10) ∷ [])
        (parse_digits-to_digits fuel (n / 10) (omega (arith, h)) (omega arith))
      ∙ ground (arith, k))
]

length-to_digits : (fuel n : ℕ) → 1 ≤ length (to_digits (suc fuel) n)
unfolding to_digits
length-to_digits fuel n =
    ground (arith, length-append (to_digits fuel (n / 10)) ((b'0' + n % 10) ∷ []))

-- Text that is parsed without its sign has none.
parse_u32-digits :
    (s : Text) {n : ℕ} → 1 ≤ length s → parse_digits 0 s ≡ some n → parse_u32 s ≡ some n
unfolding parse_u32 parse_digits
parse_u32-digits [] h e = absurd (omega (arith, h))
parse_u32-digits (c ∷ []) h e = e
parse_u32-digits (c ∷ d ∷ ds) h e = elim (Bool-cases (c == b'+')) [
  | inl plus ↦ absurd (ground (arith, plus, e))
  | inr other ↦ rw other e
]

pub parse_u32-to_string : (n : ℕ) → n < 2 ^ 32 → parse_u32 (to_string n) ≡ some n
unfolding to_string
parse_u32-to_string n h =
    parse_u32-digits (to_digits 10 n) (length-to_digits 9 n)
      (parse_digits-to_digits 10 n (omega arith) h)
