-- ===== src/Base/Text.antt =====
-- Rust's text as a list of Unicode code points, with the methods of `str` that the crates use:
-- `trim`, `is_empty`, `chars().count()`, `eq_ignore_ascii_case`, `strip_prefix`, `as_bytes`.
use Prim.Native.Char.{code}
use Prim.Native.String.{String}
use Prim.Native.Nat.{ℕ, ◌+◌, ◌/◌, ◌%◌, ◌<◌}
use mathlib.Core.Path.{◌≡◌, refl, ap, ◌∙◌}
use mathlib.Core.Logic.{◌↔◌, inl, inr}
use mathlib.Core.Bool.{Bool, true, false, ◌&&◌, ◌||◌}
use mathlib.Core.Option.{Option, none, some}
use mathlib.Core.List.{List, [], ◌∷◌, ◌++◌, map}
use native.Mathlib.Omega.{arith}
use incom_udon_native_rust.Base.Tests.{Bool-cases, leb, ltb, ◌==◌, if◌then◌else◌}
use incom_udon_native_rust.Base.Lists.{All}

abbrev pub Text : Type 0
Text = List ℕ

-- a literal
abbrev pub codes : String → Text
codes String.[] = []
codes (String.◌∷◌ c s) = code c ∷ codes s

-- `char::is_whitespace`, the property White_Space
unfoldable pub is_whitespace : ℕ → Bool
is_whitespace c =
    (leb 0x9 c && leb c 0xd)
    || c == 0x20
    || c == 0x85
    || c == 0xa0
    || c == 0x1680
    || (leb 0x2000 c && leb c 0x200a)
    || c == 0x2028
    || c == 0x2029
    || c == 0x202f
    || c == 0x205f
    || c == 0x3000

abbrev pub is_empty : Text → Bool
is_empty [] = true
is_empty (c ∷ cs) = false

unfoldable pub trim_start : Text → Text
trim_start [] = []
trim_start (c ∷ cs) = if is_whitespace c then trim_start cs else c ∷ cs

-- one character in front of text that is trimmed already
unfoldable pub keep_front : ℕ → Text → Text
keep_front c [] = if is_whitespace c then [] else c ∷ []
keep_front c (d ∷ ds) = c ∷ d ∷ ds

unfoldable pub trim_end : Text → Text
unfolding keep_front
trim_end [] = []
trim_end (c ∷ cs) = keep_front c (trim_end cs)

unfoldable pub trim : Text → Text
unfolding trim_start trim_end
trim s = trim_end (trim_start s)

unfoldable pub to_ascii_lowercase : ℕ → ℕ
to_ascii_lowercase c = if leb b'A' c && leb c b'Z' then c + 32 else c

-- Bytes above 127 are compared as they are, so comparing code points is the same.
unfoldable pub eq_ignore_ascii_case : Text → Text → Bool
eq_ignore_ascii_case [] [] = true
eq_ignore_ascii_case [] (d ∷ ds) = false
eq_ignore_ascii_case (c ∷ cs) [] = false
eq_ignore_ascii_case (c ∷ cs) (d ∷ ds) =
    (to_ascii_lowercase c == to_ascii_lowercase d) && eq_ignore_ascii_case cs ds

-- `str::as_bytes`, for one character and for a text
unfoldable pub utf8_char : ℕ → List ℕ
utf8_char c =
    if ltb c 0x80
    then c ∷ []
    else if ltb c 0x800
    then (0xc0 + c / 64) ∷ (0x80 + c % 64) ∷ []
    else if ltb c 0x1_0000
    then (0xe0 + c / 4096) ∷ (0x80 + c / 64 % 64) ∷ (0x80 + c % 64) ∷ []
    else (0xf0 + c / 262_144) ∷ (0x80 + c / 4096 % 64) ∷ (0x80 + c / 64 % 64) ∷ (0x80 + c % 64) ∷ []

unfoldable pub as_bytes : Text → List ℕ
unfolding utf8_char
as_bytes [] = []
as_bytes (c ∷ cs) = utf8_char c ++ as_bytes cs

unfoldable pub strip_prefix : Text → Text → Option Text
strip_prefix [] s = some s
strip_prefix (p ∷ ps) [] = none
strip_prefix (p ∷ ps) (c ∷ cs) = if p == c then strip_prefix ps cs else none

-- Case-insensitive equality is equality of the texts in lower case.
pub eq_ignore_ascii_case_iff :
    (s t : Text)
    → (eq_ignore_ascii_case s t ≡ true) ↔ (map to_ascii_lowercase s ≡ map to_ascii_lowercase t)
unfolding eq_ignore_ascii_case
eq_ignore_ascii_case_iff [] [] = (λ _. refl, λ _. refl)
eq_ignore_ascii_case_iff [] (d ∷ ds) = (λ h. cc, λ h. cc)
eq_ignore_ascii_case_iff (c ∷ cs) [] = (λ h. cc, λ h. cc)
eq_ignore_ascii_case_iff (c ∷ cs) (d ∷ ds) = ground (arith, eq_ignore_ascii_case_iff cs ds)

-- All white space.
abbrev pub IsBlank : Text → Type 0
IsBlank = All (λ c. is_whitespace c ≡ true)

is_empty-trim_end_iff : (s : Text) → (is_empty (trim_end s) ≡ true) ↔ IsBlank s
unfolding trim_end
is_empty-trim_end_iff [] = (λ _. tt, λ _. refl)
is_empty-trim_end_iff (c ∷ cs) = ground (arith, is_empty-trim_end_iff cs)

trim_start-IsBlank_iff : (s : Text) → IsBlank (trim_start s) ↔ IsBlank s
unfolding trim_start
trim_start-IsBlank_iff [] = (λ h. h, λ h. h)
trim_start-IsBlank_iff (c ∷ cs) = elim (Bool-cases (is_whitespace c)) [
  | inl blank ↦
      rw blank
        (λ h. (refl, (trim_start-IsBlank_iff cs).0 h), λ h. (trim_start-IsBlank_iff cs).1 h.1)
  | inr ink ↦ rw ink (λ h. cc, λ h. cc)
]

-- Trimming leaves nothing exactly of blank text.
pub is_empty-trim_iff : (s : Text) → (is_empty (trim s) ≡ true) ↔ IsBlank s
unfolding trim
is_empty-trim_iff s =
    let end = is_empty-trim_end_iff (trim_start s) in
    let start = trim_start-IsBlank_iff s in (λ h. start.0 (end.0 h), λ h. end.1 (start.1 h))

pub as_bytes_ascii : (s : Text) → All (λ c. c < 0x80) s → as_bytes s ≡ s
unfolding as_bytes
as_bytes_ascii [] h = refl
as_bytes_ascii (c ∷ cs) h = ground (arith, as_bytes_ascii cs h.1)

-- No white space.
abbrev pub IsInk : Text → Type 0
IsInk = All (λ c. is_whitespace c ≡ false)

trim_end_ink : (s blank : Text) → IsInk s → IsBlank blank → trim_end (s ++ blank) ≡ s
unfolding trim_end
trim_end_ink [] [] h b = refl
trim_end_ink [] (c ∷ cs) h b = rw (trim_end_ink [] cs h b.1) (rw b.0)
trim_end_ink (c ∷ []) blank h b = rw (trim_end_ink [] blank tt b) (rw h.0)
trim_end_ink (c ∷ d ∷ ds) blank h b = rw (trim_end_ink (d ∷ ds) blank h.1 b)

trim_start_ink :
    (blank s : Text) (c : ℕ)
    → IsBlank blank
    → is_whitespace c ≡ false
    → trim_start (blank ++ c ∷ s) ≡ c ∷ s
unfolding trim_start
trim_start_ink [] s c b h = rw h
trim_start_ink (d ∷ ds) s c b h = rw b.0 (trim_start_ink ds s c b.1 h)

-- White space at the ends is trimmed away.
pub trim_ink :
    (before : Text) (c : ℕ) (s after : Text)
    → IsBlank before
    → IsInk (c ∷ s)
    → IsBlank after
    → trim (before ++ (c ∷ s ++ after)) ≡ c ∷ s
unfolding trim
trim_ink before c s after b h a =
    ap trim_end (trim_start_ink before (s ++ after) c b h.0) ∙ trim_end_ink (c ∷ s) after h a

trim_start-keep_front :
    (c : ℕ) (s : Text) → is_whitespace c ≡ false → trim_start (keep_front c s) ≡ keep_front c s
unfolding keep_front trim_start
trim_start-keep_front c [] h = rw h (rw h)
trim_start-keep_front c (d ∷ ds) h = rw h

trim_start-trim : (s : Text) → trim_start (trim_end (trim_start s)) ≡ trim_end (trim_start s)
unfolding trim_start trim_end
trim_start-trim [] = refl
trim_start-trim (c ∷ cs) = elim (Bool-cases (is_whitespace c)) [
  | inl blank ↦ rw blank (trim_start-trim cs)
  | inr ink ↦ rw ink (trim_start-keep_front c (trim_end cs) ink)
]

trim_end-keep_front :
    (c : ℕ) (s : Text) → trim_end s ≡ s → trim_end (keep_front c s) ≡ keep_front c s
unfolding keep_front trim_end
trim_end-keep_front c [] e = elim (Bool-cases (is_whitespace c)) [
  | inl blank ↦ rw blank
  | inr ink ↦ rw ink (rw ink)
]
trim_end-keep_front c (d ∷ ds) e = rw e

trim_end-trim_end : (s : Text) → trim_end (trim_end s) ≡ trim_end s
unfolding trim_end
trim_end-trim_end [] = refl
trim_end-trim_end (c ∷ cs) = trim_end-keep_front c (trim_end cs) (trim_end-trim_end cs)

-- Trimmed text stays as it is.
pub trim-trim : (s : Text) → trim (trim s) ≡ trim s
unfolding trim
trim-trim s = ap trim_end (trim_start-trim s) ∙ trim_end-trim_end (trim_start s)
