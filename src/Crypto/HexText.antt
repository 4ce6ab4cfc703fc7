-- ===== src/Crypto/HexText.antt =====
-- crates/incomudon-crypto/src/lib.rs: `decode_hex_32` against hexadecimal digits.
use incom_udon_native_rust.Base.{
  ℕ, zero, suc, ◌+◌, ◌*◌, ◌/◌, ◌%◌, ◌<◌, List, [], ◌∷◌, Option, none, some, Bool, true, false, ◌&&◌,
  ltb, ◌==◌, if◌then◌else◌, length, ◌≡◌, refl, ap, ◌∙◌, arith, All, ==_iff, subst,
}
use incom_udon_native_rust.Base.Text.{Text, IsInk, is_whitespace}
use incom_udon_native_rust.Base.Words.{IsBytes}
use incom_udon_native_rust.Crypto.Keys.{
  hex_nibble, join_nibbles, decode_pair, decode_pairs, decode_hex_32,
}

-- A digit, in upper or lower case.
abbrev pub hex_char : Bool → ℕ → ℕ
hex_char upper n = if ltb n 10 then 48 + n else if upper then 55 + n else 87 + n

abbrev pub hex_text : Bool → List ℕ → Text
hex_text upper [] = []
hex_text upper (b ∷ bytes) =
    hex_char upper (b / 16) ∷ hex_char upper (b % 16) ∷ hex_text upper bytes

pub hex_nibble-hex_char : (upper : Bool) (n : ℕ) → n < 16 → hex_nibble (hex_char upper n) ≡ some n
unfolding hex_nibble
hex_nibble-hex_char true n h = ground arith
hex_nibble-hex_char false n h = ground arith

-- Whether a test passes on every byte below a bound.
passes : (ℕ → Bool) → ℕ → Bool
passes test zero = true
passes test (suc bound) = passes test bound && test bound

passes-lt : (test : ℕ → Bool) (bound b : ℕ) → passes test bound ≡ true → b < bound → test b ≡ true
unfolding passes
passes-lt test (suc bound) b all below = ground (arith, passes-lt test bound b)
passes-lt test zero b all below = absurd (omega arith)

join_table : passes (λ b. join_nibbles (b / 16) (b % 16) == b) 256 ≡ true
unfolding passes
join_table = refl

join_nibbles-div_mod : (b : ℕ) → b < 256 → join_nibbles (b / 16) (b % 16) ≡ b
join_nibbles-div_mod b h =
    (==_iff (join_nibbles (b / 16) (b % 16)) b).0
      (passes-lt (λ b. join_nibbles (b / 16) (b % 16) == b) 256 b join_table h)

pub join_nibbles-lt :
    (high low : ℕ) → high < 16 → low < 16 → join_nibbles high low ≡ high * 16 + low
join_nibbles-lt high low h l =
    ap (λ x. join_nibbles x low) {y = (high * 16 + low) / 16} (omega arith)
    ∙ ap (join_nibbles ((high * 16 + low) / 16)) {y = (high * 16 + low) % 16} (omega arith)
    ∙ join_nibbles-div_mod (high * 16 + low) (omega arith)

decode_pairs-hex_text :
    (upper : Bool) (bytes : List ℕ)
    → IsBytes bytes
    → decode_pairs (hex_text upper bytes) ≡ some bytes
unfolding decode_pairs decode_pair
decode_pairs-hex_text upper [] h = refl
decode_pairs-hex_text upper (b ∷ bytes) h =
    rw
      (
        hex_nibble-hex_char upper (b / 16) (omega arith),
        hex_nibble-hex_char upper (b % 16) (omega arith),
        decode_pairs-hex_text upper bytes h.1,
      )
      (ap (λ x. some (x ∷ bytes)) (join_nibbles-div_mod b h.0))

pub length-hex_text :
    (upper : Bool) (bytes : List ℕ) → length (hex_text upper bytes) ≡ length bytes * 2
length-hex_text upper [] = refl
length-hex_text upper (b ∷ bytes) = omega (arith, length-hex_text upper bytes)

-- The hexadecimal digits of 32 bytes, all in one case, are read back to the bytes.
pub decode_hex_32-hex_text :
    (upper : Bool) (bytes : List ℕ)
    → IsBytes bytes
    → length bytes ≡ 32
    → decode_hex_32 (hex_text upper bytes) ≡ some bytes
unfolding decode_hex_32
decode_hex_32-hex_text upper bytes h n =
    rw ((==_iff (length (hex_text upper bytes)) 64).1 (omega (arith, length-hex_text upper bytes)))
      (decode_pairs-hex_text upper bytes h)

hex_nibble-lt : (v : ℕ) {n : ℕ} → hex_nibble v ≡ some n → n < 16
unfolding hex_nibble
hex_nibble-lt v e = ground arith

decode_pair-some :
    (high low : Option ℕ) (later : Option (List ℕ)) {out : List ℕ}
    → decode_pair high low later ≡ some out
    → (h : ℕ) × (l : ℕ) × (r : List ℕ) × (high ≡ some h)
      × (low ≡ some l)
      × (later ≡ some r)
      × (join_nibbles h l ∷ r ≡ out)
unfolding decode_pair
decode_pair-some none low later e = cc
decode_pair-some (some h) none later e = cc
decode_pair-some (some h) (some l) none e = cc
decode_pair-some (some h) (some l) (some r) e = (h, l, r, refl, refl, refl, cc)

decode_pairs-IsBytes :
    (value : List ℕ) (out : List ℕ)
    → decode_pairs value ≡ some out
    → (length out * 2 ≡ length value) × IsBytes out
unfolding decode_pairs
decode_pairs-IsBytes [] out e =
    let same : [] ≡ out = cc in subst (λ o. (length o * 2 ≡ 0) × IsBytes o) same (refl, tt)
decode_pairs-IsBytes (a ∷ []) out e = cc
decode_pairs-IsBytes (a ∷ b ∷ rest) out e =
    let (h, l, r, eh, el, er, e') =
      decode_pair-some (hex_nibble a) (hex_nibble b) (decode_pairs rest) e in
    let (n, bytes) = decode_pairs-IsBytes rest r er in
    subst (λ o. (length o * 2 ≡ length (a ∷ b ∷ rest)) × IsBytes o) e'
      (
        omega (arith, n),
        (
          omega (
            arith,
            join_nibbles-lt h l (hex_nibble-lt a eh) (hex_nibble-lt b el),
            hex_nibble-lt a eh,
            hex_nibble-lt b el,
          ),
          bytes,
        ),
      )

-- What `decode_hex_32` returns is 32 bytes.
pub decode_hex_32-IsBytes :
    (value : List ℕ) {out : List ℕ}
    → decode_hex_32 value ≡ some out
    → (length out ≡ 32) × IsBytes out
unfolding decode_hex_32
decode_hex_32-IsBytes value {out} e = ground (arith, decode_pairs-IsBytes value out)

pub hex_char-IsInk :
    (upper : Bool) (n : ℕ)
    → n < 16
    → (is_whitespace (hex_char upper n) ≡ false) × (hex_char upper n < 0x80)
unfolding is_whitespace
hex_char-IsInk true n h = ground arith
hex_char-IsInk false n h = ground arith

-- The digits are ASCII, no white space, and no prefix of another kind.
pub hex_text-IsInk :
    (upper : Bool) (bytes : List ℕ)
    → IsBytes bytes
    → IsInk (hex_text upper bytes) × All (λ c. c < 0x80) (hex_text upper bytes)
hex_text-IsInk upper [] h = (tt, tt)
hex_text-IsInk upper (b ∷ bytes) h =
    let (ink, ascii) = hex_text-IsInk upper bytes h.1 in
    let one = hex_char-IsInk upper (b / 16) (omega arith) in
    let two = hex_char-IsInk upper (b % 16) (omega arith) in
    ((one.0, (two.0, ink)), (one.1, (two.1, ascii)))
