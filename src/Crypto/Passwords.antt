-- ===== src/Crypto/Passwords.antt =====
-- crates/incomudon-crypto/src/lib.rs: `normalize_password` on each kind of password, and
-- `packet_nonce`.
use incom_udon_native_rust.Base.{
  ℕ, ◌/◌, ◌%◌, ◌<◌, List, [], ◌∷◌, ◌++◌, Bool, true, false, ◌==◌, length, ◌≡◌, refl, ap, ◌∙◌, sym,
  arith, ==_iff,
}
use incom_udon_native_rust.Base.Text.{
  Text, codes, IsBlank, trim, is_empty, strip_prefix, trim_ink, as_bytes_ascii, is_whitespace,
}
use incom_udon_native_rust.Base.Words.{IsBytes, from_be64, u64_mod, from_be64_lem}
use incom_udon_native_rust.Crypto.Primitives.{Primitives}
use incom_udon_native_rust.Crypto.Keys.{hex_part, normalize_hex, normalize_password, packet_nonce}
use incom_udon_native_rust.Crypto.HexText.{
  hex_char, hex_text, hex_text-IsInk, length-hex_text, decode_hex_32-hex_text,
}

abbrev pub prefix : Bool → Text
prefix true = codes "sha256:"
prefix false = []

-- No digit is the first letter of the prefix.
no_digit : (upper : Bool) (n : ℕ) → n < 16 → (b's' == hex_char upper n) ≡ false
no_digit true n h = ground arith
no_digit false n h = ground arith

hex_part-digits :
    (prefixed upper : Bool) (key : List ℕ)
    → IsBytes key
    → hex_part (prefix prefixed ++ hex_text upper key) ≡ hex_text upper key
unfolding hex_part strip_prefix
hex_part-digits true upper key h = refl
hex_part-digits false upper [] h = refl
hex_part-digits false upper (b ∷ key) h = rw (no_digit upper (b / 16) (omega arith), hex_part)

module _ (c : Primitives) where
  normalize_hex-digits :
      (password : Text) (upper : Bool) (key : List ℕ)
      → IsBytes key
      → length key ≡ 32
      → normalize_hex c password (hex_text upper key) ≡ key
  unfolding normalize_hex
  normalize_hex-digits password upper key h n = rw (
    as_bytes_ascii (hex_text upper key) (hex_text-IsInk upper key h).1,
    (==_iff (length (hex_text upper key)) 64).1 (omega (arith, length-hex_text upper key)),
    decode_hex_32-hex_text upper key h n,
  )

  -- The password without the white space at its ends.
  module _ (before after : Text) (prefixed upper : Bool) (key : List ℕ)
      (blank : IsBlank before × IsBlank after) (bytes : IsBytes key) (full : length key ≡ 32) where
    abbrev pub body : Text
    body = prefix prefixed ++ hex_text upper key

    trim-body : trim (before ++ (body ++ after)) ≡ body
    unfolding is_whitespace
    trim-body = go prefixed key bytes full
      where
        go :
            (prefixed : Bool) (key : List ℕ)
            → IsBytes key
            → length key ≡ 32
            → trim (before ++ ((prefix prefixed ++ hex_text upper key) ++ after))
              ≡ prefix prefixed ++ hex_text upper key
        go p [] h n = absurd (omega arith)
        go false (b ∷ key) h n =
            trim_ink before (hex_char upper (b / 16)) (hex_char upper (b % 16) ∷ hex_text upper key)
              after blank.0 (hex_text-IsInk upper (b ∷ key) h).0 blank.1
        go true (b ∷ key) h n =
            trim_ink before b's' (codes "ha256:" ++ hex_text upper (b ∷ key)) after blank.0
              (
                refl,
                (
                  refl,
                  (refl, (refl, (refl, (refl, (refl, (hex_text-IsInk upper (b ∷ key) h).0))))),
                ),
              )
              blank.1

    body-ne_nil : is_empty body ≡ false
    body-ne_nil = go prefixed key full
      where
        go :
            (prefixed : Bool) (key : List ℕ)
            → length key ≡ 32
            → is_empty (prefix prefixed ++ hex_text upper key) ≡ false
        go p [] n = absurd (omega arith)
        go true (b ∷ key) n = refl
        go false (b ∷ key) n = refl

    -- A password of the 64 hexadecimal digits of 32 bytes, all in one case, with or without the
    -- prefix `sha256:` and with any white space at its ends, is normalised to these bytes.
    pub normalize_password-digits : normalize_password c (before ++ (body ++ after)) ≡ key
    unfolding normalize_password
    normalize_password-digits =
        rw (trim-body, body-ne_nil, hex_part-digits prefixed upper key bytes)
          (normalize_hex-digits (before ++ (body ++ after)) upper key bytes full)

  -- the counter in a nonce
  read_nonce : List ℕ → ℕ
  read_nonce (w ∷ x ∷ y ∷ z ∷ a ∷ b ∷ d ∷ e ∷ f ∷ g ∷ h ∷ i ∷ rest) = from_be64 a b d e f g h i
  read_nonce _ = 0

  read_nonce-packet_nonce : (a : ℕ) → a < u64_mod → read_nonce (packet_nonce c a) ≡ a
  unfolding read_nonce packet_nonce
  read_nonce-packet_nonce a h = from_be64_lem a h

  -- Two counters below 2 ^ 64 with one nonce are the same counter.
  pub packet_nonce_injective :
      (a b : ℕ) → a < u64_mod → b < u64_mod → packet_nonce c a ≡ packet_nonce c b → a ≡ b
  packet_nonce_injective a b ha hb e =
      sym (read_nonce-packet_nonce a ha) ∙ ap read_nonce e ∙ read_nonce-packet_nonce b hb
