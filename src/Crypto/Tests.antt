-- ===== src/Crypto/Tests.antt =====
-- crates/incomudon-crypto/src/lib.rs: passwords and nonces at concrete inputs.
use incom_udon_native_rust.Base.{ℕ, ◌≡◌, refl, arith, List, ◌∷◌, ◌++◌, some, true, false, replicate}
use incom_udon_native_rust.Base.Text.{IsBlank, codes, is_whitespace}
use incom_udon_native_rust.Base.Words.{IsBytes}
use incom_udon_native_rust.Crypto.Keys.{decode_hex_32, normalize_password}
use incom_udon_native_rust.Crypto.HexText.{hex_text, decode_hex_32-hex_text}
use incom_udon_native_rust.Crypto.Passwords.{normalize_password-digits}
use incom_udon_native_rust.Crypto.Samples.{samples}

abbrev key_bytes : List ℕ
key_bytes = 0 ∷ 15 ∷ 171 ∷ 255 ∷ replicate 28 16

key_bytes-IsBytes : IsBytes key_bytes
key_bytes-IsBytes = omega arith

decode_hex_32-hex_text_example : decode_hex_32 (hex_text true key_bytes) ≡ some key_bytes
decode_hex_32-hex_text_example = decode_hex_32-hex_text true key_bytes key_bytes-IsBytes refl

space-IsBlank : IsBlank (codes " ") × IsBlank (codes " ")
unfolding is_whitespace
space-IsBlank = ((refl, tt), (refl, tt))

normalize_password-digits_example :
    normalize_password samples
      (codes " " ++ ((codes "sha256:" ++ hex_text false key_bytes) ++ codes " "))
    ≡ key_bytes
normalize_password-digits_example =
    normalize_password-digits samples (codes " ") (codes " ") true false key_bytes space-IsBlank
      key_bytes-IsBytes refl
