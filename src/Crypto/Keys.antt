-- ===== src/Crypto/Keys.antt =====
-- crates/incomudon-crypto/src/lib.rs: `normalize_password`, the derivations of keys, the nonce and
-- the cipher's wrappers.
use Prim.Native.Nat.{bit_or}
use incom_udon_native_rust.Base.{
  ℕ, ◌+◌, ◌-◌, ◌*◌, ◌%◌, List, [], ◌∷◌, ◌++◌, Option, none, some, ◌&&◌, not, leb, ◌==◌,
  if◌then◌else◌, length, replicate, Outcome, ok, err,
}
use incom_udon_native_rust.Base.Text.{Text, codes, trim, is_empty, as_bytes, strip_prefix}
use incom_udon_native_rust.Base.Words.{be32, be64}
use incom_udon_native_rust.Crypto.Primitives.{Primitives}

abbrev pub aes_gcm_v2_key_id : ℕ
aes_gcm_v2_key_id = 2

abbrev pub v2_info : List ℕ
v2_info = codes "incomudon-session-aesgcm-v2"

pub data CryptoError : Type 0 where
  aead hkdf : CryptoError

unfoldable pub hex_nibble : ℕ → Option ℕ
hex_nibble value =
    if leb b'0' value && leb value b'9'
    then some (value - b'0')
    else if leb b'a' value && leb value b'f'
    then some (value - b'a' + 10)
    else if leb b'A' value && leb value b'F'
    then some (value - b'A' + 10)
    else none

-- `(high << 4) | low` on bytes
abbrev pub join_nibbles : ℕ → ℕ → ℕ
join_nibbles high low = bit_or (high * 16 % 256) low

-- one round of the loop, at the digits of a pair and what the later rounds give
unfoldable pub decode_pair : Option ℕ → Option ℕ → Option (List ℕ) → Option (List ℕ)
decode_pair none low later = none
decode_pair (some high) none later = none
decode_pair (some high) (some low) none = none
decode_pair (some high) (some low) (some output) = some (join_nibbles high low ∷ output)

-- the loop over `as_chunks::<2>()`; an odd byte at its end is the remainder, which is refused
unfoldable pub decode_pairs : List ℕ → Option (List ℕ)
decode_pairs [] = some []
decode_pairs (a ∷ []) = none
decode_pairs (a ∷ b ∷ rest) = decode_pair (hex_nibble a) (hex_nibble b) (decode_pairs rest)

-- The output on `true`, and `none` on `false`, where the caller discards it.
unfoldable pub decode_hex_32 : List ℕ → Option (List ℕ)
decode_hex_32 value = if not (length value == 64) then none else decode_pairs value

-- `trimmed.strip_prefix("sha256:").unwrap_or(trimmed)`
unfoldable pub hex_part : Text → Text
hex_part trimmed = elim (strip_prefix (codes "sha256:") trimmed) [
  | some rest ↦ rest
  | none ↦ trimmed
]

module _ (c : Primitives) where
  -- the part behind `strip_prefix`
  unfoldable pub normalize_hex : Text → Text → List ℕ
  normalize_hex password hex_value =
      let hashed = c.sha256 (as_bytes password) in
      if length (as_bytes hex_value) == 64
      then elim (decode_hex_32 (as_bytes hex_value)) [ some decoded ↦ decoded | none ↦ hashed ]
      else hashed

  unfoldable pub normalize_password : Text → List ℕ
  normalize_password password =
      let trimmed = trim password in
      if is_empty trimmed then replicate 32 0 else normalize_hex password (hex_part trimmed)

  unfoldable pub derive_password_key : List ℕ → ℕ → List ℕ
  derive_password_key normalized_password channel_id =
      c.sha256 (normalized_password ++ be32 channel_id)

  unfoldable pub derive_aes_gcm_v2_key : List ℕ → Outcome CryptoError (List ℕ)
  derive_aes_gcm_v2_key password_key = elim (c.hkdf_sha256 password_key v2_info 32) [
    | some key ↦ ok key
    | none ↦ err hkdf
  ]

  unfoldable pub packet_nonce : ℕ → List ℕ
  packet_nonce nonce = replicate 4 0 ++ be64 nonce

  unfoldable pub encrypt_aes_gcm_v2 : List ℕ → ℕ → List ℕ → List ℕ → Outcome CryptoError (List ℕ)
  unfolding packet_nonce
  encrypt_aes_gcm_v2 key nonce_counter plaintext aad =
      elim (c.aes_gcm_encrypt key (packet_nonce nonce_counter) plaintext aad) [
        | some encrypted ↦ ok encrypted
        | none ↦ err aead
      ]

  unfoldable pub decrypt_aes_gcm_v2 : List ℕ → ℕ → List ℕ → List ℕ → Outcome CryptoError (List ℕ)
  unfolding packet_nonce
  decrypt_aes_gcm_v2 key nonce_counter ciphertext_and_tag aad =
      elim (c.aes_gcm_decrypt key (packet_nonce nonce_counter) ciphertext_and_tag aad) [
        | some plaintext ↦ ok plaintext
        | none ↦ err aead
      ]
