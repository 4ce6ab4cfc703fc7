-- ===== src/Crypto/Primitives.antt =====
-- crates/incomudon-crypto/src/lib.rs: what the crate takes from `sha2`, `hkdf` and `aes_gcm`. They
-- are parameters; `IsLawful` states what their documentation promises and the client relies on.
use incom_udon_native_rust.Base.{ℕ, ◌+◌, ◌*◌, ◌≤◌, List, Option, some, length, ◌≡◌}
use incom_udon_native_rust.Base.Words.{IsBytes}

pub record Primitives : Type 0 where
  -- `Sha256::digest`; a hasher that is updated several times digests the joined bytes
  pub sha256 : List ℕ → List ℕ
  -- `Hkdf::<Sha256>::new(None, key)` and `expand(info, …)` for as many bytes as asked for
  pub hkdf_sha256 : List ℕ → List ℕ → ℕ → Option (List ℕ)
  -- `Aes256Gcm::encrypt` and `decrypt`: key, nonce, message, additional data
  pub aes_gcm_encrypt : List ℕ → List ℕ → List ℕ → List ℕ → Option (List ℕ)
  pub aes_gcm_decrypt : List ℕ → List ℕ → List ℕ → List ℕ → Option (List ℕ)

pub record IsLawful (c : Primitives) : Type 0 where
  pub length-sha256 : (bytes : List ℕ) → length (c.sha256 bytes) ≡ 32
  pub sha256-IsBytes : (bytes : List ℕ) → IsBytes (c.sha256 bytes)
  -- an output of at most 255 digests is expanded
  pub hkdf-length :
      (key info : List ℕ) (n : ℕ)
      → n ≤ 255 * 32
      → (out : List ℕ) × (c.hkdf_sha256 key info n ≡ some out) × (length out ≡ n)
  -- a tag of sixteen bytes stands behind the encrypted bytes
  pub encrypt-length :
      (key nonce msg aad out : List ℕ)
      → c.aes_gcm_encrypt key nonce msg aad ≡ some out
      → length out ≡ length msg + 16
  pub encrypt-IsBytes :
      (key nonce msg aad out : List ℕ)
      → IsBytes msg
      → c.aes_gcm_encrypt key nonce msg aad ≡ some out
      → IsBytes out
  pub decrypt-encrypt :
      (key nonce msg aad out : List ℕ)
      → c.aes_gcm_encrypt key nonce msg aad ≡ some out
      → c.aes_gcm_decrypt key nonce out aad ≡ some msg
