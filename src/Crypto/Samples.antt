-- ===== src/Crypto/Samples.antt =====
-- A lawful stand-in for the cryptography that crates/incomudon-crypto/src/lib.rs takes from other
-- crates, for evaluation: it hides and authenticates nothing.
use incom_udon_native_rust.Base.{
  ℕ, zero, suc, subst, ◌-◌, ◌≡◌, ◌∙◌, List, [], ◌∷◌, ◌++◌, some, length, take, replicate, refl, sym,
  ap, arith, length-append, take-append_of_length,
}
use incom_udon_native_rust.Base.Words.{IsBytes}
use incom_udon_native_rust.Crypto.Primitives.{Primitives, IsLawful}

length-zeros : (n : ℕ) → length {A = ℕ} (replicate n 0) ≡ n
length-zeros zero = refl
length-zeros (suc n) = omega (arith, length-zeros n)

tagged-IsBytes : (msg : List ℕ) → IsBytes msg → IsBytes (msg ++ replicate 16 0)
tagged-IsBytes [] h = omega arith
tagged-IsBytes (b ∷ msg) h = (h.0, tagged-IsBytes msg h.1)

abbrev pub samples : Primitives
samples = record {
  sha256 = λ bytes. replicate 32 0;
  hkdf_sha256 = λ key info n. some (replicate n 0);
  aes_gcm_encrypt = λ key nonce msg aad. some (msg ++ replicate 16 0);
  aes_gcm_decrypt = λ key nonce sealed aad. some (take (length sealed - 16) sealed);
}

some-inj : {a b : List ℕ} → some a ≡ some b → a ≡ b
some-inj e = cc

pub samples-IsLawful : IsLawful samples
samples-IsLawful = record {
  length-sha256 = λ bytes. refl;
  sha256-IsBytes = λ bytes. omega arith;
  hkdf-length = λ key info n h. (replicate n 0, refl, length-zeros n);
  encrypt-length =
      λ key nonce msg aad out e. ap length (sym (some-inj e)) ∙ length-append msg (replicate 16 0);
  encrypt-IsBytes = λ key nonce msg aad out h e. subst IsBytes (some-inj e) (tagged-IsBytes msg h);
  decrypt-encrypt = λ key nonce msg aad out e.
      subst (λ (x : List ℕ). some (take (length x - 16) x) ≡ some msg) (some-inj e)
        (ap some (
          take-append_of_length (length (msg ++ replicate 16 0) - 16) msg (replicate 16 0)
            (omega (arith, length-append msg (replicate 16 0)))));
}
