-- ===== src/Transport/Counters.antt =====
-- crates/incomudon-transport/src/lib.rs: the encrypted frames on the wire, and their counters.
use incom_udon_native_rust.Base.{
  ℕ, zero, suc, ◌+◌, ◌%◌, ◌^◌, ◌<◌, List, [], ◌∷◌, ◌++◌, Option, none, some, ltb, ◌==◌,
  if◌then◌else◌, length, get_elem?, Outcome, ok, err, panic, ◌≡◌, ◌≢◌, refl, sym, ap, ◌∙◌, arith,
  inl, inr, Bool-cases, ltb→le, length-append, get_elem?-append_left, get_elem?-append_middle,
  get_elem?-lt, append_assoc, append-nil,
}
use incom_udon_native_rust.Base.Words.{u64_mod, be64}
use incom_udon_native_rust.Protocol.Types.{Packet, plain, secured, ProtocolError}
use incom_udon_native_rust.Protocol.Packets.{decode}
use incom_udon_native_rust.Crypto.Primitives.{Primitives}
use incom_udon_native_rust.Crypto.Keys.{aes_gcm_v2_key_id}

-- The counter and the sealed bytes of a datagram that carries an encrypted frame: its key id is
-- that of the media key.
abbrev pub frame_of : Outcome ProtocolError Packet → List (ℕ × List ℕ)
frame_of (ok (secured h s payload tag)) =
    if s.key_id == aes_gcm_v2_key_id then (s.nonce, payload ++ tag) ∷ [] else []
frame_of (ok (plain h payload)) = []
frame_of (err e) = []
frame_of panic = []

abbrev pub media_frames : List (List ℕ) → List (ℕ × List ℕ)
media_frames [] = []
media_frames (bytes ∷ wire) = frame_of (decode bytes) ++ media_frames wire

abbrev pub counters : List (ℕ × List ℕ) → List ℕ
counters [] = []
counters ((n, sealed) ∷ frames) = n ∷ counters frames

-- the 12 bytes of a counter for the cipher
abbrev pub nonce_bytes : ℕ → List ℕ
nonce_bytes n = 0 ∷ 0 ∷ 0 ∷ 0 ∷ be64 n

-- The frame is what the cipher made of some message, under this key and with the frame's own
-- counter as its nonce.
abbrev pub IsSealed : Primitives → Option (List ℕ) → ℕ × List ℕ → Type 0
IsSealed c key (n, sealed) =
    (k : List ℕ) × (message : List ℕ) × (aad : List ℕ) × (key ≡ some k)
    × (c.aes_gcm_encrypt k (nonce_bytes n) message aad ≡ some sealed)

-- `count` numbers from `start` on, with wrap-around
abbrev pub successive : ℕ → ℕ → List ℕ
successive start zero = []
successive start (suc count) = successive start count ++ ((start + count) % u64_mod) ∷ []

pub media_frames-append :
    (wire : List (List ℕ)) (bytes : List ℕ)
    → media_frames (wire ++ bytes ∷ []) ≡ media_frames wire ++ frame_of (decode bytes)
media_frames-append [] bytes = append-nil (frame_of (decode bytes))
media_frames-append (first ∷ wire) bytes =
    ap (λ l. frame_of (decode first) ++ l) (media_frames-append wire bytes)
    ∙ sym (append_assoc (frame_of (decode first)) (media_frames wire) (frame_of (decode bytes)))

pub counters-append :
    (frames : List (ℕ × List ℕ)) (n : ℕ) (sealed : List ℕ)
    → counters (frames ++ (n, sealed) ∷ []) ≡ counters frames ++ n ∷ []
counters-append [] n sealed = refl
counters-append ((m, other) ∷ frames) n sealed = ap (λ l. m ∷ l) (counters-append frames n sealed)

pub get_elem?-counters :
    (frames : List (ℕ × List ℕ)) (i : ℕ) {n : ℕ} {sealed : List ℕ}
    → get_elem? frames i ≡ some (n, sealed)
    → get_elem? (counters frames) i ≡ some n
get_elem?-counters [] i g = cc
get_elem?-counters ((m, other) ∷ frames) zero g =
    ap (λ (o : Option (ℕ × List ℕ)). elim o [ none ↦ none | some x ↦ some x.0 ]) g
get_elem?-counters ((m, other) ∷ frames) (suc i) g = get_elem?-counters frames i g

length-successive : (start count : ℕ) → length (successive start count) ≡ count
length-successive start zero = refl
length-successive start (suc count) = omega (
  arith,
  length-append (successive start count) (((start + count) % u64_mod) ∷ []),
  length-successive start count,
)

get_elem?-successive :
    (start count i : ℕ) {n : ℕ}
    → get_elem? (successive start count) i ≡ some n
    → n ≡ (start + i) % u64_mod
get_elem?-successive start zero i g = cc
get_elem?-successive start (suc count) i {n} g =
    elim (Bool-cases (ltb i (length (successive start count)))) [
      | inl before ↦ get_elem?-successive start count i (
          sym (
            get_elem?-append_left (successive start count) (((start + count) % u64_mod) ∷ []) i
              (ground (arith, before)))
          ∙ g)
      | inr behind ↦
          let i_is : length (successive start count) ≡ i = omega (
            arith,
            get_elem?-lt (successive start (suc count)) i g,
            length-append (successive start count) (((start + count) % u64_mod) ∷ []),
            ltb→le i (length (successive start count)) behind,
          ) in
          let n_is : (start + count) % u64_mod ≡ n = cc (
            get_elem?-append_middle (successive start count) [] ((start + count) % u64_mod),
            ap (get_elem? (successive start (suc count))) i_is,
          ) in
          omega (arith, n_is, i_is, length-successive start count)
    ]

pub successive-lt :
    (start count i : ℕ) {n : ℕ} → get_elem? (successive start count) i ≡ some n → n < u64_mod
successive-lt start count i g = omega (arith, get_elem?-successive start count i g)

-- Among fewer than 2 ^ 64 successive numbers no two are the same.
pub successive-distinct :
    (start count i j : ℕ) {a b : ℕ}
    → i < j
    → j < 2 ^ 64
    → get_elem? (successive start count) i ≡ some a
    → get_elem? (successive start count) j ≡ some b
    → a ≢ b
successive-distinct start count i j {a} {b} lt small ga gb same = absurd (
    omega (
      arith,
      lt,
      small,
      same,
      get_elem?-successive start count i ga,
      get_elem?-successive start count j gb,
    ))
