-- ===== src/Protocol/Errors.antt =====
-- crates/incomudon-protocol/src/lib.rs: how `Packet::decode` ends on any datagram, errors included.
use incom_udon_native_rust.Base.{
  ℕ, ◌+◌, ◌-◌, ◌≤◌, ◌<◌, List, ◌∷◌, ◌≡◌, ◌≢◌, refl, sym, ◌∙◌, ap, ◌⊎◌, inl, inr, arith, length,
  drop, subst, >>=-eq-ok, Outcome, ok, err, panic, ◌>>=◌, length-take, length-drop, Option, none,
  ◌*◌, some, get_elem?, tests, lt→ltb, ge→ltb, Bool-cases, ltb,
}
use incom_udon_native_rust.Base.Words.{from_be16}
use incom_udon_native_rust.Protocol.Types.{
  protocol_version, legacy_header_len, fixed_header_len, auth_tag_len, security_header_len,
  PacketHeader, Packet, ProtocolError, packet_too_short, unsupported_version,
  unsupported_packet_type, unsupported_header_length, invalid_packet_length,
}
use incom_udon_native_rust.Protocol.Header.{
  decode_header, decode_security, checked_header_len, decode_fields, type_try_from,
}
use incom_udon_native_rust.Protocol.Packets.{secured_header_len, decode_body, decode}
use incom_udon_native_rust.Protocol.Views.{
  Head, ◌▸◌, split_head, fields_of, decode_fields_legacy, decode_fields_fixed,
}
use incom_udon_native_rust.Protocol.Sound.{split_two, Checked, checked_header_len-Checked}
use incom_udon_native_rust.Protocol.SoundPackets.{decode_body-plain, decode_body-secured}

-- The value of the header's length field.
abbrev pub len_field : List ℕ → Option ℕ
len_field (version ∷ type_value ∷ a ∷ b ∷ rest) = some (a * 256 + b)
len_field _ = none

-- A datagram of `size` bytes is too short for its header, or for a tag behind its header.
abbrev pub IsTruncated : Option ℕ → ℕ → Type 0
IsTruncated none size = ⊥
IsTruncated (some n) size = (size < n) ⊎ ((secured_header_len ≤ n) × (size < n + auth_tag_len))

-- What each error says of the datagram.
abbrev pub Rejects : List ℕ → ProtocolError → Type 0
Rejects bs packet_too_short = length bs < legacy_header_len
Rejects bs (unsupported_version v) =
    (legacy_header_len ≤ length bs) × (get_elem? bs 0 ≡ some v) × (v ≢ protocol_version)
Rejects bs (unsupported_packet_type t) =
    (legacy_header_len ≤ length bs) × (get_elem? bs 1 ≡ some t) × ((t ≡ 0) ⊎ (15 < t))
Rejects bs (unsupported_header_length n) =
    (len_field bs ≡ some n) × (n < fixed_header_len) × (n ≢ legacy_header_len)
Rejects bs invalid_packet_length = IsTruncated (len_field bs) (length bs)

-- The outcome is a value, or an error that says the truth.
abbrev pub Settles {ℓ} : {A : Type ℓ} → List ℕ → Outcome ProtocolError A → Type 0
Settles bs (ok a) = Unit
Settles bs (err e) = Rejects bs e
Settles bs panic = ⊥

head-Settles : (k : Head) (rest : List ℕ) → Settles (k ▸ rest) (checked_header_len (k ▸ rest))
unfolding checked_header_len
head-Settles k rest = ground arith

fields_of-Settles :
    (k : Head) (rest : List ℕ) (n flags : ℕ) → Settles (k ▸ rest) (fields_of k n flags)
unfolding type_try_from
fields_of-Settles k rest n flags = ground arith

checked_header_len-Settles : (bs : List ℕ) → Settles bs (checked_header_len bs)
checked_header_len-Settles bs = elim (Bool-cases (ltb (length bs) legacy_header_len)) [
  | inl short ↦ unfold checked_header_len in rw short (omega tests)
  | inr long ↦
      let (k, rest, e) = split_head bs (omega tests) in
      subst (λ x. Settles x (checked_header_len x)) (sym e) (head-Settles k rest)
]

decode_fields-Settles : (bs : List ℕ) (n : ℕ) → Checked bs n → Settles bs (decode_fields bs n)
decode_fields-Settles bs n c =
    subst (λ x. Settles x (decode_fields x n)) (sym c.splits) (go c.known)
  where
    go :
        (n ≡ legacy_header_len) ⊎ (fixed_header_len ≤ n)
        → Settles (c.head ▸ c.rest) (decode_fields (c.head ▸ c.rest) n)
    go (inl e) =
        subst (λ n. Settles (c.head ▸ c.rest) (decode_fields (c.head ▸ c.rest) n)) (sym e)
          (rw (decode_fields_legacy c.head c.rest)
            (fields_of-Settles c.head c.rest legacy_header_len 0))
    go (inr le) =
        let (f, g, r, e) = split_two c.rest (omega (arith, c.fits, ap length c.splits)) in
        rw e (
          rw (decode_fields_fixed c.head f g r n (omega arith))
            (fields_of-Settles c.head (f ∷ g ∷ r) n (from_be16 f g)))

abbrev IsOk {ℓ κ} : {E : Type ℓ} {A : Type κ} → Outcome E A → Type 0
IsOk (ok a) = Unit
IsOk (err e) = ⊥
IsOk panic = ⊥

-- On twelve bytes the security header is read whole.
decode_security-IsOk : (bs : List ℕ) → security_header_len ≤ length bs → IsOk (decode_security bs)
unfolding decode_security
decode_security-IsOk (a ∷ b ∷ c ∷ d ∷ e ∷ f ∷ g ∷ h ∷ i ∷ j ∷ k ∷ l ∷ rest) le = ground arith
decode_security-IsOk _ le = absurd (omega arith)

header_len-decode_fields :
    (bs : List ℕ) (n : ℕ) (h : PacketHeader) → decode_fields bs n ≡ ok h → h.header_len ≡ n
unfolding decode_fields type_try_from
header_len-decode_fields bs n h e = ground arith

IsOk-bind :
    {A : Type 0} (bs : List ℕ) (r : Outcome ProtocolError A) (f : A → Packet)
    → IsOk r
    → Settles bs (r >>= λ a. ok (f a))
IsOk-bind bs (ok a) f h = tt
IsOk-bind bs (err e) f h = absurd h
IsOk-bind bs panic f h = h

decode_body-truncated :
    (bs : List ℕ) (h : PacketHeader)
    → secured_header_len ≤ h.header_len
    → length bs < h.header_len + auth_tag_len
    → decode_body bs h ≡ err invalid_packet_length
unfolding decode_body
decode_body-truncated bs h long short =
    rw (ge→ltb h.header_len secured_header_len long, lt→ltb _ _ short)

decode_body-Settles :
    (bs : List ℕ) (h : PacketHeader)
    → h.header_len ≤ length bs
    → len_field bs ≡ some h.header_len
    → Settles bs (decode_body bs h)
decode_body-Settles bs h fits e = elim (Bool-cases (ltb h.header_len secured_header_len)) [
  | inl short ↦ rw (decode_body-plain bs h fits (omega tests)) tt
  | inr long ↦ elim (Bool-cases (ltb (length bs) (h.header_len + auth_tag_len))) [
    | inl truncated ↦
        rw (decode_body-truncated bs h (omega tests) (omega tests)) (ground (arith, e))
    | inr room ↦ rw (decode_body-secured bs h (omega tests) (omega tests)) (
        IsOk-bind bs _ _ (
          decode_security-IsOk _ (
            omega (
              tests,
              length-take (h.header_len - fixed_header_len) (drop fixed_header_len bs),
              length-drop fixed_header_len bs,
            ))))
  ]
]

Settles-bind :
    {A B : Type 0} (bs : List ℕ) (r : Outcome ProtocolError A) (f : A → Outcome ProtocolError B)
    → Settles bs r
    → ((a : A) → r ≡ ok a → Settles bs (f a))
    → Settles bs (r >>= f)
Settles-bind bs (ok a) f h k = k a refl
Settles-bind bs (err e) f h k = h
Settles-bind bs panic f h k = h

Checked-len_field : (bs : List ℕ) {n : ℕ} → Checked bs n → len_field bs ≡ some n
Checked-len_field bs c = ap len_field c.splits ∙ ap some (sym c.len_is)

-- On every datagram `decode` ends with a packet or an error, never in a panic, and the error tells
-- the truth: too short means under fourteen bytes, an unsupported version, type or header length
-- is the one in the datagram, and an invalid length means that the header, or the tag behind a
-- secured header, does not fit.
pub decode-Settles : (bs : List ℕ) → Settles bs (decode bs)
unfolding decode decode_header
decode-Settles bs =
    Settles-bind bs (decode_header bs) (decode_body bs)
      (Settles-bind bs (checked_header_len bs) (decode_fields bs) (checked_header_len-Settles bs)
        (λ n e. decode_fields-Settles bs n (checked_header_len-Checked bs e)))
      λ h e.
        let (n, e1, e2) = >>=-eq-ok (checked_header_len bs) (decode_fields bs) e in
        let c = checked_header_len-Checked bs e1 in
        let e3 = header_len-decode_fields bs n h e2 in
        decode_body-Settles bs h (omega (arith, c.fits)) (Checked-len_field bs c ∙ ap some (sym e3))
