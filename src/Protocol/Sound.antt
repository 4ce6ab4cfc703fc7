-- ===== src/Protocol/Sound.antt =====
-- crates/incomudon-protocol/src/lib.rs: `PacketHeader::decode` where it accepts.
use incom_udon_native_rust.Base.{
  ℕ, ◌≤◌, ◌<◌, List, [], ◌∷◌, ◌≡◌, refl, sym, ◌∙◌, ap, ◌⊎◌, inl, inr, arith,
}
use incom_udon_native_rust.Base.Words.{u16_mod}
use incom_udon_native_rust.Base.{>>=-eq-ok, length, ok, subst}
use incom_udon_native_rust.Base.Words.{IsBytes, from_be16}
use incom_udon_native_rust.Protocol.Types.{
  protocol_version, legacy_header_len, fixed_header_len, PacketType, PacketHeader, HeaderIsTyped,
}
use incom_udon_native_rust.Protocol.Header.{
  type_byte, type_try_from, decode_header, checked_header_len, decode_fields,
}
use incom_udon_native_rust.Protocol.Views.{
  Head, ◌▸◌, split_head, len_of, header_of_head, fields_of, type_byte-of_type_try_from,
  decode_fields_legacy, decode_fields_fixed, encode_header_legacy, encode_header_fixed,
}
use incom_udon_native_rust.Protocol.Frames.{HeaderFrames}

-- Inversion of the checks: they pass only with the first fourteen bytes there.
pub record Checked (bs : List ℕ) (header_len : ℕ) : Type 0 where
  pub head : Head
  pub rest : List ℕ
  pub splits : bs ≡ head ▸ rest
  pub version_is : head.version ≡ protocol_version
  pub len_is : header_len ≡ len_of head
  pub known : (header_len ≡ legacy_header_len) ⊎ (fixed_header_len ≤ header_len)
  pub fits : header_len ≤ length bs

pub checked_header_len-long :
    (bs : List ℕ) {n : ℕ} → checked_header_len bs ≡ ok n → legacy_header_len ≤ length bs
unfolding checked_header_len
checked_header_len-long bs h = ground arith

pub checked_header_len-Checked : (bs : List ℕ) {n : ℕ} → checked_header_len bs ≡ ok n → Checked bs n
unfolding checked_header_len
checked_header_len-Checked bs {n} h =
    let (k, rest, e) = split_head bs (checked_header_len-long bs h) in
    let h' : checked_header_len (k ▸ rest) ≡ ok n = subst (λ x. checked_header_len x ≡ ok n) e h in
    record {
      head = k;
      rest = rest;
      splits = e;
      version_is = ground arith;
      len_is = ground arith;
      known = ground arith;
      fits = rw e (ground arith);
    }

-- The header that the fourteen bytes and a known type give.
record FromHead (k : Head) (header_len flags : ℕ) (h : PacketHeader) : Type 0 where
  packet_type : PacketType
  type_is : type_byte packet_type ≡ k.type_value
  header_is : h ≡ header_of_head k packet_type header_len flags

fields_of-FromHead :
    (k : Head) (header_len flags : ℕ) {h : PacketHeader}
    → fields_of k header_len flags ≡ ok h
    → FromHead k header_len flags h
fields_of-FromHead k header_len flags {h} e =
    let (t, e1, e2) =
      >>=-eq-ok (type_try_from k.type_value) (λ t. ok (header_of_head k t header_len flags)) e in
    record { packet_type = t; type_is = type_byte-of_type_try_from k.type_value e1; header_is = cc }

head-HeaderIsTyped :
    (k : Head) (t : PacketType) {flags : ℕ}
    → IsBytes (k ▸ [])
    → flags < u16_mod
    → HeaderIsTyped (header_of_head k t (len_of k) flags)
head-HeaderIsTyped k t b f = omega arith

module _ (k : Head) (rest : List ℕ) (h : PacketHeader) (bytes : IsBytes (k ▸ rest))
    (version_is : k.version ≡ protocol_version) (fits : len_of k ≤ length (k ▸ rest)) where
  legacy-HeaderFrames :
      len_of k ≡ legacy_header_len → FromHead k (len_of k) 0 h → HeaderFrames h (k ▸ rest)
  legacy-HeaderFrames e g =
      subst (λ h. HeaderFrames h (k ▸ rest)) (sym g.header_is)
        (record {
          accepted = record {
            typed = head-HeaderIsTyped k g.packet_type (omega arith) (omega arith);
            version_is = version_is;
            len_is = inl (e, refl);
          };
          fits = fits;
          rest = rest;
          splits = rw (encode_header_legacy k g.packet_type (omega arith) g.type_is e);
        })

  fixed-HeaderFrames :
      (f f' : ℕ) (rest' : List ℕ)
      → rest ≡ f ∷ f' ∷ rest'
      → fixed_header_len ≤ len_of k
      → FromHead k (len_of k) (from_be16 f f') h
      → HeaderFrames h (k ▸ rest)
  fixed-HeaderFrames f f' rest' e le g =
      let b : IsBytes (k ▸ (f ∷ f' ∷ rest')) = subst (λ r. IsBytes (k ▸ r)) e bytes in
      subst (λ h. HeaderFrames h (k ▸ rest)) (sym g.header_is)
        (record {
          accepted = record {
            typed = head-HeaderIsTyped k g.packet_type (omega arith) (omega arith);
            version_is = version_is;
            len_is = inr le;
          };
          fits = fits;
          rest = rest';
          splits =
              rw
                (e, encode_header_fixed k f f' g.packet_type (omega arith) g.type_is (omega arith));
        })

pub split_two :
    (rest : List ℕ) → 2 ≤ length rest → (f : ℕ) × (g : ℕ) × (r : List ℕ) × (rest ≡ f ∷ g ∷ r)
split_two (f ∷ g ∷ r) h = (f, g, r, refl)
split_two _ h = absurd (omega arith)

head-HeaderFrames :
    (k : Head) (rest : List ℕ) (n : ℕ) {h : PacketHeader}
    → IsBytes (k ▸ rest)
    → k.version ≡ protocol_version
    → n ≡ len_of k
    → (n ≡ legacy_header_len) ⊎ (fixed_header_len ≤ n)
    → n ≤ length (k ▸ rest)
    → decode_fields (k ▸ rest) n ≡ ok h
    → HeaderFrames h (k ▸ rest)
head-HeaderFrames k rest n {h} b v e (inl l) fits d =
    let d' : fields_of k legacy_header_len 0 ≡ ok h =
      sym (decode_fields_legacy k rest) ∙ ap (decode_fields (k ▸ rest)) (sym l) ∙ d in
    legacy-HeaderFrames k rest h b v (omega arith) (sym e ∙ l)
      (subst (λ m. FromHead k m 0 h) (sym l ∙ e) (fields_of-FromHead k legacy_header_len 0 d'))
head-HeaderFrames k rest n {h} b v e (inr l) fits d =
    let (f, g, r, e') = split_two rest (omega arith) in
    let d' : fields_of k n (from_be16 f g) ≡ ok h =
      sym (decode_fields_fixed k f g r n (omega arith))
      ∙ ap (λ r. decode_fields (k ▸ r) n) (sym e')
      ∙ d in
    fixed-HeaderFrames k rest h b v (omega arith) f g r e' (omega arith)
      (subst (λ m. FromHead k m (from_be16 f g) h) e (fields_of-FromHead k n (from_be16 f g) d'))

pub decode_header-HeaderFrames :
    (bs : List ℕ) {h : PacketHeader} → IsBytes bs → decode_header bs ≡ ok h → HeaderFrames h bs
unfolding decode_header
decode_header-HeaderFrames bs {h} b d =
    let (n, passed, fields) = >>=-eq-ok (checked_header_len bs) (decode_fields bs) d in
    let c = checked_header_len-Checked bs passed in
    subst (λ x. HeaderFrames h x) (sym c.splits)
      (head-HeaderFrames c.head c.rest n (subst IsBytes c.splits b) c.version_is c.len_is c.known
        (subst (λ x. n ≤ length x) c.splits c.fits)
        (subst (λ x. decode_fields x n ≡ ok h) c.splits fields))
