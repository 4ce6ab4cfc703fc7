-- ===== src/Protocol/SoundPackets.antt =====
-- crates/incomudon-protocol/src/lib.rs: `Packet::decode` where it accepts.
use incom_udon_native_rust.Base.{
  ℕ, ◌+◌, ◌-◌, ◌*◌, ◌^◌, ◌≤◌, ◌<◌, List, ◌∷◌, ◌++◌, ltb, ◌==◌, if◌then◌else◌, ◌≡◌, refl, sym, ◌∙◌,
  ap, inl, inr, arith, Bool-cases, length, take, drop, subst, tests,
}
use incom_udon_native_rust.Base.{
  >>=-eq-ok, ok, ◌>>=◌, take-append-drop, drop-append_of_le, drop-drop, length-append, length-take,
  length-drop, append_assoc, All-take, All-drop,
}
use incom_udon_native_rust.Base.Words.{IsBytes, from_be32, be32, be64, be32-from_be32}
use incom_udon_native_rust.Protocol.Types.{
  legacy_header_len, fixed_header_len, security_header_len, auth_tag_len, PacketHeader,
  SecurityHeader, SecurityIsTyped, Packet, plain, secured,
}
use incom_udon_native_rust.Protocol.Header.{
  encode_header, decode_header, encode_security, decode_security,
}
use incom_udon_native_rust.Protocol.Packets.{secured_header_len, decode_body, decode}
use incom_udon_native_rust.Protocol.Frames.{HeaderFrames, PlainFrames, SecuredFrames, Frames}
use incom_udon_native_rust.Protocol.Sound.{decode_header-HeaderFrames}

pub length-encode_header :
    (h : PacketHeader)
    → length (encode_header h) ≡ (if h.header_len == legacy_header_len then 14 else 16)
unfolding encode_header
length-encode_header h = ground arith

pub length-encode_header_long :
    (h : PacketHeader)
    → secured_header_len ≤ h.header_len
    → length (encode_header h) ≡ fixed_header_len
length-encode_header_long h le = ground (arith, length-encode_header h)

pub length-encode_security : (s : SecurityHeader) → length (encode_security s) ≡ security_header_len
unfolding encode_security
length-encode_security s = refl

-- The bytes of an accepted security header, and what follows them.
record SecurityFrames (s : SecurityHeader) (bs : List ℕ) : Type 0 where
  typed : SecurityIsTyped s
  rest : List ℕ
  splits : bs ≡ encode_security s ++ rest

be64-split : (a b : ℕ) → b < 2 ^ 32 → be64 (a * 2 ^ 32 + b) ≡ be32 a ++ be32 b
be64-split a b h = ground arith

split_twelve-Frames :
    (bs : List ℕ) {s : SecurityHeader}
    → IsBytes bs
    → security_header_len ≤ length bs
    → decode_security bs ≡ ok s
    → SecurityFrames s bs
unfolding decode_security encode_security
split_twelve-Frames (a ∷ b ∷ c ∷ d ∷ e ∷ f ∷ g ∷ h ∷ i ∷ j ∷ k ∷ l ∷ rest) {s} bytes le eq =
    record {
      typed = ground arith;
      rest = rest;
      splits = ground (
        arith,
        be32-from_be32 a b c d,
        be32-from_be32 e f g h,
        be32-from_be32 i j k l,
        be64-split (from_be32 a b c d) (from_be32 e f g h),
      );
    }
split_twelve-Frames _ bytes le eq = absurd (omega arith)

module _ (h : PacketHeader) (bs : List ℕ) (f : HeaderFrames h bs) where
  open f use {accepted, rest, splits, fits}

  -- where the header's own bytes end
  size : ℕ
  size = length (encode_header h)

  size-le : size ≤ h.header_len
  unfolding size
  size-le = ground (arith, length-encode_header h, accepted.len_is)

  size-eq : secured_header_len ≤ h.header_len → size ≡ fixed_header_len
  unfolding size
  size-eq le = ground (arith, length-encode_header h)

  drop-header : (n : ℕ) → size ≤ n → drop n bs ≡ drop (n - size) rest
  unfolding size
  drop-header n le = ap (drop n) splits ∙ drop-append_of_le n (encode_header h) rest le

  length-rest : length bs ≡ size + length rest
  unfolding size
  length-rest = ap length splits ∙ length-append (encode_header h) rest

  plain-Frames : h.header_len < secured_header_len → PlainFrames h (drop h.header_len bs) bs
  unfolding size
  plain-Frames short = record {
    accepted = accepted;
    short = short;
    extension = take (h.header_len - size) rest;
    header_size = omega (
      arith,
      length-append (encode_header h) (take (h.header_len - size) rest),
      length-take (h.header_len - size) rest,
      size-le,
      length-rest,
      fits,
    );
    splits =
        splits
        ∙ ap (λ r. encode_header h ++ r)
            (sym (take-append-drop (h.header_len - size) rest)
              ∙ ap (λ r. take (h.header_len - size) rest ++ r)
                  (sym (drop-header h.header_len size-le)));
  }

  module _ (long : secured_header_len ≤ h.header_len)
      (room : h.header_len + auth_tag_len ≤ length bs) where
    -- the security header with its extension, the payload and the tag
    middle : List ℕ
    middle = take (h.header_len - fixed_header_len) (drop fixed_header_len bs)

    payload_bytes : List ℕ
    payload_bytes = take (length bs - auth_tag_len - h.header_len) (drop h.header_len bs)

    tag_bytes : List ℕ
    tag_bytes = drop (length bs - auth_tag_len) bs

    rest-eq : rest ≡ middle ++ (payload_bytes ++ tag_bytes)
    unfolding middle payload_bytes tag_bytes
    rest-eq =
        sym (
          drop-header fixed_header_len (omega (arith, size-eq long))
          ∙ ap (λ n. drop n rest) {y = 0} (omega (arith, size-eq long)))
        ∙ sym (take-append-drop (h.header_len - fixed_header_len) (drop fixed_header_len bs))
        ∙ ap (λ r. middle ++ r)
            (drop-drop (h.header_len - fixed_header_len) fixed_header_len bs
              ∙ ap (λ n. drop n bs) {y = h.header_len} (omega arith)
              ∙ sym (
                  take-append-drop (length bs - auth_tag_len - h.header_len) (drop h.header_len bs))
              ∙ ap (λ r. payload_bytes ++ r)
                  (drop-drop (length bs - auth_tag_len - h.header_len) h.header_len bs
                    ∙ ap (λ n. drop n bs) {y = length bs - auth_tag_len} (omega arith)))

    length-middle : length middle ≡ h.header_len - fixed_header_len
    unfolding middle
    length-middle = omega (
      arith,
      length-take (h.header_len - fixed_header_len) (drop fixed_header_len bs),
      length-drop fixed_header_len bs,
    )

    secured-Frames :
        (s : SecurityHeader)
        → IsBytes bs
        → decode_security middle ≡ ok s
        → SecuredFrames h s payload_bytes tag_bytes bs
    unfolding size tag_bytes
    secured-Frames s bytes d =
        let m =
          split_twelve-Frames middle
            (unfold middle in
              All-take _ (h.header_len - fixed_header_len) _ (All-drop _ fixed_header_len bs bytes))
            (omega (arith, length-middle)) d in
        record {
          accepted = accepted;
          long = long;
          security_typed = m.typed;
          tag_size = omega (arith, length-drop (length bs - auth_tag_len) bs);
          extension = m.rest;
          header_size = omega (
            arith,
            length-append (encode_header h) (encode_security s ++ m.rest),
            ap length m.splits,
            length-middle,
            size-eq long,
          );
          splits =
              splits
              ∙ ap (λ r. encode_header h ++ r)
                  (rest-eq
                    ∙ ap (λ r. r ++ (payload_bytes ++ tag_bytes)) m.splits
                    ∙ append_assoc (encode_security s) m.rest (payload_bytes ++ tag_bytes));
        }

-- `decode_body` in the two shapes that it takes.
pub decode_body-plain :
    (bs : List ℕ) (h : PacketHeader)
    → h.header_len ≤ length bs
    → h.header_len < secured_header_len
    → decode_body bs h ≡ ok (plain h (drop h.header_len bs))
unfolding decode_body
decode_body-plain bs h fits short = ground arith

decode_body-room :
    (bs : List ℕ) (h : PacketHeader) {p : Packet}
    → secured_header_len ≤ h.header_len
    → decode_body bs h ≡ ok p
    → h.header_len + auth_tag_len ≤ length bs
unfolding decode_body
decode_body-room bs h long e = ground arith

module _ (bs : List ℕ) (h : PacketHeader) (long : secured_header_len ≤ h.header_len)
    (room : h.header_len + auth_tag_len ≤ length bs) where
  pub decode_body-secured : decode_body bs h ≡ (
      decode_security (take (h.header_len - fixed_header_len) (drop fixed_header_len bs)) >>= λ s.
      ok (
        secured h s
          (take (length bs - auth_tag_len - h.header_len) (drop h.header_len bs))
          (drop (length bs - auth_tag_len) bs)))
  unfolding decode_body
  decode_body-secured = ground arith

decode_body-Frames :
    (bs : List ℕ) (h : PacketHeader) (p : Packet)
    → IsBytes bs
    → HeaderFrames h bs
    → decode_body bs h ≡ ok p
    → Frames p bs
unfolding middle payload_bytes tag_bytes
decode_body-Frames bs h p bytes f e = elim (Bool-cases (ltb h.header_len secured_header_len)) [
  | inl short ↦
      let le : h.header_len < secured_header_len = omega tests in
      let same : plain h (drop h.header_len bs) ≡ p = cc (decode_body-plain bs h f.fits le) in
      subst (λ p. Frames p bs) same (plain-Frames h bs f le)
  | inr long ↦
      let le : secured_header_len ≤ h.header_len = omega tests in
      let room = decode_body-room bs h le e in
      let (s, e1, e2) = >>=-eq-ok _ _ (sym (decode_body-secured bs h le room) ∙ e) in
      let same : secured h s (payload_bytes h bs f le room) (tag_bytes h bs f le room) ≡ p = cc in
      subst (λ p. Frames p bs) same (secured-Frames h bs f le room s bytes e1)
]

-- Whatever `decode` accepts is the framing of the packet that it returns.
pub decode-Frames : (bs : List ℕ) {p : Packet} → IsBytes bs → decode bs ≡ ok p → Frames p bs
unfolding decode
decode-Frames bs {p} bytes e =
    let (h, e1, e2) = >>=-eq-ok (decode_header bs) (decode_body bs) e in
    decode_body-Frames bs h p bytes (decode_header-HeaderFrames bs bytes e1) e2
