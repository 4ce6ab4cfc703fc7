-- ===== src/Protocol/Complete.antt =====
-- crates/incomudon-protocol/src/lib.rs: `Packet::decode` on the framings of a packet.
use incom_udon_native_rust.Base.{
  ℕ, ◌+◌, ◌-◌, ◌≤◌, List, ◌++◌, ◌≡◌, sym, ◌∙◌, ap, ◌↔◌, ◌⊎◌, inl, inr, arith, length, take, drop,
  subst, ok, ◌>>=◌, length-append, append_assoc, take-append_of_length, drop-append_of_length,
}
use incom_udon_native_rust.Base.Words.{IsBytes, from_be64_lem}
use incom_udon_native_rust.Protocol.Types.{
  fixed_header_len, auth_tag_len, PacketHeader, SecurityHeader, SecurityIsTyped, Packet, plain,
  secured,
}
use incom_udon_native_rust.Protocol.Header.{
  encode_header, decode_header, encode_security, decode_security, decode_fields,
}
use incom_udon_native_rust.Protocol.Packets.{decode_body, decode}
use incom_udon_native_rust.Protocol.Frames.{HeaderIsAccepted, PlainFrames, SecuredFrames, Frames}
use incom_udon_native_rust.Protocol.RoundTrip.{checked-encode_header, fields-encode_header}
use incom_udon_native_rust.Protocol.SoundPackets.{
  length-encode_header_long, decode_body-plain, decode_body-secured, decode-Frames,
}

pub decode_header-encode_header :
    (h : PacketHeader) (rest : List ℕ)
    → HeaderIsAccepted h
    → h.header_len ≤ length (encode_header h ++ rest)
    → decode_header (encode_header h ++ rest) ≡ ok h
unfolding decode_header
decode_header-encode_header h rest a fits =
    ap (λ r. r >>= decode_fields (encode_header h ++ rest))
      (checked-encode_header h rest a.typed a.version_is (known a.len_is) fits)
    ∙ fields-encode_header h rest a.typed (ground (arith, a.len_is))
  where
    known :
        ((h.header_len ≡ 14) × (h.flags ≡ 0)) ⊎ (16 ≤ h.header_len)
        → (h.header_len ≡ 14) ⊎ (16 ≤ h.header_len)
    known (inl (e, _)) = inl e
    known (inr le) = inr le

pub decode_security-encode_security :
    (s : SecurityHeader) (rest : List ℕ)
    → SecurityIsTyped s
    → decode_security (encode_security s ++ rest) ≡ ok s
unfolding decode_security encode_security
decode_security-encode_security s rest t = ground (arith, from_be64_lem s.nonce t.nonce_u64)

module _ (h : PacketHeader) (bs : List ℕ) where
  decode-of_header :
      (rest : List ℕ)
      → HeaderIsAccepted h
      → bs ≡ encode_header h ++ rest
      → h.header_len ≤ length bs
      → decode bs ≡ decode_body bs h
  unfolding decode
  decode-of_header rest a e fits =
      ap (λ r. r >>= decode_body bs)
        (ap decode_header e
          ∙ decode_header-encode_header h rest a (subst (λ x. h.header_len ≤ length x) e fits))

  -- The datagram cut behind its header.
  drop-header_len :
      (front rest : List ℕ)
      → bs ≡ front ++ rest
      → length front ≡ h.header_len
      → drop h.header_len bs ≡ rest
  drop-header_len front rest e n =
      ap (drop h.header_len) e ∙ drop-append_of_length h.header_len front rest n

  plain-decode : (payload : List ℕ) → PlainFrames h payload bs → decode bs ≡ ok (plain h payload)
  plain-decode payload f =
      let fits : h.header_len ≤ length bs =
        omega (arith, ap length regrouped, length-append front payload, f.header_size) in
      decode-of_header (f.extension ++ payload) f.accepted f.splits fits
      ∙ decode_body-plain bs h fits f.short
      ∙ ap (λ r. ok (plain h r)) (drop-header_len front payload regrouped f.header_size)
    where
      front : List ℕ
      front = encode_header h ++ f.extension

      regrouped : bs ≡ front ++ payload
      regrouped = f.splits ∙ sym (append_assoc (encode_header h) f.extension payload)

  module _ (s : SecurityHeader) (payload tag : List ℕ) (f : SecuredFrames h s payload tag bs) where
    open f use {accepted, long, extension, splits, header_size, tag_size, security_typed}

    middle : List ℕ
    middle = encode_security s ++ extension

    front : List ℕ
    front = encode_header h ++ middle

    splits_three : bs ≡ encode_header h ++ (middle ++ (payload ++ tag))
    unfolding middle
    splits_three =
        splits
        ∙ ap (λ r. encode_header h ++ r)
            (sym (append_assoc (encode_security s) extension (payload ++ tag)))

    splits_front : bs ≡ front ++ (payload ++ tag)
    unfolding front
    splits_front = splits_three ∙ sym (append_assoc (encode_header h) middle (payload ++ tag))

    sizes :
        (length bs ≡ h.header_len + length payload + auth_tag_len)
        × (length (encode_header h) ≡ fixed_header_len)
        × (length middle ≡ h.header_len - fixed_header_len)
    unfolding front middle
    sizes = omega (
      arith,
      ap length splits_front,
      length-append front (payload ++ tag),
      length-append payload tag,
      tag_size,
      header_size,
      length-encode_header_long h long,
      length-append (encode_header h) middle,
    )

    drop-front : drop h.header_len bs ≡ payload ++ tag
    unfolding front middle
    drop-front = drop-header_len front (payload ++ tag) splits_front header_size

    security-middle : take (h.header_len - fixed_header_len) (drop fixed_header_len bs) ≡ middle
    security-middle =
        ap (take (h.header_len - fixed_header_len)) (
          ap (drop fixed_header_len) splits_three
          ∙ drop-append_of_length fixed_header_len (encode_header h) (middle ++ (payload ++ tag))
              (sizes.1))
        ∙ take-append_of_length (h.header_len - fixed_header_len) middle (payload ++ tag) sizes.2

    tag-back : drop (length bs - auth_tag_len) bs ≡ tag
    tag-back =
        ap (drop (length bs - auth_tag_len)) splits_tag
        ∙ drop-append_of_length (length bs - auth_tag_len) (front ++ payload) tag
            (omega (arith, ap length splits_tag, length-append (front ++ payload) tag, tag_size))
      where
        splits_tag : bs ≡ (front ++ payload) ++ tag
        splits_tag = splits_front ∙ sym (append_assoc front payload tag)

    payload-back : take (length bs - auth_tag_len - h.header_len) (drop h.header_len bs) ≡ payload
    payload-back =
        ap (take (length bs - auth_tag_len - h.header_len)) drop-front
        ∙ take-append_of_length (length bs - auth_tag_len - h.header_len) payload tag
            (omega (arith, sizes.0))

    secured-decode : decode bs ≡ ok (secured h s payload tag)
    unfolding middle
    secured-decode =
        decode-of_header (middle ++ (payload ++ tag)) accepted splits_three (omega (arith, sizes.0))
        ∙ decode_body-secured bs h long (omega (arith, sizes.0))
        ∙ rw (
          security-middle,
          decode_security-encode_security s extension security_typed,
          payload-back,
          tag-back,
        )

pub Frames-decode : (p : Packet) (bs : List ℕ) → Frames p bs → decode bs ≡ ok p
Frames-decode (plain h payload) bs f = plain-decode h bs payload f
Frames-decode (secured h s payload tag) bs f = secured-decode h bs s payload tag f

-- On bytes, `decode` returns a packet exactly when the datagram is a framing of it: the header is
-- of this version and of a known length, a header longer than this version knows is skipped, the
-- payload is all that is left, less the sixteen bytes of tag behind a secured one.
pub decode-eq-ok_iff : (bs : List ℕ) (p : Packet) → IsBytes bs → (decode bs ≡ ok p) ↔ Frames p bs
decode-eq-ok_iff bs p bytes = (decode-Frames bs bytes, Frames-decode p bs)
