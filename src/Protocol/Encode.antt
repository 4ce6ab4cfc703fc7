-- ===== src/Protocol/Encode.antt =====
-- crates/incomudon-protocol/src/lib.rs: `Packet::encode` against `Packet::decode`, both ways, and
-- the additional data of the authenticated encryption against the datagram.
use incom_udon_native_rust.Base.{
  ℕ, ◌≤◌, List, [], ◌++◌, Bool, true, false, ◌||◌, ◌==◌, if◌then◌else◌, ◌≡◌, ◌≢◌, sym, ◌∙◌, ap, ◌⊎◌,
  inl, inr, arith, length, take, ok, err, some, length-append, append_assoc, append-nil,
  take-append_of_length, length-eq-zero, Bool-cases, ==_iff,
}
use incom_udon_native_rust.Base.Words.{IsBytes}
use incom_udon_native_rust.Protocol.Types.{
  protocol_version, legacy_header_len, fixed_header_len, auth_tag_len, PacketHeader, SecurityHeader,
  HeaderIsTyped, SecurityIsTyped, Packet, plain, secured, header_of, IsTyped, unsupported_version,
  unsupported_header_length,
}
use incom_udon_native_rust.Protocol.Header.{
  encode_header, decode_header, encode_security, checked_header_len,
}
use incom_udon_native_rust.Protocol.Packets.{secured_header_len, encode, decode, aad, has_v2_flag}
use incom_udon_native_rust.Protocol.Frames.{HeaderIsAccepted, PlainFrames, SecuredFrames, Frames}
use incom_udon_native_rust.Protocol.SoundPackets.{
  length-encode_header, length-encode_header_long, length-encode_security, decode-Frames,
}
use incom_udon_native_rust.Protocol.Complete.{Frames-decode}

-- A legacy header has no room for the flags: a receiver reads them as 0.
abbrev pub received_header : PacketHeader → PacketHeader
received_header h = if h.header_len == legacy_header_len then record h { flags = 0 } else h

abbrev pub received : Packet → Packet
received (plain h payload) = plain (received_header h) payload
received (secured h s payload tag) = secured (received_header h) s payload tag

encode_header-received : (h : PacketHeader) → encode_header (received_header h) ≡ encode_header h
unfolding encode_header
encode_header-received h = ground arith

received-IsAccepted :
    (h : PacketHeader)
    → HeaderIsTyped h
    → h.version ≡ protocol_version
    → (h.header_len ≡ legacy_header_len) ⊎ (fixed_header_len ≤ h.header_len)
    → HeaderIsAccepted (received_header h)
received-IsAccepted h t v l = record {
  typed = ground arith;
  version_is = ground arith;
  len_is = elim (Bool-cases (h.header_len == legacy_header_len)) [
    | inl e ↦ inl (ground arith, ground arith)
    | inr ne ↦ inr (ground arith)
  ];
}

decode_other_version :
    (h : PacketHeader) (rest : List ℕ)
    → h.version ≢ protocol_version
    → decode (encode_header h ++ rest) ≡ err (unsupported_version h.version)
unfolding decode decode_header checked_header_len encode_header
decode_other_version h rest ne = ground arith

encode-plain :
    (h : PacketHeader) (payload : List ℕ) {bs : List ℕ}
    → encode (plain h payload) ≡ ok bs
    → ((h.header_len ≡ legacy_header_len) ⊎ (h.header_len ≡ fixed_header_len))
      × (bs ≡ encode_header h ++ payload)
unfolding encode
encode-plain h payload e = ground arith

encode-secured :
    (h : PacketHeader) (s : SecurityHeader) (payload tag : List ℕ) {bs : List ℕ}
    → encode (secured h s payload tag) ≡ ok bs
    → (h.header_len ≡ secured_header_len)
      × (bs ≡ encode_header h ++ (encode_security s ++ (payload ++ tag)))
unfolding encode
encode-secured h s payload tag e = ground arith

pub received-PlainFrames :
    (h : PacketHeader) (payload : List ℕ) {bs : List ℕ}
    → HeaderIsTyped h
    → h.version ≡ protocol_version
    → encode (plain h payload) ≡ ok bs
    → PlainFrames (received_header h) payload bs
received-PlainFrames h payload {bs} t v e =
    let (l, split) = encode-plain h payload e in
    record {
      accepted = received-IsAccepted h t v (elim l [ inl x ↦ inl x | inr x ↦ inr (omega arith) ]);
      short = ground (arith, l);
      extension = [];
      header_size =
          rw (append-nil, encode_header-received, length-encode_header) (ground (arith, l));
      splits = split ∙ ap (λ r. r ++ payload) (sym (encode_header-received h));
    }

pub received-SecuredFrames :
    (h : PacketHeader) (s : SecurityHeader) (payload tag : List ℕ) {bs : List ℕ}
    → HeaderIsTyped h
    → SecurityIsTyped s
    → length tag ≡ auth_tag_len
    → h.version ≡ protocol_version
    → encode (secured h s payload tag) ≡ ok bs
    → SecuredFrames (received_header h) s payload tag bs
received-SecuredFrames h s payload tag {bs} t st n v e =
    let (l, split) = encode-secured h s payload tag e in
    record {
      accepted = received-IsAccepted h t v (inr (omega arith));
      long = ground arith;
      security_typed = st;
      tag_size = n;
      extension = [];
      header_size =
          rw
            (
              append-nil, encode_header-received, length-append, length-encode_security,
              length-encode_header,
            )
            (ground (arith, l));
      splits =
          split
          ∙ ap (λ r. r ++ (encode_security s ++ (payload ++ tag))) (sym (encode_header-received h));
    }

pub encode-Frames :
    (p : Packet) {bs : List ℕ}
    → IsTyped p
    → (header_of p).version ≡ protocol_version
    → encode p ≡ ok bs
    → Frames (received p) bs
encode-Frames (plain h payload) t v e = received-PlainFrames h payload t.0 v e
encode-Frames (secured h s payload tag) t v e =
    received-SecuredFrames h s payload tag t.0 t.1 t.4 v e

encode-starts :
    (p : Packet) {bs : List ℕ}
    → encode p ≡ ok bs
    → (rest : List ℕ) × (bs ≡ encode_header (header_of p) ++ rest)
encode-starts (plain h payload) e = (payload, (encode-plain h payload e).1)
encode-starts (secured h s payload tag) e =
    (encode_security s ++ (payload ++ tag), (encode-secured h s payload tag e).1)

-- For a packet whose fields are in the range of their types: what `encode` writes is decoded to
-- the packet, whose flags are read as 0 under a legacy header; if its version byte is not this
-- protocol's, `decode` returns that version as unsupported.
pub decode-encode :
    (p : Packet) {bs : List ℕ}
    → IsTyped p
    → encode p ≡ ok bs
    → decode bs ≡ (
        if (header_of p).version == protocol_version
        then ok (received p)
        else err (unsupported_version (header_of p).version))
decode-encode p {bs} t e = elim (Bool-cases ((header_of p).version == protocol_version)) [
  | inl same ↦ rw same (Frames-decode (received p) bs (encode-Frames p t (ground arith) e))
  | inr other ↦
      let (rest, split) = encode-starts p e in
      rw other (ap decode split ∙ decode_other_version (header_of p) rest (ground arith))
]

-- The header lengths that `encode` knows for the packet.
abbrev pub is_current : Packet → Bool
is_current (plain h payload) = h.header_len == legacy_header_len || h.header_len == fixed_header_len
is_current (secured h s payload tag) = h.header_len == secured_header_len

length-encode_header-current :
    (h : PacketHeader) (payload : List ℕ)
    → is_current (plain h payload) ≡ true
    → length (encode_header h) ≡ h.header_len
length-encode_header-current h payload c = ground (arith, length-encode_header h)

pub encode-current_plain :
    (h : PacketHeader) (payload : List ℕ)
    → is_current (plain h payload) ≡ true
    → encode (plain h payload) ≡ ok (encode_header h ++ payload)
unfolding encode
encode-current_plain h payload c = ground arith

pub encode-current_secured :
    (h : PacketHeader) (s : SecurityHeader) (payload tag : List ℕ)
    → is_current (secured h s payload tag) ≡ true
    → encode (secured h s payload tag)
      ≡ ok (encode_header h ++ (encode_security s ++ (payload ++ tag)))
unfolding encode
encode-current_secured h s payload tag c = rw c

encode-other :
    (p : Packet)
    → is_current p ≡ false
    → encode p ≡ err (unsupported_header_length (header_of p).header_len)
unfolding encode
encode-other (plain h payload) c = ground arith
encode-other (secured h s payload tag) c = rw c

Frames-encode : (p : Packet) (bs : List ℕ) → Frames p bs → is_current p ≡ true → encode p ≡ ok bs
Frames-encode (plain h payload) bs f c =
    let gone = length-eq-zero f.extension (
      omega (
        arith,
        length-append (encode_header h) f.extension,
        length-encode_header-current h payload c,
        f.header_size,
      )) in
    encode-current_plain h payload c
    ∙ ap ok (sym (f.splits ∙ ap (λ x. encode_header h ++ (x ++ payload)) gone))
Frames-encode (secured h s payload tag) bs f c =
    let gone = length-eq-zero f.extension (
      omega (
        arith,
        length-append (encode_header h) (encode_security s ++ f.extension),
        length-append (encode_security s) f.extension,
        length-encode_security s,
        length-encode_header_long h f.long,
        f.header_size,
        (==_iff h.header_len secured_header_len).0 c,
      )) in
    encode-current_secured h s payload tag c
    ∙ ap ok (
        sym (
          f.splits
          ∙ ap (λ x. encode_header h ++ (encode_security s ++ (x ++ (payload ++ tag)))) gone))

-- A packet that was decoded from bytes is encoded to the same bytes, if its header has a length
-- that this version writes for such a packet, and otherwise `encode` returns that length as
-- unsupported.
pub encode-decode :
    (bs : List ℕ) {p : Packet}
    → IsBytes bs
    → decode bs ≡ ok p
    → encode p
      ≡ (if is_current p then ok bs else err (unsupported_header_length (header_of p).header_len))
encode-decode bs {p} bytes e = elim (Bool-cases (is_current p)) [
  | inl c ↦ rw c (Frames-encode p bs (decode-Frames bs bytes e) c)
  | inr c ↦ rw c (encode-other p c)
]

pub aad-secured :
    (h : PacketHeader) (s : SecurityHeader) (payload tag : List ℕ)
    → has_v2_flag h ≡ true
    → aad (secured h s payload tag) ≡ some (encode_header h ++ encode_security s)
unfolding aad
aad-secured h s payload tag f = rw f

SecuredFrames-take :
    {h : PacketHeader} {s : SecurityHeader} {payload tag bs : List ℕ}
    → SecuredFrames h s payload tag bs
    → encode_header h ++ encode_security s ≡ take secured_header_len bs
SecuredFrames-take {h} {s} {payload} {tag} {bs} f = sym (
    ap (take secured_header_len) (
      f.splits
      ∙ sym (append_assoc (encode_header h) (encode_security s) (f.extension ++ (payload ++ tag))))
    ∙ take-append_of_length secured_header_len (encode_header h ++ encode_security s)
        (f.extension ++ (payload ++ tag))
        (omega (
          arith,
          length-append (encode_header h) (encode_security s),
          length-encode_header_long h f.long,
          length-encode_security s,
        )))

-- If a secured packet with the flag of version 2 was decoded from bytes, the data that
-- authenticates it is the first 28 of them, and so leaves out whatever a longer header holds
-- behind.
pub aad-decode :
    (bs : List ℕ) (h : PacketHeader) (s : SecurityHeader) (payload tag : List ℕ)
    → IsBytes bs
    → decode bs ≡ ok (secured h s payload tag)
    → has_v2_flag h ≡ true
    → aad (secured h s payload tag) ≡ some (take secured_header_len bs)
aad-decode bs h s payload tag bytes e f =
    aad-secured h s payload tag f ∙ ap some (SecuredFrames-take (decode-Frames bs bytes e))
