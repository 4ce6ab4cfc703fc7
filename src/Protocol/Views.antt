-- ===== src/Protocol/Views.antt =====
-- crates/incomudon-protocol/src/lib.rs: a datagram by its first bytes, for the proofs about
-- `PacketHeader::decode`, and `decode` in terms of those bytes.
use incom_udon_native_rust.Base.{ℕ, ◌≤◌, List, [], ◌∷◌, ◌≡◌, refl, arith, ◌≢◌}
use incom_udon_native_rust.Base.{length, Outcome, ok, panic, ◌>>=◌}
use incom_udon_native_rust.Base.Words.{
  IsBytes, from_be16, from_be32, be16-from_be16, be32-from_be32,
}
use incom_udon_native_rust.Protocol.Types.{
  legacy_header_len, PacketType, PacketHeader, ProtocolError,
}
use incom_udon_native_rust.Protocol.Header.{type_byte, type_try_from, encode_header, decode_fields}

-- The first fourteen bytes: the legacy header.
pub record Head : Type 0 where
  pub version : ℕ
  pub type_value : ℕ
  pub len0 : ℕ
  pub len1 : ℕ
  pub chan0 : ℕ
  pub chan1 : ℕ
  pub chan2 : ℕ
  pub chan3 : ℕ
  pub send0 : ℕ
  pub send1 : ℕ
  pub send2 : ℕ
  pub send3 : ℕ
  pub seq0 : ℕ
  pub seq1 : ℕ

infixr 67 ◌▸◌
abbrev pub ◌▸◌ : Head → List ℕ → List ℕ
k ▸ rest =
    version ∷ type_value ∷ len0 ∷ len1 ∷ chan0 ∷ chan1 ∷ chan2 ∷ chan3 ∷ send0 ∷ send1 ∷ send2
    ∷ send3 ∷ seq0 ∷ seq1 ∷ rest
  where
    open k use {
      version, type_value, len0, len1, chan0, chan1, chan2, chan3, send0, send1, send2, send3, seq0,
      seq1,
    }

pub split_head :
    (bs : List ℕ) → legacy_header_len ≤ length bs → (k : Head) × (rest : List ℕ) × (bs ≡ k ▸ rest)
split_head (a ∷ b ∷ c ∷ d ∷ e ∷ f ∷ g ∷ h ∷ i ∷ j ∷ k ∷ l ∷ m ∷ n ∷ rest) fits = (
  record {
    version = a;
    type_value = b;
    len0 = c;
    len1 = d;
    chan0 = e;
    chan1 = f;
    chan2 = g;
    chan3 = h;
    send0 = i;
    send1 = j;
    send2 = k;
    send3 = l;
    seq0 = m;
    seq1 = n;
  },
  rest,
  refl,
)
split_head _ fits = absurd (omega arith)

abbrev pub len_of : Head → ℕ
len_of k = from_be16 k.len0 k.len1

abbrev pub header_of_head : Head → PacketType → ℕ → ℕ → PacketHeader
header_of_head k t header_len flags = record {
  version = k.version;
  packet_type = t;
  header_len = header_len;
  channel_id = from_be32 k.chan0 k.chan1 k.chan2 k.chan3;
  sender_id = from_be32 k.send0 k.send1 k.send2 k.send3;
  sequence = from_be16 k.seq0 k.seq1;
  flags = flags;
}

-- What `decode_fields` makes of the packet type's byte.
abbrev pub fields_of : Head → ℕ → ℕ → Outcome ProtocolError PacketHeader
fields_of k header_len flags =
    type_try_from k.type_value >>= λ t. ok (header_of_head k t header_len flags)

pub type_try_from-ne-panic : (v : ℕ) → type_try_from v ≢ panic
unfolding type_try_from
type_try_from-ne-panic v = ground arith

pub type_byte-of_type_try_from : (v : ℕ) {t : PacketType} → type_try_from v ≡ ok t → type_byte t ≡ v
unfolding type_try_from type_byte
type_byte-of_type_try_from v h = ground arith

pub decode_fields_legacy :
    (k : Head) (rest : List ℕ)
    → decode_fields (k ▸ rest) legacy_header_len ≡ fields_of k legacy_header_len 0
unfolding decode_fields
decode_fields_legacy k rest = refl

pub decode_fields_fixed :
    (k : Head) (f g : ℕ) (rest : List ℕ) (header_len : ℕ)
    → header_len ≢ legacy_header_len
    → decode_fields (k ▸ (f ∷ g ∷ rest)) header_len ≡ fields_of k header_len (from_be16 f g)
unfolding decode_fields
decode_fields_fixed k f g rest header_len ne = ground arith

-- The header's bytes of a legacy datagram are those that encode it again.
pub encode_header_legacy :
    (k : Head) (t : PacketType)
    → IsBytes (k ▸ [])
    → type_byte t ≡ k.type_value
    → len_of k ≡ legacy_header_len
    → encode_header (header_of_head k t (len_of k) 0) ≡ k ▸ []
unfolding encode_header
encode_header_legacy k b e l = ground (
  arith,
  be16-from_be16 k.len0 k.len1,
  be32-from_be32 k.chan0 k.chan1 k.chan2 k.chan3,
  be32-from_be32 k.send0 k.send1 k.send2 k.send3,
  be16-from_be16 k.seq0 k.seq1,
)

pub encode_header_fixed :
    (k : Head) (f g : ℕ) (t : PacketType)
    → IsBytes (k ▸ (f ∷ g ∷ []))
    → type_byte t ≡ k.type_value
    → len_of k ≢ legacy_header_len
    → encode_header (header_of_head k t (len_of k) (from_be16 f g)) ≡ k ▸ (f ∷ g ∷ [])
unfolding encode_header
encode_header_fixed k f g b e l = ground (
  arith,
  be16-from_be16 k.len0 k.len1,
  be32-from_be32 k.chan0 k.chan1 k.chan2 k.chan3,
  be32-from_be32 k.send0 k.send1 k.send2 k.send3,
  be16-from_be16 k.seq0 k.seq1,
  be16-from_be16 f g,
)
