-- ===== src/Transport/Delivery.antt =====
-- crates/incomudon-transport/src/lib.rs: a frame from one session's `send_pcm` to the event of another
-- session that receives its datagram.
use incom_udon_native_rust.Base.{
  ℕ, ◌+◌, ◌-◌, ◌≤◌, ◌<◌, List, [], ◌∷◌, ◌++◌, some, length, Outcome, ok, ◌≡◌, refl, sym, ap, ◌∙◌,
  arith, inl, inr, take_all, length-append, length-take, length-drop,
}
use incom_udon_native_rust.Protocol.Types.{Packet, plain, secured, ProtocolError}
use incom_udon_native_rust.Protocol.Header.{encode_header, encode_security}
use incom_udon_native_rust.Protocol.Packets.{encode, decode}
use incom_udon_native_rust.Protocol.SoundPackets.{length-encode_header, length-encode_security}
use incom_udon_native_rust.Protocol.Encode.{encode-current_plain, encode-current_secured}
use incom_udon_native_rust.Crypto.Primitives.{Primitives, IsLawful}
use incom_udon_native_rust.Crypto.Keys.{packet_nonce}
use incom_udon_native_rust.Transport.State.{
  RelayConfig, pcm_received, Worker, Env, ConfigIsTyped, WorkerIsTyped,
}
use incom_udon_native_rust.Transport.Send.{
  send_event, send_packet, send_encoded, pcm_header, send_pcm,
}
use incom_udon_native_rust.Transport.Receive.{decode_pcm, receive_outcome, receive}
use incom_udon_native_rust.Transport.Worker.{datagram, receive_arrival}
use incom_udon_native_rust.Transport.Wire.{
  IsCurrent, IsCurrent-survives, send_event-rest, encrypted_packet, plaintext_of, aad_of, counted,
  pcm_counted, send_pcm-plain, send_pcm-encrypted, pcm_header-IsTyped, encrypted_packet-IsCurrent,
}
use incom_udon_native_rust.Transport.Media.{
  is_v2-not_plain, CanSend, decode_pcm-plain, decode_pcm-encrypted,
}

-- the bytes behind the headers
abbrev content_of : Packet → ℕ
content_of (plain h payload) = length payload
content_of (secured h s payload tag) = length payload + length tag

-- what `encode` returns
abbrev encoded : List ℕ → Outcome ProtocolError (List ℕ)
encoded bytes = ok bytes

length-encode :
    (p : Packet) (bytes : List ℕ)
    → IsCurrent p
    → encode p ≡ ok bytes
    → length bytes ≤ 28 + content_of p
length-encode (plain h payload) bytes (t, v, l) e =
    let same : encoded (encode_header h ++ payload) ≡ encoded bytes =
      sym (encode-current_plain h payload (ground arith)) ∙ e in
    let size : length (encode_header h ++ payload) ≡ length bytes = cc in
    ground (arith, size, length-append (encode_header h) payload, length-encode_header h)
length-encode (secured h s payload tag) bytes (t, v, l, st, n) e =
    let all = encode_header h ++ (encode_security s ++ (payload ++ tag)) in
    let same : encoded all ≡ encoded bytes =
      sym (encode-current_secured h s payload tag (ground arith)) ∙ e in
    let size : length all ≡ length bytes = cc in
    ground (
      arith,
      size,
      length-append (encode_header h) (encode_security s ++ (payload ++ tag)),
      length-append (encode_security s) (payload ++ tag),
      length-append payload tag,
      length-encode_header h,
      length-encode_security s,
    )

module _ (env : Env) (config : RelayConfig) (c : Primitives) where
  -- A datagram that fits the buffer and decodes to a frame is the next event, if there is room.
  receive_arrival-frame :
      (w : Worker) (bytes : List ℕ) (p : Packet) (sender_id : ℕ) (frame : List ℕ)
      → length bytes ≤ 2048
      → decode bytes ≡ ok p
      → decode_pcm c p w.media.key ≡ some (sender_id, frame)
      → length w.events < 128
      → receive_arrival env c config w (datagram bytes)
        ≡ record w { events = w.events ++ pcm_received sender_id frame ∷ [] }
  unfolding receive_arrival receive receive_outcome send_event
  receive_arrival-frame w bytes p sender_id frame fits d found room =
      rw (take_all 2048 bytes fits, d, found) (ground arith)

module _ (env : Env) (config : RelayConfig) (typed : ConfigIsTyped config) (c : Primitives)
    (law : IsLawful c) (their_env : Env) (their_config : RelayConfig) where
  -- The frame is the receiver's next event, and nothing else of the receiver changes.
  abbrev pub Delivers : List ℕ → Worker → List ℕ → Type 0
  Delivers bytes receiver frame =
      receive_arrival their_env c their_config receiver (datagram bytes)
      ≡ record receiver { events = receiver.events ++ pcm_received config.sender_id frame ∷ [] }

  -- A packet of a frame arrives.
  delivered :
      (w receiver : Worker) (p : Packet) (frame : List ℕ)
      → IsCurrent p
      → content_of p ≤ 338
      → decode_pcm c p receiver.media.key ≡ some (config.sender_id, frame)
      → length receiver.events < 128
      → (bytes : List ℕ) × ((send_packet env w p).wire ≡ w.wire ++ bytes ∷ [])
        × Delivers bytes receiver frame
  unfolding send_packet send_encoded
  delivered w receiver p frame i small found room =
      let (bytes, e, d) = IsCurrent-survives p i in
      (
        bytes,
        rw e (send_event-rest (record w { wire = w.wire ++ bytes ∷ [] }) _).0,
        receive_arrival-frame their_env their_config c receiver bytes p config.sender_id frame
            (omega (arith, length-encode p bytes i e, small)) d found room,
      )

  -- For a configuration and a sender in the range of their types, without encryption, or with
  -- version 2, a media key and a lawful cipher that seals this frame: a frame of 320 bytes goes out
  -- as one datagram, and at any receiver with the same media key and with fewer than 128 events the
  -- arrival of this datagram adds the event of the frame, under the sender's id, behind the others,
  -- and changes nothing else.
  pub send_pcm-Delivers :
      (w receiver : Worker) (frame : List ℕ)
      → WorkerIsTyped w
      → length frame ≡ 320
      → CanSend env config typed c law w frame
      → receiver.media.key ≡ w.media.key
      → length receiver.events < 128
      → (bytes : List ℕ) × ((send_pcm env c config w frame).wire ≡ w.wire ++ bytes ∷ [])
        × Delivers bytes receiver frame
  send_pcm-Delivers w receiver frame t n (inl m) same_key room =
      let p = plain (pcm_header config w.sequence) (plaintext_of w frame) in
      let current : IsCurrent p =
        (pcm_header-IsTyped config typed w.sequence t.sequence_u16, refl, rw m refl) in
      let (bytes, wire, delivers) =
        delivered (pcm_counted w) receiver p frame current (omega (arith, n))
          (decode_pcm-plain env config typed c law w frame receiver.media.key n) room in
      (
        bytes,
        ap (λ (v : Worker). v.wire) (send_pcm-plain env config c w frame n m) ∙ wire,
        delivers,
      )
  send_pcm-Delivers w receiver frame t n (inr (key, out, m, k, e)) same_key room =
      let size =
        law.encrypt-length key (packet_nonce c w.media.nonce) (plaintext_of w frame)
          (aad_of config w) out e in
      let not_plain = is_v2-not_plain config.encryption m in
      let current =
        encrypted_packet-IsCurrent config typed w out t.sequence_u16 t.nonce_u64 not_plain
          (omega (arith, size)) in
      let (bytes, wire, delivers) =
        delivered (counted w) receiver (encrypted_packet config w out) frame current
          (omega
            (arith, size, n, length-take (length out - 16) out, length-drop (length out - 16) out))
          (ap (decode_pcm c (encrypted_packet config w out)) (same_key ∙ k)
            ∙ decode_pcm-encrypted env config typed c law w frame key out n m e)
          room in
      (
        bytes,
        ap (λ (v : Worker). v.wire)
              (send_pcm-encrypted env config c w frame key out n not_plain k e
                (omega (arith, size)))
            ∙ wire,
        delivers,
      )
