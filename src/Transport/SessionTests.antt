-- ===== src/Transport/SessionTests.antt =====
-- crates/incomudon-transport/src/lib.rs: a short session, with the owner's calls between the steps
-- of the thread.
use incom_udon_native_rust.Base.{
  ℕ, ◌≢◌, ap, ◌≡◌, inr, refl, arith, List, [], ◌∷◌, ◌++◌, some, none, true, false, replicate, ok,
  get_elem?, All,
}
use incom_udon_native_rust.Protocol.Types.{ptt_on}
use incom_udon_native_rust.Protocol.Packets.{encode, decode, decode_body}
use incom_udon_native_rust.Protocol.Header.{
  encode_header, encode_security, type_byte, decode_header, checked_header_len, decode_fields,
  decode_security, type_try_from,
}
use incom_udon_native_rust.Crypto.Samples.{samples, samples-IsLawful}
use incom_udon_native_rust.Transport.State.{
  RelayCommand, new_config, new_media, media_key, send_pcm,
}
use incom_udon_native_rust.Transport.State
use incom_udon_native_rust.Crypto.Keys.{derive_aes_gcm_v2_key, encrypt_aes_gcm_v2, packet_nonce}
use incom_udon_native_rust.Transport.Send
use incom_udon_native_rust.Transport.Send.{
  control_packet, send_event, send_packet, send_encoded, send_control, send_secured, send_encrypted,
}
use incom_udon_native_rust.Transport.Worker.{quiet, handle, fresh, greet}
use incom_udon_native_rust.Transport.Stream.{SentAs}
use incom_udon_native_rust.Transport.Sequences.{IsNumbered}
use incom_udon_native_rust.Transport.Session.{
  ended, starting, Outside, Os, RelaySession, connect, disconnect, try_send, try_next_event, poll,
  drain_one, step_at, thread_step,
}
use incom_udon_native_rust.Transport.Session.Acts.{
  Act, ActAllowed, sends, takes_event, steps, act, run_acts,
}
use incom_udon_native_rust.Transport.Session.Operations.{all_accepted}
use incom_udon_native_rust.Transport.Session.Handled.{Handled, run_acts-Handled}
use incom_udon_native_rust.Transport.Session.Join.{disconnect-ended}
use incom_udon_native_rust.Transport.Counters.{media_frames, nonce_bytes, IsSealed}
use incom_udon_native_rust.Transport.Session.Numbers.{session-media_nonces, session-SentAs}
use incom_udon_native_rust.Transport.RunTests.{
  sending_socket, relay, session, session-IsTyped, samples-SealsFrames, ptt_datagram,
}

abbrev willing : Os
willing = record {
  bind = λ a. none;
  connect_to = λ a. none;
  set_read_timeout = none;
  local_addr = inr relay;
  spawn = none;
}

abbrev begun : RelaySession
begun = record {
  config = session;
  commands = [];
  worker = true;
  pc = starting relay;
  state = fresh sending_socket samples session 7 0;
}

connects : connect sending_socket samples willing session 7 0 ≡ ok begun
unfolding connect
connects = refl

abbrev later : Outside
later = record { checked_at = 5; reset_at = 6; arrival = quiet }

-- The owner queues a command before the thread has joined the channel.
abbrev calls : List Act
calls =
    steps later
    ∷ sends (State.send_control ptt_on (9 ∷ []))
    ∷ takes_event
    ∷ steps later
    ∷ steps later
    ∷ []

calls-allowed : All (ActAllowed IsNumbered) calls
calls-allowed = (tt, (tt, (tt, (tt, (tt, tt)))))

second_datagram :
    get_elem? (run_acts sending_socket samples begun calls).state.wire 1 ≡ some ptt_datagram
unfolding run_acts act try_send try_next_event thread_step step_at poll greet fresh handle new_media
    new_config send_control send_packet send_encoded send_event control_packet encode encode_header
    encode_security type_byte
second_datagram = refl

session-SentAs_example : SentAs session 1 ptt_datagram
session-SentAs_example =
    session-SentAs sending_socket samples willing session 7 0 session-IsTyped samples-IsLawful
      samples-SealsFrames (omega arith) (inr (unfold new_config in refl)) connects calls 1
      ptt_datagram calls-allowed second_datagram

run_acts-Handled_example :
    Handled sending_socket samples begun
      (run_acts sending_socket samples begun calls)
      (all_accepted sending_socket samples begun calls)
run_acts-Handled_example = run_acts-Handled sending_socket samples begun calls

-- A session that is stopped before its thread has begun.
disconnect-ended_example :
    ((disconnect sending_socket samples begun (replicate 5 later)).pc ≡ ended)
    × ((disconnect sending_socket samples begun (replicate 5 later)).worker ≡ false)
    × ((disconnect sending_socket samples begun (replicate 5 later)).state.running ≡ false)
unfolding fresh
disconnect-ended_example =
    disconnect-ended sending_socket samples begun (replicate 5 later) refl refl (omega arith)

-- The owner queues two frames.
abbrev frames : List Act
frames =
    steps later
    ∷ sends (send_pcm (replicate 320 1))
    ∷ sends (send_pcm (replicate 320 2))
    ∷ steps later
    ∷ steps later
    ∷ steps later
    ∷ []

frames-allowed : All (ActAllowed IsNumbered) frames
frames-allowed = (tt, (tt, (tt, (tt, (tt, (tt, tt))))))

-- the counter of the audio, the samples and the tag, for these primitives
abbrev sealed_frame : ℕ → ℕ → List ℕ
sealed_frame counter sample = 0 ∷ counter ∷ (replicate 320 sample ++ replicate 16 0)

two_frames :
    media_frames (run_acts sending_socket samples begun frames).state.wire
    ≡ (7, sealed_frame 0 1) ∷ (8, sealed_frame 1 2) ∷ []
unfolding run_acts act try_send thread_step step_at poll drain_one greet fresh handle new_media
    media_key new_config derive_aes_gcm_v2_key encrypt_aes_gcm_v2 packet_nonce send_control
    send_packet send_encoded send_event control_packet Send.send_pcm send_secured send_encrypted
    encode encode_header encode_security type_byte decode decode_body decode_header
    checked_header_len decode_fields decode_security type_try_from
two_frames = refl

session-media_nonces_example :
    IsSealed samples begun.state.media.key (7, sealed_frame 0 1)
    × IsSealed samples begun.state.media.key (8, sealed_frame 1 2)
    × (nonce_bytes 7 ≢ nonce_bytes 8)
session-media_nonces_example =
    session-media_nonces sending_socket samples willing session 7 0 session-IsTyped samples-IsLawful
      samples-SealsFrames (omega arith) (unfold new_config in refl) connects frames 0 1
      frames-allowed (omega arith) (omega arith) (ap (λ l. get_elem? l 0) two_frames)
      (ap (λ l. get_elem? l 1) two_frames)
