-- ===== src/Transport/RunTests.antt =====
-- crates/incomudon-transport/src/lib.rs: a short run of the worker.
use incom_udon_native_rust.Base.{
  ℕ, ◌≡◌, inr, refl, arith, List, [], ◌∷◌, ◌++◌, some, none, true, false, replicate, get_elem?, All,
}
use incom_udon_native_rust.Protocol.Types.{ptt_on}
use incom_udon_native_rust.Protocol.Packets.{encode}
use incom_udon_native_rust.Protocol.Header.{encode_header, encode_security, type_byte}
use incom_udon_native_rust.Profiles.Store.{aes_gcm_v2}
use incom_udon_native_rust.Crypto.Samples.{samples, samples-IsLawful}
use incom_udon_native_rust.Transport.State.{
  RelayConfig, Worker, Env, SocketAddr, RelayCommand, disconnect, ConfigIsTyped, new_config,
  new_media, media_key,
}
use incom_udon_native_rust.Transport.State
use incom_udon_native_rust.Transport.Send.{
  control_packet, send_event, send_packet, send_encoded, send_control,
}
use incom_udon_native_rust.Transport.Worker.{
  Round, command, quiet, run_worker, run_rounds, one_round, first_command, after_command, drain,
  keep_alive, receive_arrival, handle, start, finish,
}
use incom_udon_native_rust.Transport.Stream.{SentAs, SealsFrames}
use incom_udon_native_rust.Transport.Runs.{RoundAllowed}
use incom_udon_native_rust.Transport.Sequences.{IsNumbered, run_worker-SentAs, run_worker-leave}
use incom_udon_native_rust.Transport.Control.{EndsInLeave}

abbrev pub sending_socket : Env
sending_socket = record { send_result = λ n. none; error_text = λ e. [] }

abbrev pub relay : SocketAddr
relay = record { is_ipv6 = false; ip = 2_130_706_433; port = 50_000 }

abbrev pub session : RelayConfig
session = new_config relay 1_234 42 aes_gcm_v2

pub session-IsTyped : ConfigIsTyped session
unfolding new_config
session-IsTyped = record { channel_id_u32 = omega arith; sender_id_u32 = omega arith }

pub samples-SealsFrames : SealsFrames samples
samples-SealsFrames = λ key nonce msg aad n. (msg ++ replicate 16 0, refl)

-- A round in which the owner's command is all that happens.
abbrev only : RelayCommand → Round
only cmd = record {
  taken = 0;
  stop_seen = false;
  stop_seen_later = false;
  polled = command cmd;
  drained = [];
  drained_hung_up = false;
  checked_at = 5;
  reset_at = 6;
  arrival = quiet;
}

abbrev schedule : List Round
schedule = only (State.send_control ptt_on (9 ∷ [])) ∷ only disconnect ∷ []

schedule-allowed : All (RoundAllowed IsNumbered) schedule
schedule-allowed = ((tt, tt), ((tt, tt), tt))

abbrev pub ptt_datagram : List ℕ
ptt_datagram =
    1
    ∷ 2
    ∷ 0
    ∷ 28
    ∷ 0
    ∷ 0
    ∷ 4
    ∷ 210
    ∷ 0
    ∷ 0
    ∷ 0
    ∷ 42
    ∷ 0
    ∷ 1
    ∷ 0
    ∷ 0
    ∷ (replicate 12 0 ++ 9 ∷ replicate 16 0)

-- The second datagram is the control packet.
second_datagram :
    get_elem? (run_worker sending_socket samples session relay 7 0 schedule).0.wire 1
    ≡ some ptt_datagram
unfolding run_worker run_rounds one_round first_command after_command drain keep_alive
    receive_arrival handle start finish new_media new_config send_control send_packet send_encoded
    send_event control_packet encode encode_header encode_security type_byte
second_datagram = refl

ends : (run_worker sending_socket samples session relay 7 0 schedule).1 ≡ true
unfolding run_worker run_rounds one_round first_command after_command drain keep_alive
    receive_arrival handle start finish new_media new_config send_control send_packet send_encoded
    send_event encode control_packet
ends = refl

run_worker-SentAs_example : SentAs session 1 ptt_datagram
unfolding new_config
run_worker-SentAs_example =
    run_worker-SentAs sending_socket session session-IsTyped samples samples-IsLawful
      samples-SealsFrames relay 7 0 (omega arith) (inr refl) schedule 1 ptt_datagram
      schedule-allowed second_datagram

run_worker-leave_example :
    EndsInLeave session (run_worker sending_socket samples session relay 7 0 schedule).0.wire
unfolding new_config
run_worker-leave_example =
    run_worker-leave sending_socket session session-IsTyped samples samples-IsLawful
      samples-SealsFrames relay 7 0 (omega arith) (inr refl) schedule schedule-allowed ends
