-- ===== src/Transport/Tests.antt =====
-- crates/incomudon-transport/src/lib.rs: the handlers at a concrete worker.
use incom_udon_native_rust.Base.{
  ℕ, ◌+◌, ◌%◌, ◌≡◌, inr, refl, arith, List, [], ◌∷◌, ◌++◌, some, none, true, false, replicate, ok,
}
use incom_udon_native_rust.Base.Words.{u16_mod}
use incom_udon_native_rust.Protocol.Types.{Packet, ptt_on, header_of}
use incom_udon_native_rust.Protocol.Packets.{decode}
use incom_udon_native_rust.Profiles.Store.{aes_gcm_v2}
use incom_udon_native_rust.Crypto.Samples.{samples, samples-IsLawful}
use incom_udon_native_rust.Transport.State.{RelayConfig, Worker, Env, ConfigIsTyped, WorkerIsTyped}
use incom_udon_native_rust.Transport.Send.{pcm_header, send_control, send_pcm}
use incom_udon_native_rust.Transport.Receive.{decode_pcm}
use incom_udon_native_rust.Transport.Wire.{counted}
use incom_udon_native_rust.Transport.Worker.{datagram, receive_arrival}
use incom_udon_native_rust.Transport.State.{pcm_received, stopped}
use incom_udon_native_rust.Transport.Delivery.{send_pcm-Delivers}
use incom_udon_native_rust.Transport.Control.{Carries, send_control-Carries}
use incom_udon_native_rust.Transport.Media.{CanSend, send_pcm-decode_pcm}

-- A socket that always sends.
abbrev good_socket : Env
good_socket = record { send_result = λ n. none; error_text = λ e. [] }

abbrev config : RelayConfig
config = record {
  relay_addr = record { is_ipv6 = false; ip = 2_130_706_433; port = 50_000 };
  channel_id = 1_234;
  sender_id = 42;
  encryption = aes_gcm_v2;
  password = [];
  keepalive_interval = 10_000;
}

config-IsTyped : ConfigIsTyped config
config-IsTyped = record { channel_id_u32 = omega arith; sender_id_u32 = omega arith }

-- All three counters are about to wrap.
abbrev worker : Worker
worker = record {
  sequence = 65_535;
  media = record {
    key = some (replicate 32 0);
    audio_sequence = 65_535;
    nonce = 18_446_744_073_709_551_615;
  };
  last_keepalive = 0;
  running = true;
  events = [];
  wire = [];
}

worker-IsTyped : WorkerIsTyped worker
worker-IsTyped = record {
  sequence_u16 = omega arith;
  audio_sequence_u16 = omega arith;
  nonce_u64 = omega arith;
}

worker-CanSend :
    CanSend good_socket config config-IsTyped samples samples-IsLawful worker (replicate 320 5)
worker-CanSend =
    inr (replicate 32 0, 255 ∷ 255 ∷ (replicate 320 5 ++ replicate 16 0), refl, refl, refl)

send_pcm-decode_pcm_example :
    (bytes : List ℕ) × (p : Packet) × ((send_pcm good_socket samples config worker
        (replicate 320 5)).wire
      ≡ bytes ∷ [])
    × (decode bytes ≡ ok p)
    × (header_of p ≡ pcm_header config 65_535)
    × (decode_pcm samples p (some (replicate 32 0)) ≡ some (42, replicate 320 5))
    × ((send_pcm good_socket samples config worker (replicate 320 5)).sequence
        ≡ (65_535 + 1) % u16_mod)
    × ((send_pcm good_socket samples config worker (replicate 320 5)).media
        ≡ (counted worker).media)
send_pcm-decode_pcm_example =
    send_pcm-decode_pcm good_socket config config-IsTyped samples samples-IsLawful worker
      (replicate 320 5) worker-IsTyped refl worker-CanSend

send_control-Carries_example :
    (bytes : List ℕ) × (p : Packet) × ((send_control good_socket config worker ptt_on (1 ∷ [])).wire
      ≡ bytes ∷ [])
    × (decode bytes ≡ ok p)
    × Carries config 65_535 ptt_on (1 ∷ []) p
    × ((send_control good_socket config worker ptt_on (1 ∷ [])).sequence ≡ (65_535 + 1) % u16_mod)
    × ((send_control good_socket config worker ptt_on (1 ∷ [])).media ≡ worker.media)
send_control-Carries_example =
    send_control-Carries good_socket config config-IsTyped worker ptt_on (1 ∷ []) (omega arith)

-- another session with the same key, and an event
abbrev listener : Worker
listener = record worker { events = stopped ∷ [] }

send_pcm-Delivers_example :
    (bytes : List ℕ) × ((send_pcm good_socket samples config worker (replicate 320 5)).wire
      ≡ bytes ∷ [])
    × (receive_arrival good_socket samples config listener (datagram bytes)
        ≡ record listener { events = stopped ∷ pcm_received 42 (replicate 320 5) ∷ [] })
send_pcm-Delivers_example =
    send_pcm-Delivers good_socket config config-IsTyped samples samples-IsLawful good_socket config
      worker listener (replicate 320 5) worker-IsTyped refl worker-CanSend refl (omega arith)
