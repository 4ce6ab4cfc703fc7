-- ===== src/Transport/Session/Panics.antt =====
-- crates/incomudon-transport/src/lib.rs: the owner's calls give a result or an error.
use incom_udon_native_rust.Base.{
  ℕ, List, Option, none, some, ◌||◌, leb, length, panic, map_err, bind-ne-panic, map_err-ne-panic,
  ◌⊎◌, inl, inr, ◌≢◌, Bool-cases,
}
use incom_udon_native_rust.Base.Text.{Text}
use incom_udon_native_rust.Protocol.Types.{PacketType}
use incom_udon_native_rust.Crypto.Primitives.{Primitives}
use incom_udon_native_rust.Transport.State.{
  default_command_capacity, RelayConfig, RelayCommand, SocketAddr, Env,
}
use incom_udon_native_rust.Transport.Session.{
  TransportError, open_socket, connect_socket, local_address, Os, RelaySession, is_ended, of_sum,
  try_io, try_send, send_control, connect,
}

of_sum-ne-panic : (o : Text ⊎ SocketAddr) → of_sum o ≢ panic
of_sum-ne-panic (inl error) = λ x. cc
of_sum-ne-panic (inr address) = λ x. cc

try_io-ne-panic : (wrap : Text → TransportError) (o : Option Text) → try_io wrap o ≢ panic
try_io-ne-panic wrap none = λ x. cc
try_io-ne-panic wrap (some error) = λ x. cc

try_send-ne-panic : (s : RelaySession) (command : RelayCommand) → (try_send s command).0 ≢ panic
unfolding try_send
try_send-ne-panic s command =
    elim (Bool-cases (is_ended s.pc || leb default_command_capacity (length s.commands))) [
      | inl refused ↦ rw refused (λ x. cc)
      | inr taken ↦ rw taken (λ x. cc)
    ]

pub send_control-ne-panic :
    (s : RelaySession) (packet_type : PacketType) (payload : List ℕ)
    → (send_control s packet_type payload).0 ≢ panic
unfolding send_control
send_control-ne-panic s packet_type payload = try_send-ne-panic s _

pub connect-ne-panic :
    (env : Env) (c : Primitives) (os : Os) (config : RelayConfig) (nonce now : ℕ)
    → connect env c os config nonce now ≢ panic
unfolding connect
connect-ne-panic env c os config nonce now =
    bind-ne-panic (try_io open_socket _) _ (try_io-ne-panic open_socket _) (λ _.
      bind-ne-panic (try_io connect_socket (os.connect_to config.relay_addr)) _
        (try_io-ne-panic connect_socket (os.connect_to config.relay_addr))
        (λ _.
          bind-ne-panic (try_io open_socket os.set_read_timeout) _
            (try_io-ne-panic open_socket os.set_read_timeout)
            (λ _.
              bind-ne-panic (map_err local_address (of_sum os.local_addr)) _
                (map_err-ne-panic local_address (of_sum os.local_addr)
                  (of_sum-ne-panic os.local_addr))
                (λ address.
                  bind-ne-panic (try_io open_socket os.spawn) _
                    (try_io-ne-panic open_socket os.spawn) (λ _ x. cc)))))
