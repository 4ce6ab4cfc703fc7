-- ===== src/Desktop/App/Link.antt =====
-- apps/desktop/src/main.rs: the handlers that connect and disconnect.
use incom_udon_native_rust.Base.{ℕ, List, ◌∷◌, ◌++◌, Option, none, some, Outcome, ok, err, panic}
use incom_udon_native_rust.Base.Text.{Text, codes}
use incom_udon_native_rust.Profiles.Store.{TransceiverProfile, RelayEndpoint, ProfileError, active}
use incom_udon_native_rust.Transport.State.{SocketAddr, new_config}
use incom_udon_native_rust.Transport.Session.{
  TransportError, Outside, RelaySession, Os, connect, disconnect,
}
use incom_udon_native_rust.Desktop.Window.{
  relay_from_window, set_connection_status, set_active_talker,
}
use incom_udon_native_rust.Desktop.Resolve.{resolve_relay}
use incom_udon_native_rust.Desktop.App.{Host, App, show_connection}

module _ (host : Host) where
  unfoldable pub connected_app : App host → Outcome TransportError RelaySession → Option (App host)
  connected_app a (ok session) =
      some (show_connection host (record a { session = some session }) (codes "Connecting"))
  connected_app a (err error) =
      some (show_connection host a (codes "Connection failed: " ++ host.transport_text error))
  connected_app a panic = none

  -- What `connect` and the new thread meet.
  pub record Connecting : Type 0 where
    pub os : Os
    pub nonce : ℕ
    pub now : ℕ

  unfoldable pub connect_profile :
      App host
      → Connecting
      → SocketAddr
      → Outcome ProfileError TransceiverProfile
      → Option (App host)
  unfolding connected_app
  connect_profile a k address (ok profile) = connected_app a (
      connect host.env host.primitives k.os
        (new_config address profile.channel_id profile.sender_id profile.encryption) k.nonce k.now)
  connect_profile a k address (err error) = none
  connect_profile a k address panic = none

  unfoldable pub connect_resolved :
      App host → Connecting → Outcome Text SocketAddr → Option (App host)
  unfolding connect_profile
  connect_resolved a k (ok address) = connect_profile a k address (active a.store)
  connect_resolved a k (err error) =
      some (show_connection host a (codes "Relay unavailable: " ++ error))
  connect_resolved a k panic = none

  unfoldable pub connect_entered :
      App host → Connecting → Outcome Text RelayEndpoint → Option (App host)
  unfolding connect_resolved
  connect_entered a k (ok relay) = connect_resolved a k (resolve_relay host.to_socket_addrs relay)
  connect_entered a k (err error) = some (show_connection host a (codes "Invalid relay: " ++ error))
  connect_entered a k panic = none

  unfoldable pub connect_unless : App host → Connecting → Option RelaySession → Option (App host)
  unfolding connect_entered
  connect_unless a k (some session) = some (show_connection host a (codes "Already connected"))
  connect_unless a k none = connect_entered a k (relay_from_window host.texts a.window)

  unfoldable pub connect_relay : App host → Connecting → Option (App host)
  unfolding connect_unless
  connect_relay a k = connect_unless a k a.session

  -- `take`, and `disconnect` or the drop; `os` is what the thread meets while it is joined
  unfoldable pub close_session : App host → Option RelaySession → List Outside → App host
  close_session a none os = a
  close_session a (some session) os = record a {
    session = none;
    closed = disconnect host.env host.primitives session os ∷ a.closed;
  }

  unfoldable pub disconnect_relay : App host → List Outside → App host
  unfolding close_session
  disconnect_relay a os =
      let closed = close_session a a.session os in
      record closed {
        window =
            set_active_talker (set_connection_status closed.window (codes "Disconnected"))
              (codes "No active speaker");
      }

  -- `main` behind `window.run()`
  unfoldable pub shutdown : App host → List Outside → App host
  unfolding close_session
  shutdown a os = close_session a a.session os
