-- ===== src/Desktop/Resolve.antt =====
-- apps/desktop/src/main.rs: `resolve_relay`. What `to_socket_addrs` finds is a parameter.
pub mod Choice
use incom_udon_native_rust.Base.{
  ℕ, List, [], ◌∷◌, Bool, true, false, not, ◌||◌, if◌then◌else◌, Outcome, ok, err, panic, ◌>>=◌,
}
use incom_udon_native_rust.Base.Text.{Text, codes}
use incom_udon_native_rust.Profiles.Store.{RelayEndpoint}
use incom_udon_native_rust.Transport.State.{SocketAddr}

abbrev pub is_ipv4 : SocketAddr → Bool
is_ipv4 address = not address.is_ipv6

unfoldable pub filter {ℓ} : {A : Type ℓ} → (A → Bool) → List A → List A
filter test [] = []
filter test (x ∷ xs) = let rest = filter test xs in if test x then x ∷ rest else rest

-- in front of the first element whose key is not less; `false` is less than `true`
unfoldable pub insert_by_key {ℓ} : {A : Type ℓ} → (A → Bool) → A → List A → List A
insert_by_key key x [] = x ∷ []
insert_by_key key x (y ∷ ys) =
    let behind = insert_by_key key x ys in if not (key x) || key y then x ∷ y ∷ ys else y ∷ behind

-- `sort_by_key`, which is stable
unfoldable pub sort_by_key {ℓ} : {A : Type ℓ} → (A → Bool) → List A → List A
unfolding insert_by_key
sort_by_key key [] = []
sort_by_key key (x ∷ xs) = insert_by_key key x (sort_by_key key xs)

abbrev pub first_or : List SocketAddr → Outcome Text SocketAddr
first_or [] = err (codes "no usable IPv4/IPv6 address was resolved")
first_or (address ∷ rest) = ok address

-- the addresses that the relay's settings allow
abbrev pub is_allowed : RelayEndpoint → SocketAddr → Bool
is_allowed relay address = not relay.force_ipv4 || is_ipv4 address

module _ (to_socket_addrs : Text → ℕ → Outcome Text (List SocketAddr)) where
  unfoldable pub resolve_relay : RelayEndpoint → Outcome Text SocketAddr
  unfolding filter sort_by_key
  resolve_relay relay = do
    addresses ← to_socket_addrs relay.host relay.port
    first_or (sort_by_key (λ address. not address.is_ipv6) (filter (is_allowed relay) addresses))
