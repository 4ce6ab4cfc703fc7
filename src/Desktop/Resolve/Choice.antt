-- ===== src/Desktop/Resolve/Choice.antt =====
-- apps/desktop/src/main.rs: the address that `resolve_relay` chooses.
use incom_udon_native_rust.Base.{
  ℕ, List, [], ◌∷◌, Option, none, some, Bool, true, false, not, ◌&&◌, if◌then◌else◌, Outcome, ok,
  err, ◌≡◌, refl, ap, ap₂, ◌∙◌, inl, inr, Bool-cases,
}
use incom_udon_native_rust.Base.Text.{Text, codes}
use incom_udon_native_rust.Profiles.Store.{RelayEndpoint}
use incom_udon_native_rust.Transport.State.{SocketAddr}
use incom_udon_native_rust.Desktop.Resolve.{
  is_allowed, filter, insert_by_key, sort_by_key, first_or, resolve_relay,
}

-- the first element that passes a test, and the first of all
abbrev pub find {ℓ} : {A : Type ℓ} → (A → Bool) → List A → Option A
find test [] = none
find test (x ∷ xs) = if test x then some x else find test xs

abbrev first {ℓ} : {A : Type ℓ} → List A → Option A
first [] = none
first (x ∷ xs) = some x

abbrev pub or_else {ℓ} : {A : Type ℓ} → Option A → Option A → Option A
or_else (some x) other = some x
or_else none other = other

module _ {ℓ} {A : Type ℓ} (key : A → Bool) where
  first-insert_low : (x : A) (ys : List A) → key x ≡ false → first (insert_by_key key x ys) ≡ some x
  unfolding insert_by_key
  first-insert_low x [] low = refl
  first-insert_low x (y ∷ ys) low = rw low

  pick : A → Option A → Option A
  pick x none = some x
  pick x (some y) = if key y then some x else some y

  first-insert_high :
      (x : A) (ys : List A) → key x ≡ true → first (insert_by_key key x ys) ≡ pick x (first ys)
  unfolding insert_by_key pick
  first-insert_high x [] high = refl
  first-insert_high x (y ∷ ys) high = elim (Bool-cases (key y)) [
    | inl same ↦ rw (high, same)
    | inr low ↦ rw (high, low)
  ]

  find_low : List A → Option A
  find_low ys = find (λ y. not (key y)) ys

  pick-behind :
      (x y : A) (ys : List A)
      → key y ≡ true
      → pick x (or_else (find_low ys) (some y)) ≡ or_else (find_low ys) (some x)
  unfolding pick find_low
  pick-behind x y [] high = rw high
  pick-behind x y (z ∷ zs) high = elim (Bool-cases (key z)) [
    | inl same ↦ rw same (pick-behind x y zs high)
    | inr low ↦ rw low (rw low)
  ]

  pick-found :
      (x : A) (ys : List A)
      → pick x (or_else (find_low ys) (first ys)) ≡ or_else (find_low ys) (some x)
  unfolding pick find_low
  pick-found x [] = refl
  pick-found x (y ∷ ys) = elim (Bool-cases (key y)) [
    | inl high ↦ rw high (pick-behind x y ys high)
    | inr low ↦ rw low (rw low)
  ]

  -- The first of the sorted list: the first with the lesser key, or else the first.
  first-sort_by_key : (xs : List A) → first (sort_by_key key xs) ≡ or_else (find_low xs) (first xs)
  unfolding sort_by_key find_low
  first-sort_by_key [] = refl
  first-sort_by_key (x ∷ xs) = elim (Bool-cases (key x)) [
    | inl high ↦ rw high (
        first-insert_high x (sort_by_key key xs) high
        ∙ ap (pick x) (first-sort_by_key xs)
        ∙ pick-found x xs)
    | inr low ↦ rw low (first-insert_low x (sort_by_key key xs) low)
  ]

  module _ (test low : A → Bool) (same : (x : A) → not (key x) ≡ low x) where
    find_low-filter : (xs : List A) → find_low (filter test xs) ≡ find (λ x. test x && low x) xs
    unfolding find_low filter
    find_low-filter [] = refl
    find_low-filter (x ∷ xs) = elim (Bool-cases (test x)) [
      | inl passes ↦ rw (passes, same x, find_low-filter xs)
      | inr fails ↦ rw (fails, find_low-filter xs)
    ]

    first-filter : (xs : List A) → first (filter test xs) ≡ find test xs
    unfolding filter
    first-filter [] = refl
    first-filter (x ∷ xs) = elim (Bool-cases (test x)) [
      | inl passes ↦ rw passes
      | inr fails ↦ rw (fails, first-filter xs)
    ]

    first_chosen :
        (xs : List A)
        → first (sort_by_key key (filter test xs))
          ≡ or_else (find (λ x. test x && low x) xs) (find test xs)
    first_chosen xs =
        first-sort_by_key (filter test xs) ∙ ap₂ or_else (find_low-filter xs) (first-filter xs)

-- The first allowed IPv6 address, or else the first allowed address.
abbrev pub preferred : RelayEndpoint → List SocketAddr → Option SocketAddr
preferred relay addresses =
    or_else (find (λ address. is_allowed relay address && address.is_ipv6) addresses)
      (find (is_allowed relay) addresses)

abbrev pub or_unresolved : Option SocketAddr → Outcome Text SocketAddr
or_unresolved (some address) = ok address
or_unresolved none = err (codes "no usable IPv4/IPv6 address was resolved")

first_or-first :
    (addresses : List SocketAddr) → first_or addresses ≡ or_unresolved (first addresses)
first_or-first [] = refl
first_or-first (address ∷ rest) = refl

not-not : (b : Bool) → not (not b) ≡ b
not-not true = refl
not-not false = refl

module _ (to_socket_addrs : Text → ℕ → Outcome Text (List SocketAddr)) where
  -- Where the relay's name is resolved to a list of addresses, the relay is the first IPv6 address
  -- of it that the settings allow (any, unless IPv4 is forced), or else the first address that they
  -- allow. If they allow none, there is an error and no address.
  pub resolve_relay-preferred :
      (relay : RelayEndpoint) (addresses : List SocketAddr)
      → to_socket_addrs relay.host relay.port ≡ ok addresses
      → resolve_relay to_socket_addrs relay ≡ or_unresolved (preferred relay addresses)
  unfolding resolve_relay
  resolve_relay-preferred relay addresses e = rw e (
      first_or-first
        (sort_by_key (λ address. not address.is_ipv6) (filter (is_allowed relay) addresses))
      ∙ ap or_unresolved (
          first_chosen (λ address. not address.is_ipv6) (is_allowed relay)
            (λ address. address.is_ipv6) (λ address. not-not address.is_ipv6) addresses))
