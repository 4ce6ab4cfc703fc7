-- ===== src/Base/Outcomes.antt =====
-- Rust's `Result`, with the panic of an index or slice out of range as a third outcome.
use Prim.Native.Nat.{ℕ, ◌-◌}
use mathlib.Core.Path.{◌≡◌, refl}
use mathlib.Core.Logic.{◌≢◌, ◌⊎◌, inl, inr}
use mathlib.Core.Bool.{◌&&◌}
use mathlib.Core.List.{List}
use mathlib.Core.Option.{none, some}
use incom_udon_native_rust.Base.Tests.{leb, if◌then◌else◌}
use incom_udon_native_rust.Base.Lists.{length, get_elem?, take, drop}

pub data Outcome {ℓ κ} (E : Type ℓ) (A : Type κ) : Type (ℓ ⊔ κ) where
  ok : A → Outcome E A
  err : E → Outcome E A
  panic : Outcome E A

module _ {ℓ κ μ} {E : Type ℓ} {A : Type κ} {B : Type μ} where
  infixl 5 ◌>>=◌
  abbrev pub ◌>>=◌ : Outcome E A → (A → Outcome E B) → Outcome E B
  ok a >>= f = f a
  err e >>= f = err e
  panic >>= f = panic

  -- What came out of a chain that succeeded.
  pub >>=-eq-ok :
      (first : Outcome E A) (next : A → Outcome E B) {out : B}
      → (first >>= next) ≡ ok out
      → (mid : A) × (first ≡ ok mid) × (next mid ≡ ok out)
  >>=-eq-ok panic next e = cc
  >>=-eq-ok (err bad) next e = cc
  >>=-eq-ok (ok mid) next e = (mid, refl, e)

module _ {ℓ κ} {E : Type ℓ} {B : Type κ} where
  infixl 5 ◌>>◌
  abbrev pub ◌>>◌ : Outcome E (Unit {0}) → Outcome E B → Outcome E B
  first >> next = first >>= λ _. next

-- `Result::map_err`
abbrev pub map_err {ℓ κ μ} :
    {E : Type ℓ} {F : Type κ} {A : Type μ} → (E → F) → Outcome E A → Outcome F A
map_err f (ok a) = ok a
map_err f (err e) = err (f e)
map_err f panic = panic

pub map_err-eq-ok {ℓ κ μ} :
    {E : Type ℓ} {F : Type κ} {A : Type μ} (f : E → F) (o : Outcome E A) {a : A}
    → map_err f o ≡ ok a
    → o ≡ ok a
map_err-eq-ok f (ok a) e = cc
map_err-eq-ok f (err bad) e = cc
map_err-eq-ok f panic e = cc

module _ {ℓ κ} {E : Type ℓ} {A : Type κ} where
  -- `xs[i]`
  abbrev pub index : List A → ℕ → Outcome E A
  index xs i = elim (get_elem? xs i) [ none ↦ panic | some a ↦ ok a ]

  -- `&xs[a..b]`
  abbrev pub slice : List A → ℕ → ℕ → Outcome E (List A)
  slice xs a b = if leb a b && leb b (length xs) then ok (take (b - a) (drop a xs)) else panic

  -- `&xs[a..]`
  abbrev pub slice_from : List A → ℕ → Outcome E (List A)
  slice_from xs a = if leb a (length xs) then ok (drop a xs) else panic

-- An outcome that is no panic is a value or an error.
pub Outcome-cases {ℓ κ} :
    {E : Type ℓ} {A : Type κ} (m : Outcome E A)
    → m ≢ panic
    → ((a : A) × (m ≡ ok a)) ⊎ ((e : E) × (m ≡ err e))
Outcome-cases (ok a) h = inl (a, refl)
Outcome-cases (err e) h = inr (e, refl)
Outcome-cases panic h = absurd (h refl)

pub bind-ne-panic :
    {E A B : Type 0} (o : Outcome E A) (next : A → Outcome E B)
    → o ≢ panic
    → ((a : A) → next a ≢ panic)
    → (o >>= next) ≢ panic
bind-ne-panic (ok a) next h k = k a
bind-ne-panic (err e) next h k = λ x. cc
bind-ne-panic panic next h k = λ x. h refl

pub map_err-ne-panic :
    {E F A : Type 0} (f : E → F) (o : Outcome E A) → o ≢ panic → map_err f o ≢ panic
map_err-ne-panic f (ok a) h = λ x. cc
map_err-ne-panic f (err e) h = λ x. cc
map_err-ne-panic f panic h = λ x. h refl
