-- ===== src/Audio/Windows.antt =====
-- crates/incomudon-audio/src/lib.rs: what a bounded buffer that drops its oldest elements keeps,
-- the last elements of a list.
use incom_udon_native_rust.Base.{
  ℕ, zero, suc, ◌+◌, ◌-◌, ◌≤◌, List, [], ◌∷◌, ◌++◌, ◌≡◌, refl, sym, ◌∙◌, ap, arith, length, drop,
  min, length-append, length-drop, drop-drop,
}

module _ {ℓ} {A : Type ℓ} where
  -- The last `n` elements.
  abbrev pub last : ℕ → List A → List A
  last n xs = drop (length xs - n) xs

  pub length-last : (n : ℕ) (xs : List A) → length (last n xs) ≡ min n (length xs)
  length-last n xs = omega (arith, length-drop (length xs - n) xs)

  pub last_all : (n : ℕ) (xs : List A) → length xs ≤ n → last n xs ≡ xs
  last_all n xs h = ap (λ k. drop k xs) {y = 0} (omega arith)

  pub drop-append_within :
      (n : ℕ) (xs ys : List A) → n ≤ length xs → drop n (xs ++ ys) ≡ drop n xs ++ ys
  drop-append_within zero xs ys h = refl
  drop-append_within (suc n) [] ys h = absurd (omega arith)
  drop-append_within (suc n) (x ∷ xs) ys h = drop-append_within n xs ys (omega arith)

  -- Keeping the last elements now or only at the end is the same.
  pub last-append-last : (n : ℕ) (xs ys : List A) → last n (last n xs ++ ys) ≡ last n (xs ++ ys)
  last-append-last n xs ys =
      ap (λ k. drop k (last n xs ++ ys))
        (omega (arith, length-append (last n xs) ys, length-last n xs))
      ∙ ap (drop (length xs + length ys - n - (length xs - n))) {x = last n xs ++ ys}
          (sym (drop-append_within (length xs - n) xs ys (omega arith)))
      ∙ drop-drop (length xs + length ys - n - (length xs - n)) (length xs - n) (xs ++ ys)
      ∙ ap (λ k. drop k (xs ++ ys)) (omega (arith, length-append xs ys))
