-- ===== src/Profiles/Updates.antt =====
-- crates/incomudon-core/src/lib.rs: what `replace_relay` and `replace_active` leave in the store,
-- on success and on an error.
use incom_udon_native_rust.Base.{
  ℕ, ◌<◌, List, [], ◌∷◌, ◌++◌, some, true, ◌==◌, length, get_elem?, set, Outcome-cases,
  All-get_elem?, ok, err, panic, All, All-set, length-set, get_elem?-set_self, get_elem?-set_ne,
  ◌≡◌, ◌≢◌, refl, sym, ap, ◌∙◌, arith, ◌↔◌, ◌⊎◌, inl, inr, Bool-cases, ==_iff, map, lt→ltb,
  get_elem?-of_lt,
}
use incom_udon_native_rust.Base.Text.{Text, to_ascii_lowercase}
use incom_udon_native_rust.Profiles.Store.{
  TransceiverProfile, RelayEndpoint, ProfileStore, profile_store_version, duplicate_name,
  ProfileError, validate_relay_endpoint, validate_bitrate, validate_profile, any_named,
  validate_profiles, validate, replace_relay, replace_active, active,
}
use incom_udon_native_rust.Profiles.Validity.{
  SameName, ProfileIsValid, RelayIsValid, NamesDifferFrom, IsValid, validate_profile_iff,
  validate_relay_endpoint_iff, validate_iff,
}

replace_relay-ok :
    (s : ProfileStore) (r : RelayEndpoint)
    → validate_relay_endpoint r ≡ ok tt
    → replace_relay s r ≡ (validate (record s { relay = r }), record s { relay = r })
unfolding replace_relay
replace_relay-ok s r e = rw (e, replace_relay)

pub validate_relay_endpoint-ne-panic : (r : RelayEndpoint) → validate_relay_endpoint r ≢ panic
unfolding validate_relay_endpoint
validate_relay_endpoint-ne-panic r = ground arith

pub validate_profile-ne-panic : (p : TransceiverProfile) → validate_profile p ≢ panic
unfolding validate_profile validate_bitrate
validate_profile-ne-panic p = ground arith

relay-IsValid :
    {s : ProfileStore} {r : RelayEndpoint}
    → IsValid s
    → RelayIsValid r
    → IsValid (record s { relay = r })
relay-IsValid v r = record {
  version_is = v.version_is;
  relay = r;
  active_in = v.active_in;
  profiles = v.profiles;
  names_differ = v.names_differ;
}

-- On a valid store `replace_relay` is all or nothing: it takes a valid endpoint, and the store stays
-- valid; otherwise it returns the endpoint's error and leaves the store as it was.
pub replace_relay_atomic :
    (s : ProfileStore) (r : RelayEndpoint)
    → IsValid s
    → ((RelayIsValid r)
        × (replace_relay s r ≡ (ok tt, record s { relay = r }))
        × IsValid (record s { relay = r }))
      ⊎ ((e : ProfileError) × (validate_relay_endpoint r ≡ err e)
          × (replace_relay s r ≡ (err e, s)))
replace_relay_atomic s r v =
    elim (Outcome-cases (validate_relay_endpoint r) (validate_relay_endpoint-ne-panic r)) [
      | inl (_, e) ↦
          let rv = (validate_relay_endpoint_iff r).0 e in
          let v' = relay-IsValid v rv in
          inl (rv, rw (replace_relay-ok s r e, (validate_iff (record s { relay = r })).1 v'), v')
      | inr (e, bad) ↦ inr (e, bad, unfold replace_relay in rw (bad, replace_relay))
    ]

eq_of_test : (a b : ℕ) → (a == b) ≡ true → a ≡ b
eq_of_test a b h = (==_iff a b).0 h

set-names_differ :
    (ps : List TransceiverProfile) (k : ℕ) (p : TransceiverProfile)
    → NamesDifferFrom 0 ps
    → ((i : ℕ) (q : TransceiverProfile)
        → i ≢ k
        → get_elem? ps i ≡ some q
        → ¬ (SameName q.name p.name))
    → k < length ps
    → NamesDifferFrom 0 (set ps k p)
set-names_differ ps k p d fresh inside i j a b lt le ga gb same = elim (Bool-cases (i == k)) [
  | inl i_is ↦
      let a_is : p ≡ a =
        cc (get_elem?-set_self ps k p inside, ap (get_elem? (set ps k p)) (eq_of_test i k i_is)) in
      fresh j b (omega (arith, eq_of_test i k i_is))
        (sym (get_elem?-set_ne ps k j p (omega (arith, eq_of_test i k i_is))) ∙ gb)
        (sym same ∙ ap (λ x. map to_ascii_lowercase x.name) (sym a_is))
  | inr i_not ↦ elim (Bool-cases (j == k)) [
    | inl j_is ↦
        let b_is : p ≡ b =
          cc
            (get_elem?-set_self ps k p inside, ap (get_elem? (set ps k p)) (eq_of_test j k j_is)) in
        fresh i a (ground arith) (sym (get_elem?-set_ne ps k i p (ground arith)) ∙ ga)
          (same ∙ ap (λ x. map to_ascii_lowercase x.name) (sym b_is))
    | inr j_not ↦
        d i j a b lt le (sym (get_elem?-set_ne ps k i p (ground arith)) ∙ ga)
          (sym (get_elem?-set_ne ps k j p (ground arith)) ∙ gb) same
  ]
]

ne_cases : (a b : ℕ) → a ≢ b → (a < b) ⊎ (b < a)
ne_cases a b h = ground arith

-- The loop over valid profiles ends well, or with a duplicate name.
validate_profiles-cases :
    (previous rest : List TransceiverProfile)
    → All ProfileIsValid rest
    → (validate_profiles previous rest ≡ ok tt)
      ⊎ ((n : Text) × (validate_profiles previous rest ≡ err (duplicate_name n)))
unfolding validate_profiles
validate_profiles-cases previous [] h = inl refl
validate_profiles-cases previous (p ∷ rest) h =
    let valid = (validate_profile_iff p).1 h.0 in
    elim (Bool-cases (any_named p.name previous)) [
      | inl clash ↦ inr (p.name, rw (valid, clash))
      | inr fresh ↦ rw (valid, fresh) (validate_profiles-cases (previous ++ p ∷ []) rest h.1)
    ]

validate-only_names :
    (s : ProfileStore)
    → s.version ≡ profile_store_version
    → RelayIsValid s.relay
    → s.active_profile < length s.profiles
    → validate s ≡ validate_profiles [] s.profiles
unfolding validate
validate-only_names s v r a = ground (arith, (validate_relay_endpoint_iff s.relay).1 r)

-- No profile besides the active one has the name.
abbrev pub IsUnclaimed : ProfileStore → Text → Type 0
IsUnclaimed s name =
    (i : ℕ) (q : TransceiverProfile)
    → i ≢ s.active_profile
    → get_elem? s.profiles i ≡ some q
    → ¬ (SameName q.name name)

-- The store with its active profile replaced.
abbrev pub with_active : ProfileStore → TransceiverProfile → ProfileStore
with_active s p = record s { profiles = set s.profiles s.active_profile p }

module _ (s : ProfileStore) (p : TransceiverProfile) (v : IsValid s) where
  replace_active-assigns :
      validate_profile p ≡ ok tt
      → replace_active s p ≡ (validate (with_active s p), with_active s p)
  unfolding replace_active
  replace_active-assigns e = rw (e, replace_active, lt→ltb _ _ v.active_in)

  with_active-IsValid_iff : ProfileIsValid p → IsValid (with_active s p) ↔ IsUnclaimed s p.name
  with_active-IsValid_iff pv = (there, back)
    where
      there : IsValid (with_active s p) → IsUnclaimed s p.name
      there w i q ne g same =
          let here = get_elem?-set_self s.profiles s.active_profile p v.active_in in
          let there' = get_elem?-set_ne s.profiles s.active_profile i p (λ e. ne (sym e)) ∙ g in
          elim (ne_cases i s.active_profile ne) [
            | inl below ↦ w.names_differ i s.active_profile q p below (omega arith) there' here same
            | inr above ↦
                w.names_differ s.active_profile i p q above (omega arith) here there' (sym same)
          ]

      back : IsUnclaimed s p.name → IsValid (with_active s p)
      back free = record {
        version_is = v.version_is;
        relay = v.relay;
        active_in = omega (arith, v.active_in, length-set s.profiles s.active_profile p);
        profiles = All-set ProfileIsValid s.profiles s.active_profile p v.profiles pv;
        names_differ =
            set-names_differ s.profiles s.active_profile p v.names_differ free v.active_in;
      }

  validate-with_active :
      ProfileIsValid p
      → (validate (with_active s p) ≡ ok tt)
        ⊎ ((n : Text) × (validate (with_active s p) ≡ err (duplicate_name n)))
  validate-with_active pv =
      let only =
        validate-only_names (with_active s p) v.version_is v.relay
          (omega (arith, v.active_in, length-set s.profiles s.active_profile p)) in
      rw only (
        validate_profiles-cases [] (set s.profiles s.active_profile p)
          (All-set ProfileIsValid s.profiles s.active_profile p v.profiles pv))

  -- On a valid store `replace_active` never panics. It refuses an invalid profile and leaves the
  -- store as it was; it takes a valid one whose name no other profile has, and the store stays
  -- valid; and for a valid one whose name is taken it returns the error after the assignment, so
  -- that the store is left with the new profile and is no longer valid.
  pub replace_active_lem :
      ((e : ProfileError) × (validate_profile p ≡ err e) × (replace_active s p ≡ (err e, s)))
      ⊎ (ProfileIsValid p
          × IsUnclaimed s p.name
          × (replace_active s p ≡ (ok tt, with_active s p))
          × IsValid (with_active s p))
      ⊎ ((n : Text) × ProfileIsValid p
          × (¬ (IsUnclaimed s p.name))
          × (replace_active s p ≡ (err (duplicate_name n), with_active s p))
          × (¬ (IsValid (with_active s p))))
  replace_active_lem = elim (Outcome-cases (validate_profile p) (validate_profile-ne-panic p)) [
    | inr (e, bad) ↦ inl (e, bad, unfold replace_active in rw (bad, replace_active))
    | inl (_, good) ↦
        let pv = (validate_profile_iff p).0 good in
        let free = with_active-IsValid_iff pv in
        let sound = validate_iff (with_active s p) in
        elim (validate-with_active pv) [
          | inl e ↦
              inr (inl (pv, free.0 (sound.0 e), rw (replace_active-assigns good, e), sound.0 e))
          | inr (n, e) ↦
              let broken : ¬ (IsValid (with_active s p)) = λ w. cc (sound.1 w, e) in
              inr (inr (n, pv, λ u. broken (free.1 u), rw (replace_active-assigns good, e), broken))
        ]
  ]

-- The active profile of a store that was validated is there, and is valid.
pub active-ok :
    (s : ProfileStore)
    → validate s ≡ ok tt
    → (p : TransceiverProfile) × (active s ≡ ok p) × ProfileIsValid p
unfolding active
active-ok s e =
    let v = (validate_iff s).0 e in
    let (p, g) = get_elem?-of_lt s.profiles s.active_profile v.active_in in
    (p, ground (arith, g), All-get_elem? ProfileIsValid s.profiles s.active_profile v.profiles g)
