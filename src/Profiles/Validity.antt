-- ===== src/Profiles/Validity.antt =====
-- crates/incomudon-core/src/lib.rs: what makes a profile store valid, stated without the code, for
-- `ProfileStore::validate`.
use incom_udon_native_rust.Base.{
  ℕ, zero, suc, ◌≤◌, ◌<◌, List, [], ◌∷◌, ◌++◌, Option, none, some, true, false, ◌==◌, length,
  get_elem?, ok, All, ◌≡◌, ◌≢◌, refl, sym, ap, ◌∙◌, arith, ◌↔◌, inl, inr, map, Bool-cases,
  get_elem?-append_left, get_elem?-append_middle, get_elem?-lt, append_assoc, length-append, subst,
}
use incom_udon_native_rust.Base.Text.{
  Text, trim, is_empty, eq_ignore_ascii_case, to_ascii_lowercase, IsBlank, is_empty-trim_iff,
  eq_ignore_ascii_case_iff,
}
use incom_udon_native_rust.Profiles.Store.{
  Codec, opus, codec2, pcm, TransceiverProfile, RelayEndpoint, ProfileStore, profile_store_version,
  max_profile_name_len, validate_relay_endpoint, validate_bitrate, validate_profile, any_named,
  validate_profiles, validate,
}

abbrev pub SameName : Text → Text → Type 0
SameName s t = map to_ascii_lowercase s ≡ map to_ascii_lowercase t

abbrev pub BitrateIsValid : Codec → Option ℕ → Type 0
BitrateIsValid pcm (some value) = ⊥
BitrateIsValid pcm none = Unit
BitrateIsValid opus (some value) = 0 < value
BitrateIsValid opus none = ⊥
BitrateIsValid codec2 (some value) = 0 < value
BitrateIsValid codec2 none = ⊥

pub record ProfileIsValid (p : TransceiverProfile) : Type 0 where
  pub named : ¬ (IsBlank p.name)
  pub short : length (trim p.name) ≤ max_profile_name_len
  pub bitrate : BitrateIsValid p.codec p.bitrate_bps

pub record RelayIsValid (r : RelayEndpoint) : Type 0 where
  pub named : ¬ (IsBlank r.host)
  pub port : r.port ≢ 0

-- No two profiles have one name, whatever its case; for positions from `start` on.
abbrev pub NamesDifferFrom : ℕ → List TransceiverProfile → Type 0
NamesDifferFrom start ps =
    (i j : ℕ) (p q : TransceiverProfile)
    → i < j
    → start ≤ j
    → get_elem? ps i ≡ some p
    → get_elem? ps j ≡ some q
    → ¬ (SameName p.name q.name)

pub record IsValid (s : ProfileStore) : Type 0 where
  pub version_is : s.version ≡ profile_store_version
  pub relay : RelayIsValid s.relay
  pub active_in : s.active_profile < length s.profiles
  pub profiles : All ProfileIsValid s.profiles
  pub names_differ : NamesDifferFrom 0 s.profiles

pub validate_bitrate_iff :
    (c : Codec) (b : Option ℕ) → (validate_bitrate c b ≡ ok tt) ↔ BitrateIsValid c b
unfolding validate_bitrate
validate_bitrate_iff pcm (some v) = (λ h. cc, λ h. absurd h)
validate_bitrate_iff pcm none = (λ h. tt, λ h. refl)
validate_bitrate_iff opus (some v) = ground arith
validate_bitrate_iff opus none = (λ h. cc, λ h. absurd h)
validate_bitrate_iff codec2 (some v) = ground arith
validate_bitrate_iff codec2 none = (λ h. cc, λ h. absurd h)

pub validate_profile_iff :
    (p : TransceiverProfile) → (validate_profile p ≡ ok tt) ↔ ProfileIsValid p
unfolding validate_profile
validate_profile_iff p = (there, back)
  where
    there : validate_profile p ≡ ok tt → ProfileIsValid p
    there e = record {
      named = λ b. ground (arith, (is_empty-trim_iff p.name).1 b);
      short = ground arith;
      bitrate = (validate_bitrate_iff p.codec p.bitrate_bps).0 (ground arith);
    }

    back : ProfileIsValid p → validate_profile p ≡ ok tt
    back v = ground (
      arith,
      λ (e : is_empty (trim p.name) ≡ true). v.named ((is_empty-trim_iff p.name).0 e),
      (validate_bitrate_iff p.codec p.bitrate_bps).1 v.bitrate,
    )

pub validate_relay_endpoint_iff :
    (r : RelayEndpoint) → (validate_relay_endpoint r ≡ ok tt) ↔ RelayIsValid r
unfolding validate_relay_endpoint
validate_relay_endpoint_iff r = (there, back)
  where
    there : validate_relay_endpoint r ≡ ok tt → RelayIsValid r
    there e = record {
      named = λ b. ground (arith, (is_empty-trim_iff r.host).1 b);
      port = ground arith;
    }

    back : RelayIsValid r → validate_relay_endpoint r ≡ ok tt
    back v =
        ground
          (arith, λ (e : is_empty (trim r.host) ≡ true). v.named ((is_empty-trim_iff r.host).0 e))

abbrev NoneNamed : Text → List TransceiverProfile → Type 0
NoneNamed name ps =
    (i : ℕ) (p : TransceiverProfile) → get_elem? ps i ≡ some p → ¬ (SameName p.name name)

pub NoneNamed-of_any_named :
    (name : Text) (ps : List TransceiverProfile) → any_named name ps ≡ false → NoneNamed name ps
unfolding any_named
NoneNamed-of_any_named name [] e i p g = cc
NoneNamed-of_any_named name (q ∷ ps) e zero p g =
    λ same. ground (arith, (eq_ignore_ascii_case_iff p.name name).1 same)
NoneNamed-of_any_named name (q ∷ ps) e (suc i) p g =
    NoneNamed-of_any_named name ps (ground arith) i p g

pub any_named_of_NoneNamed :
    (name : Text) (ps : List TransceiverProfile) → NoneNamed name ps → any_named name ps ≡ false
unfolding any_named
any_named_of_NoneNamed name [] h = refl
any_named_of_NoneNamed name (q ∷ ps) h = ground (
  arith,
  any_named_of_NoneNamed name ps (λ i p g. h (suc i) p g),
  λ (e : eq_ignore_ascii_case q.name name ≡ true).
      h 0 q refl ((eq_ignore_ascii_case_iff q.name name).0 e),
)

module _ (previous : List TransceiverProfile) (p : TransceiverProfile)
    (rest : List TransceiverProfile) where
  regroup : previous ++ p ∷ rest ≡ (previous ++ p ∷ []) ++ rest
  regroup = sym (append_assoc previous (p ∷ []) rest)

  -- The names differ from this profile's position on if it clashes with none before it, and they
  -- differ behind it.
  NamesDifferFrom-cons :
      any_named p.name previous ≡ false
      → NamesDifferFrom (length (previous ++ p ∷ [])) ((previous ++ p ∷ []) ++ rest)
      → NamesDifferFrom (length previous) (previous ++ p ∷ rest)
  NamesDifferFrom-cons fresh later i j a b lt le ga gb same =
      elim (Bool-cases (j == length previous)) [
        | inl here ↦
            let j_is : j ≡ length previous = ground arith in
            let b_is : p ≡ b = cc (
              get_elem?-append_middle previous rest p,
              ap (get_elem? (previous ++ p ∷ rest)) j_is,
            ) in
            NoneNamed-of_any_named p.name previous fresh i a
              (sym (get_elem?-append_left previous (p ∷ rest) i (omega arith)) ∙ ga)
              (subst (λ x. SameName a.name x.name) (sym b_is) same)
        | inr behind ↦
            later i j a b lt
              (omega (arith, length-append previous (p ∷ []), ground_ne j (length previous) behind))
              (ap (λ l. get_elem? l i) (sym regroup) ∙ ga)
              (ap (λ l. get_elem? l j) (sym regroup) ∙ gb) same
      ]
    where
      ground_ne : (a b : ℕ) → (a == b) ≡ false → a ≢ b
      ground_ne a b h = ground arith

  NamesDifferFrom-uncons :
      NamesDifferFrom (length previous) (previous ++ p ∷ rest)
      → (any_named p.name previous ≡ false)
        × NamesDifferFrom (length (previous ++ p ∷ [])) ((previous ++ p ∷ []) ++ rest)
  NamesDifferFrom-uncons d = (
    any_named_of_NoneNamed p.name previous (λ i a g same.
        d i (length previous) a p (get_elem?-lt previous i g) (omega arith)
          (get_elem?-append_left previous (p ∷ rest) i (get_elem?-lt previous i g) ∙ g)
          (get_elem?-append_middle previous rest p) same),
    λ i j a b lt le ga gb same.
        d i j a b lt (omega (arith, length-append previous (p ∷ [])))
          (ap (λ l. get_elem? l i) regroup ∙ ga) (ap (λ l. get_elem? l j) regroup ∙ gb) same,
  )

NamesDifferFrom-end : (ps : List TransceiverProfile) → NamesDifferFrom (length ps) (ps ++ [])
NamesDifferFrom-end ps i j a b lt le ga gb =
    absurd (omega (arith, get_elem?-lt (ps ++ []) j gb, length-append ps []))

validate_profiles-cons_iff :
    (previous : List TransceiverProfile) (p : TransceiverProfile) (rest : List TransceiverProfile)
    → (validate_profiles previous (p ∷ rest) ≡ ok tt) ↔ (
        (validate_profile p ≡ ok tt)
        × (any_named p.name previous ≡ false)
        × (validate_profiles (previous ++ p ∷ []) rest ≡ ok tt))
unfolding validate_profiles
validate_profiles-cons_iff previous p rest = ground arith

validate_profiles_iff :
    (previous rest : List TransceiverProfile)
    → (validate_profiles previous rest ≡ ok tt)
      ↔ (All ProfileIsValid rest × NamesDifferFrom (length previous) (previous ++ rest))
validate_profiles_iff previous [] =
    (λ _. (tt, NamesDifferFrom-end previous), λ _. unfold validate_profiles in refl)
validate_profiles_iff previous (p ∷ rest) =
    let step = validate_profiles-cons_iff previous p rest in
    let ih = validate_profiles_iff (previous ++ p ∷ []) rest in
    let one = validate_profile_iff p in
    (
      λ e.
          let (valid, fresh, later) = step.0 e in
          let (all, differ) = ih.0 later in
          ((one.0 valid, all), NamesDifferFrom-cons previous p rest fresh differ),
      λ h.
          let (fresh, later) = NamesDifferFrom-uncons previous p rest h.1 in
          step.1 (one.1 h.0.0, fresh, ih.1 (h.0.1, later)),
    )

validate-parts_iff :
    (s : ProfileStore)
    → (validate s ≡ ok tt) ↔ (
        (s.version ≡ profile_store_version)
        × (validate_relay_endpoint s.relay ≡ ok tt)
        × (s.active_profile < length s.profiles)
        × (validate_profiles [] s.profiles ≡ ok tt))
unfolding validate
validate-parts_iff s = ground arith

-- `validate` accepts a store exactly when it is of this version, its relay has a host and a port,
-- the active profile is one of the profiles, each profile has a name of 1 to 64 characters besides
-- white space at its ends and the bitrate that its codec wants, and no two names are the same up to
-- the case of ASCII letters.
pub validate_iff : (s : ProfileStore) → (validate s ≡ ok tt) ↔ IsValid s
validate_iff s =
    let parts = validate-parts_iff s in
    let relay = validate_relay_endpoint_iff s.relay in
    let names = validate_profiles_iff [] s.profiles in
    (
      λ e.
          let (v, r, a, n) = parts.0 e in
          record {
            version_is = v;
            relay = relay.0 r;
            active_in = a;
            profiles = (names.0 n).0;
            names_differ = (names.0 n).1;
          },
      λ i.
          parts.1
            (i.version_is, relay.1 i.relay, i.active_in, names.1 (i.profiles, i.names_differ)),
    )
