-- ===== src/Profiles/Steady.antt =====
-- crates/incomudon-core/src/lib.rs: the updates keep a profile selected, and nothing panics.
use incom_udon_native_rust.Base.{
  ◌<◌, List, [], ◌∷◌, Bool, true, false, not, ◌==◌, leb, ltb, if◌then◌else◌, length,
  get_elem?-of_lt, length-set, ok, err, panic, ◌>>◌, ◌≡◌, ◌≢◌, refl, arith, inl, inr, Bool-cases,
}
use incom_udon_native_rust.Profiles.Store.{
  TransceiverProfile, RelayEndpoint, ProfileStore, ProfileError, Checked, profile_store_version,
  validate_profile, validate_relay_endpoint, validate_profiles, no_profiles, any_named, validate,
  active, replace_relay, assign_active, replace_active,
}
use incom_udon_native_rust.Profiles.Updates.{
  validate_profile-ne-panic, validate_relay_endpoint-ne-panic,
}

abbrev pub IsSelected : ProfileStore → Type 0
IsSelected s = s.active_profile < length s.profiles

pub active-found : (s : ProfileStore) → IsSelected s → (p : TransceiverProfile) × (active s ≡ ok p)
unfolding active
active-found s h =
    let (p, found) = get_elem?-of_lt s.profiles s.active_profile h in (p, ground (arith, found))

>>-ne-panic :
    (first : Checked) (next : Checked) → first ≢ panic → next ≢ panic → (first >> next) ≢ panic
>>-ne-panic (ok a) next h k = k
>>-ne-panic (err e) next h k = λ x. cc
>>-ne-panic panic next h k = λ x. h refl

if-ne-panic :
    (b : Bool) (e : ProfileError) (o : Checked) → o ≢ panic → (if b then err e else o) ≢ panic
if-ne-panic true e o h = λ x. cc
if-ne-panic false e o h = h

validate_profiles-ne-panic :
    (previous rest : List TransceiverProfile) → validate_profiles previous rest ≢ panic
unfolding validate_profiles
validate_profiles-ne-panic previous [] = λ x. cc
validate_profiles-ne-panic previous (p ∷ rest) =
    >>-ne-panic (validate_profile p) _ (validate_profile-ne-panic p)
      (if-ne-panic (any_named p.name previous) _ _ (validate_profiles-ne-panic _ rest))

pub validate-ne-panic : (s : ProfileStore) → validate s ≢ panic
unfolding validate
validate-ne-panic s = if-ne-panic (not (s.version == profile_store_version)) _ _ (
    >>-ne-panic (validate_relay_endpoint s.relay) _ (validate_relay_endpoint-ne-panic s.relay) (
      if-ne-panic (no_profiles s.profiles) _ _ (
        if-ne-panic (leb (length s.profiles) s.active_profile) _ _
          (validate_profiles-ne-panic [] s.profiles))))

-- An update that returns, and leaves a profile selected.
abbrev pub IsSteady : Checked × ProfileStore → Type 0
IsSteady r = (r.0 ≢ panic) × IsSelected r.1

assign_active-IsSteady :
    (s : ProfileStore) (p : TransceiverProfile) → IsSelected s → IsSteady (assign_active s p)
unfolding assign_active
assign_active-IsSteady s p h = elim (Bool-cases (ltb s.active_profile (length s.profiles))) [
  | inl inside ↦
      rw inside (validate-ne-panic _, omega (arith, h, length-set s.profiles s.active_profile p))
  | inr outside ↦ absurd (ground (arith, h, outside))
]

pub replace_active-IsSteady :
    (s : ProfileStore) (p : TransceiverProfile) → IsSelected s → IsSteady (replace_active s p)
unfolding replace_active
replace_active-IsSteady s p h = by_check (validate_profile p) (validate_profile-ne-panic p)
  where
    by_check :
        (o : Checked)
        → o ≢ panic
        → IsSteady (elim o as (λ x. Checked × ProfileStore) [
          | ok _ ↦ assign_active s p
          | err e ↦ (err e, s)
          | panic ↦ (panic, s)
        ])
    by_check (ok a) k = assign_active-IsSteady s p h
    by_check (err e) k = (λ x. cc, h)
    by_check panic k = absurd (k refl)

pub replace_relay-IsSteady :
    (s : ProfileStore) (r : RelayEndpoint) → IsSelected s → IsSteady (replace_relay s r)
unfolding replace_relay
replace_relay-IsSteady s r h =
    by_check (validate_relay_endpoint r) (validate_relay_endpoint-ne-panic r)
  where
    by_check :
        (o : Checked)
        → o ≢ panic
        → IsSteady (elim o as (λ x. Checked × ProfileStore) [
          | ok _ ↦ (let s' = record s { relay = r } in (validate s', s'))
          | err e ↦ (err e, s)
          | panic ↦ (panic, s)
        ])
    by_check (ok a) k = (validate-ne-panic _, h)
    by_check (err e) k = (λ x. cc, h)
    by_check panic k = absurd (k refl)
