-- ===== src/Profiles/Tests.antt =====
-- crates/incomudon-core/src/lib.rs: validation and updates at concrete stores.
use incom_udon_native_rust.Base.{◌≡◌, ◌↔◌, ◌⊎◌, refl, [], ◌∷◌, ok, err, none, true}
use incom_udon_native_rust.Base.Text.{
  Text, codes, trim, is_whitespace, eq_ignore_ascii_case, to_ascii_lowercase,
}
use incom_udon_native_rust.Profiles.Store.{
  TransceiverProfile, RelayEndpoint, ProfileStore, ProfileError, duplicate_name, pcm,
  default_profile, default_store, validate, validate_profile, validate_profiles, validate_bitrate,
  validate_relay_endpoint, any_named, replace_relay, replace_active, assign_active,
}
use incom_udon_native_rust.Profiles.Validity.{IsValid, ProfileIsValid, RelayIsValid, validate_iff}
use incom_udon_native_rust.Profiles.Updates.{
  IsUnclaimed, with_active, replace_relay_atomic, replace_active_lem,
}

abbrev base_profile : TransceiverProfile
base_profile = record default_profile { name = codes " Base "; codec = pcm; bitrate_bps = none }

abbrev two_profiles : ProfileStore
two_profiles = record default_store {
  active_profile = 1;
  profiles = default_profile ∷ base_profile ∷ [];
}

two_profiles-validate : validate two_profiles ≡ ok tt
unfolding validate validate_profiles validate_profile validate_bitrate validate_relay_endpoint
    any_named trim is_whitespace eq_ignore_ascii_case to_ascii_lowercase
two_profiles-validate = refl

two_profiles-IsValid : IsValid two_profiles
two_profiles-IsValid = (validate_iff two_profiles).0 two_profiles-validate

validate_iff_example : (validate two_profiles ≡ ok tt) ↔ IsValid two_profiles
validate_iff_example = validate_iff two_profiles

abbrev local_relay : RelayEndpoint
local_relay = record { host = codes "relay.example"; port = 50_001; force_ipv4 = true }

replace_relay_atomic_example :
    ((RelayIsValid local_relay)
      × (replace_relay two_profiles local_relay
          ≡ (ok tt, record two_profiles { relay = local_relay }))
      × IsValid (record two_profiles { relay = local_relay }))
    ⊎ ((e : ProfileError) × (validate_relay_endpoint local_relay ≡ err e)
        × (replace_relay two_profiles local_relay ≡ (err e, two_profiles)))
replace_relay_atomic_example = replace_relay_atomic two_profiles local_relay two_profiles-IsValid

abbrev renamed : TransceiverProfile
renamed = record base_profile { name = codes "dEFAULT" }

replace_active_lem_example :
    ((e : ProfileError) × (validate_profile renamed ≡ err e)
      × (replace_active two_profiles renamed ≡ (err e, two_profiles)))
    ⊎ (ProfileIsValid renamed
        × IsUnclaimed two_profiles renamed.name
        × (replace_active two_profiles renamed ≡ (ok tt, with_active two_profiles renamed))
        × IsValid (with_active two_profiles renamed))
    ⊎ ((n : Text) × ProfileIsValid renamed
        × (¬ (IsUnclaimed two_profiles renamed.name))
        × (replace_active two_profiles renamed
            ≡ (err (duplicate_name n), with_active two_profiles renamed))
        × (¬ (IsValid (with_active two_profiles renamed))))
replace_active_lem_example = replace_active_lem two_profiles renamed two_profiles-IsValid

-- A rename to the other profile's name is refused, and the store is left with both.
renamed-stays : replace_active two_profiles renamed ≡ (
  err (duplicate_name (codes "dEFAULT")),
  record two_profiles { profiles = default_profile ∷ renamed ∷ [] },
)
unfolding replace_active assign_active validate validate_profiles validate_profile validate_bitrate
    validate_relay_endpoint any_named trim is_whitespace eq_ignore_ascii_case to_ascii_lowercase
renamed-stays = refl
