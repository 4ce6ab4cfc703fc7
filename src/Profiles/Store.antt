-- ===== src/Profiles/Store.antt =====
-- crates/incomudon-core/src/lib.rs: profiles, the relay endpoint, the store and its validation.
use incom_udon_native_rust.Base.{
  ℕ, List, [], ◌∷◌, ◌++◌, Option, none, some, Bool, true, false, not, ◌||◌, ltb, leb, ◌==◌,
  if◌then◌else◌, length, set, Outcome, ok, err, panic, ◌>>◌, index,
}
use incom_udon_native_rust.Base.Text.{Text, codes, trim, is_empty, eq_ignore_ascii_case}
use incom_udon_native_rust.Protocol.Types.{PacketType, audio, fec}

abbrev pub profile_store_version : ℕ
profile_store_version = 1

abbrev pub max_profile_name_len : ℕ
max_profile_name_len = 64

pub data Codec : Type 0 where
  opus codec2 pcm : Codec

pub data EncryptionMode : Type 0 where
  aes_gcm_v2 aes_gcm_v1 no_encryption : EncryptionMode

pub record TransceiverProfile : Type 0 where
  pub name : Text
  pub channel_id : ℕ
  pub sender_id : ℕ
  pub codec : Codec
  pub bitrate_bps : Option ℕ
  pub encryption : EncryptionMode
  pub receive_only : Bool
  pub mute_self_id : Bool

abbrev pub default_profile : TransceiverProfile
default_profile = record {
  name = codes "Default";
  channel_id = 0;
  sender_id = 0;
  codec = opus;
  bitrate_bps = some 16_000;
  encryption = aes_gcm_v2;
  receive_only = false;
  mute_self_id = true;
}

pub record RelayEndpoint : Type 0 where
  pub host : Text
  pub port : ℕ
  pub force_ipv4 : Bool

abbrev pub default_relay : RelayEndpoint
default_relay = record { host = codes "127.0.0.1"; port = 50_000; force_ipv4 = false }

pub record ProfileStore : Type 0 where
  pub version : ℕ
  pub active_profile : ℕ
  pub relay : RelayEndpoint
  pub profiles : List TransceiverProfile

abbrev pub default_store : ProfileStore
default_store = record {
  version = profile_store_version;
  active_profile = 0;
  relay = default_relay;
  profiles = default_profile ∷ [];
}

pub data ProfileError : Type 0 where
  unsupported_store_version : ℕ → ProfileError
  missing_profiles : ProfileError
  invalid_active_profile : ℕ → ℕ → ProfileError
  invalid_name : ProfileError
  duplicate_name : Text → ProfileError
  missing_bitrate : Codec → ProfileError
  pcm_bitrate_set : ProfileError
  empty_relay_host : ProfileError
  invalid_relay_port : ProfileError

-- `Result<(), ProfileError>`, or a panic
abbrev pub Checked : Type 0
Checked = Outcome ProfileError (Unit {0})

unfoldable pub validate_relay_endpoint : RelayEndpoint → Checked
validate_relay_endpoint endpoint =
    if is_empty (trim endpoint.host)
    then err empty_relay_host
    else if endpoint.port == 0
    then err invalid_relay_port
    else ok tt

-- the `match` on codec and bitrate
unfoldable pub validate_bitrate : Codec → Option ℕ → Checked
validate_bitrate pcm (some value) = err pcm_bitrate_set
validate_bitrate pcm none = ok tt
validate_bitrate opus (some value) = if ltb 0 value then ok tt else err (missing_bitrate opus)
validate_bitrate opus none = err (missing_bitrate opus)
validate_bitrate codec2 (some value) = if ltb 0 value then ok tt else err (missing_bitrate codec2)
validate_bitrate codec2 none = err (missing_bitrate codec2)

unfoldable pub validate_profile : TransceiverProfile → Checked
validate_profile profile =
    let name = trim profile.name in
    if is_empty name || ltb max_profile_name_len (length name)
    then err invalid_name
    else validate_bitrate profile.codec profile.bitrate_bps

-- `previous.iter().any(…)`
unfoldable pub any_named : Text → List TransceiverProfile → Bool
any_named name [] = false
any_named name (previous ∷ rest) = eq_ignore_ascii_case previous.name name || any_named name rest

-- the loop of `validate`; `previous` is `self.profiles[..index]`
unfoldable pub validate_profiles : List TransceiverProfile → List TransceiverProfile → Checked
validate_profiles previous [] = ok tt
validate_profiles previous (profile ∷ rest) =
    validate_profile profile
    >> (let later = validate_profiles (previous ++ profile ∷ []) rest in
        if any_named profile.name previous then err (duplicate_name profile.name) else later)

abbrev pub no_profiles : List TransceiverProfile → Bool
no_profiles [] = true
no_profiles (profile ∷ rest) = false

unfoldable pub validate : ProfileStore → Checked
validate store =
    if not (store.version == profile_store_version)
    then err (unsupported_store_version store.version)
    else validate_relay_endpoint store.relay
      >> (if no_profiles store.profiles
          then err missing_profiles
          else if leb (length store.profiles) store.active_profile
          then err (invalid_active_profile store.active_profile (length store.profiles))
          else validate_profiles [] store.profiles)

unfoldable pub active : ProfileStore → Outcome ProfileError TransceiverProfile
active store = index store.profiles store.active_profile

-- A method that changes the store returns the new store, on an error too.
unfoldable pub replace_relay : ProfileStore → RelayEndpoint → Checked × ProfileStore
replace_relay store relay = elim (validate_relay_endpoint relay) [
  | ok _ ↦ let store' = record store { relay = relay } in (validate store', store')
  | err e ↦ (err e, store)
  | panic ↦ (panic, store)
]

-- the assignment `self.profiles[self.active_profile] = profile` and what follows it
unfoldable pub assign_active : ProfileStore → TransceiverProfile → Checked × ProfileStore
assign_active store profile =
    if ltb store.active_profile (length store.profiles)
    then (let store' = record store {
      profiles = set store.profiles store.active_profile profile;
    } in
        (validate store', store'))
    else (panic, store)

unfoldable pub replace_active : ProfileStore → TransceiverProfile → Checked × ProfileStore
unfolding assign_active
replace_active store profile = elim (validate_profile profile) [
  | ok _ ↦ assign_active store profile
  | err e ↦ (err e, store)
  | panic ↦ (panic, store)
]

unfoldable pub packet_is_audio : PacketType → Bool
packet_is_audio audio = true
packet_is_audio fec = true
packet_is_audio _ = false
