-- ===== src/Desktop/Tests.antt =====
-- apps/desktop/src: the profile file and the sound callbacks at concrete inputs.
use native.Mathlib.Decide.{ℕ_discrete}
use incom_udon_native_rust.Base.{
  ◌≡◌, ◌≢◌, refl, sym, ap, arith, [], ◌∷◌, ◌++◌, Option, some, none, Bool, true, false, Outcome, ok,
  err, panic, length, replicate, take, drop, ℕ, List,
}
use incom_udon_native_rust.Base.Text.{Text, codes}
use incom_udon_native_rust.Profiles.Store.{
  Codec, EncryptionMode, TransceiverProfile, RelayEndpoint, ProfileStore, default_store,
}
use incom_udon_native_rust.Profiles.Validity.{IsValid}
use incom_udon_native_rust.Audio.Playback.{PlaybackBuffer}
use incom_udon_native_rust.Audio.Samples.{ints}
use incom_udon_native_rust.Desktop.Storage.{
  Files, Returns, IsFaithful, ProfileStorageError, default_profile_path, save_encoded, save_in,
  save_under, save_valid, save_to_path, save_at, save_profile_store, load_profile_store,
}
use incom_udon_native_rust.Desktop.Storage.Laws.{
  default_store-validates, load-save, LoadsValid, load_profile_store-IsValid,
  save_profile_store-invalid,
}
use incom_udon_native_rust.Desktop.Audio.{OutputState, output_frames, send_frames}
use incom_udon_native_rust.Desktop.Audio.Output.{
  IsReady, Played, output_frames-Played, send_frames-take,
}

Codec-discrete : Discrete Codec
Codec-discrete = hlevel

EncryptionMode-discrete : Discrete EncryptionMode
EncryptionMode-discrete = hlevel

TransceiverProfile-discrete : Discrete TransceiverProfile
TransceiverProfile-discrete = hlevel (ℕ_discrete, Codec-discrete, EncryptionMode-discrete)

RelayEndpoint-discrete : Discrete RelayEndpoint
RelayEndpoint-discrete = hlevel (ℕ_discrete)

pub ProfileStore-discrete : Discrete ProfileStore
ProfileStore-discrete = hlevel (ℕ_discrete, TransceiverProfile-discrete, RelayEndpoint-discrete)

pub encode_store : {store : ProfileStore} → Dec (store ≡ default_store) → Outcome Text Text
encode_store (yes same) = ok (codes "{}")
encode_store (no other) = err (codes "not supported")

pub decode_store : Text → Outcome Text ProfileStore
decode_store text = ok default_store

-- One file, and a serialiser that knows only the default store.
abbrev pub one_file : Files
one_file = record {
  FilePath = Text;
  Fs = Option Text;
  parent = λ path. some [];
  join = λ directory name. directory ++ name;
  config_dir = some (codes "/c/");
  exists = λ fs path. exists fs;
  read_to_string = λ fs path. read fs;
  create_dir_all = λ fs path. (ok tt, fs);
  write = λ fs path text. (ok tt, some text);
  from_str = decode_store;
  to_vec_pretty = λ store. encode_store (ProfileStore-discrete store default_store);
}
  where
    exists : Option Text → Bool
    exists none = false
    exists (some text) = true

    read : Option Text → Outcome Text Text
    read none = err (codes "missing")
    read (some text) = ok text

decode-encode :
    {store : ProfileStore} (d : Dec (store ≡ default_store)) (text : Text)
    → encode_store d ≡ ok text
    → decode_store text ≡ ok store
unfolding encode_store decode_store
decode-encode (yes same) text e = ap ok (sym same)
decode-encode (no other) text e = cc

encode-ne-panic : {store : ProfileStore} (d : Dec (store ≡ default_store)) → encode_store d ≢ panic
unfolding encode_store
encode-ne-panic (yes same) e = cc
encode-ne-panic (no other) e = cc

pub one_file-Returns : Returns one_file
unfolding decode_store
one_file-Returns = record {
  read-ne-panic = λ fs path. read_ne fs;
  from_str-ne-panic = λ text e. cc;
  write-ne-panic = λ fs path text e. cc;
  to_vec_pretty-ne-panic = λ store. encode-ne-panic (ProfileStore-discrete store default_store);
  create_dir_all-ne-panic = λ fs path e. cc;
}
  where
    read_ne :
        (fs : Option Text)
        → elim fs as (λ x. Outcome Text Text) [ none ↦ err (codes "missing") | some text ↦ ok text ]
          ≢ panic
    read_ne none e = cc
    read_ne (some text) e = cc

pub one_file-IsFaithful : IsFaithful one_file
unfolding decode_store
one_file-IsFaithful = record {
  read-write = λ fs fs' path text e. cc;
  exists-write = λ fs fs' path text e. cc;
  from_str-to_vec_pretty =
      λ store text e. decode-encode (ProfileStore-discrete store default_store) text e;
  returns = one_file-Returns;
}

encode_default : (d : Dec (default_store ≡ default_store)) → encode_store d ≡ ok (codes "{}")
unfolding encode_store
encode_default (yes same) = refl
encode_default (no other) = absurd (other refl)

pub saves : save_profile_store one_file none default_store ≡ (ok tt, some (codes "{}"))
unfolding save_profile_store save_at save_to_path save_valid save_under save_in save_encoded
    default_profile_path
saves =
    rw (default_store-validates, encode_default (ProfileStore-discrete default_store default_store))

abbrev pub no_text : ProfileStorageError one_file → Text
no_text error = []

load-save_example :
    load_profile_store one_file no_text (some (codes "{}"))
    ≡ some (default_store, codes "Profile restored")
load-save_example =
    load-save one_file no_text one_file-IsFaithful none (some (codes "{}")) default_store saves

load_profile_store-IsValid_example :
    LoadsValid one_file no_text (load_profile_store one_file no_text none)
load_profile_store-IsValid_example =
    load_profile_store-IsValid one_file no_text one_file-Returns none

abbrev empty_store : ProfileStore
empty_store = record default_store { profiles = [] }

empty_store-invalid : ¬ (IsValid empty_store)
empty_store-invalid v = absurd (omega (arith, v.active_in))

save_profile_store-invalid_example :
    ((save_profile_store one_file none empty_store).0 ≢ ok tt)
    × ((save_profile_store one_file none empty_store).1 ≡ none)
save_profile_store-invalid_example =
    save_profile_store-invalid one_file none empty_store empty_store-invalid

-- Two samples for the speaker at 48 kHz.
abbrev two_samples : PlaybackBuffer
two_samples = record { samples = 1 ∷ 2 ∷ []; capacity_samples = 1_920; dropped_samples = 0 }

abbrev silent : OutputState ints
silent = record { phase = 0; current_sample = 0 }

silent-IsReady : IsReady ints (λ n. n) 48_000 silent
silent-IsReady = record {
  rate_enough = omega arith;
  rate_fits = omega arith;
  phase_in = omega arith;
}

-- A buffer for seven device frames of two channels, and a sample too many.
abbrev buffer : List ℕ
buffer = replicate 15 9

output_frames-Played_example :
    (popped : ℕ) × (written : List ℕ) × (s' : OutputState ints) × (b' : PlaybackBuffer)
    × (output_frames ints (λ n. n) 48_000 (λ x. x) 2 buffer silent two_samples
        ≡ some (written, s', b'))
    × Played ints (λ n. n) 48_000 7 popped silent two_samples s' b'
    × (length written ≡ 15)
    × (drop 14 written ≡ 9 ∷ [])
output_frames-Played_example =
    output_frames-Played ints (λ n. n) 48_000 (λ x. x) 2 buffer silent two_samples silent-IsReady
      (omega arith)

send_frames-take_example :
    send_frames (replicate 7 (1 ∷ [])) ((2 ∷ []) ∷ (3 ∷ []) ∷ [])
    ≡ take 8 (replicate 7 (1 ∷ []) ++ (2 ∷ []) ∷ (3 ∷ []) ∷ [])
send_frames-take_example =
    send_frames-take (replicate 7 (1 ∷ [])) ((2 ∷ []) ∷ (3 ∷ []) ∷ []) (omega arith)
