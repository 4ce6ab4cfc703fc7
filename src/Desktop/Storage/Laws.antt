-- ===== src/Desktop/Storage/Laws.antt =====
-- apps/desktop/src/profile_storage.rs: what was saved is loaded, and what is invalid is neither.
use incom_udon_native_rust.Base.{
  Option, none, some, true, Outcome, ok, err, panic, ◌>>◌, map_err, map_err-eq-ok, ◌≡◌, ◌≢◌, refl,
  ap, ap₂, ◌∙◌, inl, inr, Bool-cases, >>=-eq-ok,
}
use incom_udon_native_rust.Base.Text.{Text, codes, trim, is_whitespace, eq_ignore_ascii_case}
use incom_udon_native_rust.Profiles.Store.{
  ProfileStore, ProfileError, Checked, default_store, validate, validate_profiles, validate_profile,
  validate_bitrate, validate_relay_endpoint, any_named,
}
use incom_udon_native_rust.Profiles.Validity.{IsValid, validate_iff}
use incom_udon_native_rust.Desktop.Storage.Panics.{
  load_from_path-ne-panic, default_profile_path-ne-panic,
}
use incom_udon_native_rust.Desktop.Storage.{
  Returns, Files, IsFaithful, ProfileStorageError, read, decode, invalid, default_profile_path,
  load_from_path, Saved, save_encoded, save_in, save_under, save_valid, save_to_path, or_defaults,
  load_at, load_profile_store, save_at, save_profile_store,
}

pub default_store-validates : validate default_store ≡ ok tt
unfolding validate validate_profiles validate_profile validate_bitrate validate_relay_endpoint
    any_named trim is_whitespace eq_ignore_ascii_case
default_store-validates = refl

pub default_store-IsValid : IsValid default_store
default_store-IsValid = (validate_iff default_store).0 default_store-validates

module _ (files : Files) where
  load_from_path-IsValid :
      (fs : files.Fs) (path : files.FilePath) {store : ProfileStore}
      → load_from_path files fs path ≡ ok store
      → IsValid store
  unfolding load_from_path
  load_from_path-IsValid fs path {store} e =
      let (contents, e1, rest1) =
        >>=-eq-ok (map_err (read path) (files.read_to_string fs path)) _ e in
      let (found, e2, rest2) =
        >>=-eq-ok (map_err (decode path) (files.from_str contents)) _ rest1 in
      checked (invalid path) found (validate found) refl rest2
    where
      checked :
          (wrap : ProfileError → ProfileStorageError files) (found : ProfileStore)
          (outcome : Checked)
          → validate found ≡ outcome
          → (map_err wrap outcome >> ok found) ≡ ok store
          → IsValid store
      checked wrap found (ok valid) v same = (validate_iff store).0 (cc)
      checked wrap found (err error) v same = cc
      checked wrap found panic v same = cc

  -- Writing behind a successful call.
  record Writes (fs' : files.Fs) (path : files.FilePath) (store : ProfileStore) : Type 0 where
    before : files.Fs
    encoded : Text
    encodes : files.to_vec_pretty store ≡ ok encoded
    writes : files.write before path encoded ≡ (ok tt, fs')

  save_encoded-ok :
      (fs fs' : files.Fs) (path : files.FilePath) (store : ProfileStore) (o : Outcome Text Text)
      → files.to_vec_pretty store ≡ o
      → save_encoded files fs path o ≡ (ok tt, fs')
      → Writes fs' path store
  unfolding save_encoded
  save_encoded-ok fs fs' path store (ok encoded) o e = record {
    before = fs;
    encoded = encoded;
    encodes = o;
    writes =
        ap₂ (λ a b. (a, b))
          (map_err-eq-ok _ (files.write fs path encoded).0 (ap (λ (r : Saved files). r.0) e))
          (ap (λ (r : Saved files). r.1) e);
  }
  save_encoded-ok fs fs' path store (err error) o e = cc
  save_encoded-ok fs fs' path store panic o e = cc

  save_in-ok :
      (fs' : files.Fs) (parent path : files.FilePath) (store : ProfileStore)
      (o : Outcome Text (Unit {0})) (fs : files.Fs)
      → save_in files parent path store (o, fs) ≡ (ok tt, fs')
      → Writes fs' path store
  unfolding save_in
  save_in-ok fs' parent path store (ok created) fs e =
      save_encoded-ok fs fs' path store (files.to_vec_pretty store) refl e
  save_in-ok fs' parent path store (err error) fs e = cc
  save_in-ok fs' parent path store panic fs e = cc

  save_under-ok :
      (fs fs' : files.Fs) (path : files.FilePath) (store : ProfileStore)
      (parent : Option files.FilePath)
      → save_under files fs path store parent ≡ (ok tt, fs')
      → Writes fs' path store
  unfolding save_under
  save_under-ok fs fs' path store none e = cc
  save_under-ok fs fs' path store (some parent) e =
      let made = files.create_dir_all fs parent in save_in-ok fs' parent path store made.0 made.1 e

  save_valid-ok :
      (fs fs' : files.Fs) (path : files.FilePath) (store : ProfileStore) (o : Checked)
      → save_valid files fs path store o ≡ (ok tt, fs')
      → (o ≡ ok tt) × Writes fs' path store
  unfolding save_valid
  save_valid-ok fs fs' path store (ok valid) e =
      (refl, save_under-ok fs fs' path store (files.parent path) e)
  save_valid-ok fs fs' path store (err error) e = cc
  save_valid-ok fs fs' path store panic e = cc

  Writes-load :
      IsFaithful files
      → (fs' : files.Fs) (path : files.FilePath) (store : ProfileStore) → validate store ≡ ok tt
      → Writes fs' path store
      → (files.exists fs' path ≡ true) × (load_from_path files fs' path ≡ ok store)
  unfolding load_from_path
  Writes-load faith fs' path store v w = (
    faith.exists-write w.before fs' path w.encoded w.writes,
    rw (
      faith.read-write w.before fs' path w.encoded w.writes,
      faith.from_str-to_vec_pretty store w.encoded w.encodes,
      v,
    ),
  )

  save_at-ok :
      (fs fs' : files.Fs) (store : ProfileStore)
      (p : Outcome (ProfileStorageError files) files.FilePath)
      → save_at files fs store p ≡ (ok tt, fs')
      → (path : files.FilePath) × (p ≡ ok path) × (validate store ≡ ok tt) × Writes fs' path store
  unfolding save_at save_to_path
  save_at-ok fs fs' store (ok path) e =
      let (v, w) = save_valid-ok fs fs' path store (validate store) e in (path, refl, v, w)
  save_at-ok fs fs' store (err error) e = cc
  save_at-ok fs fs' store panic e = cc

  module _ (error_text : ProfileStorageError files → Text) where
    -- With a file system and a serialiser that keep what they were given: a store that was saved
    -- with success is what the next start of the application loads, and it says so.
    pub load-save :
        IsFaithful files
        → (fs fs' : files.Fs) (store : ProfileStore)
        → save_profile_store files fs store ≡ (ok tt, fs')
        → load_profile_store files error_text fs' ≡ some (store, codes "Profile restored")
    unfolding save_profile_store load_profile_store
    load-save faith fs fs' store e =
        let (path, at, v, w) = save_at-ok fs fs' store (default_profile_path files) e in
        let (exists, loaded) = Writes-load faith fs' path store v w in
        ap (load_at files error_text fs') at ∙ rw (exists, loaded)

    -- What is loaded is there, and is valid.
    abbrev pub LoadsValid : Option (ProfileStore × Text) → Type 0
    LoadsValid loaded =
        (store : ProfileStore) × (status : Text) × (loaded ≡ some (store, status)) × IsValid store

    or_defaults-LoadsValid :
        (fs : files.Fs) (path : files.FilePath)
        (o : Outcome (ProfileStorageError files) ProfileStore)
        → load_from_path files fs path ≡ o
        → o ≢ panic
        → LoadsValid (or_defaults files error_text o)
    or_defaults-LoadsValid fs path (ok store) e n =
        (store, _, refl, load_from_path-IsValid fs path e)
    or_defaults-LoadsValid fs path (err error) e n = (default_store, _, refl, default_store-IsValid)
    or_defaults-LoadsValid fs path panic e n = absurd (n refl)

    load_at-LoadsValid :
        Returns files
        → (fs : files.Fs) (p : Outcome (ProfileStorageError files) files.FilePath) → p ≢ panic
        → LoadsValid (load_at files error_text fs p)
    unfolding load_at
    load_at-LoadsValid returns fs (ok path) n = elim (Bool-cases (files.exists fs path)) [
      | inl there ↦ rw there (
          or_defaults-LoadsValid fs path (load_from_path files fs path) refl
            (load_from_path-ne-panic files returns fs path))
      | inr missing ↦ rw missing (default_store, _, refl, default_store-IsValid)
    ]
    load_at-LoadsValid returns fs (err error) n = (default_store, _, refl, default_store-IsValid)
    load_at-LoadsValid returns fs panic n = absurd (n refl)

    -- Where no call of the file system or of the serialiser panics: whatever is in the file system,
    -- and whichever call fails, loading does not panic, and the application starts with a valid
    -- store.
    pub load_profile_store-IsValid :
        Returns files → (fs : files.Fs) → LoadsValid (load_profile_store files error_text fs)
    unfolding load_profile_store
    load_profile_store-IsValid returns fs =
        load_at-LoadsValid returns fs (default_profile_path files)
          (default_profile_path-ne-panic files returns)

  validate-ne-ok :
      (fs : files.Fs) (path : files.FilePath) (store : ProfileStore) (o : Checked)
      → o ≢ ok tt
      → (save_valid files fs path store o).1 ≡ fs
  unfolding save_valid
  validate-ne-ok fs path store (ok valid) h = absurd (h refl)
  validate-ne-ok fs path store (err error) h = refl
  validate-ne-ok fs path store panic h = refl

  save_at-invalid :
      (fs : files.Fs) (store : ProfileStore)
      (p : Outcome (ProfileStorageError files) files.FilePath)
      → ¬ (IsValid store)
      → (save_at files fs store p).1 ≡ fs
  unfolding save_at save_to_path
  save_at-invalid fs store (ok path) h =
      validate-ne-ok fs path store (validate store) (λ e. h ((validate_iff store).0 e))
  save_at-invalid fs store (err error) h = refl
  save_at-invalid fs store panic h = refl

  -- A store that is not valid is never written: the call does not succeed, and the file system is
  -- as it was.
  pub save_profile_store-invalid :
      (fs : files.Fs) (store : ProfileStore)
      → ¬ (IsValid store)
      → ((save_profile_store files fs store).0 ≢ ok tt)
        × ((save_profile_store files fs store).1 ≡ fs)
  unfolding save_profile_store
  save_profile_store-invalid fs store h = (
    λ e. h (
        (validate_iff store).0
          (save_at-ok fs (save_at files fs store (default_profile_path files)).1 store
            (default_profile_path files)
            (ap (λ o. (o, (save_at files fs store (default_profile_path files)).1)) e)).2),
    save_at-invalid fs store (default_profile_path files) h,
  )
