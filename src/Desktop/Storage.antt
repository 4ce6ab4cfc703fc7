-- ===== src/Desktop/Storage.antt =====
-- apps/desktop/src/profile_storage.rs, and `load_profile_store` and `save_profile_store` of
-- apps/desktop/src/main.rs. The file system, the platform's directories and serde_json are
-- parameters; a file system call gives its result and the file system behind it.
pub mod Laws
pub mod Panics
use incom_udon_native_rust.Base.{
  ℕ, List, Option, none, some, Bool, true, false, if◌then◌else◌, Outcome, ok, err, panic, ◌>>=◌,
  ◌>>◌, map_err, [], ◌++◌, ◌≡◌, ◌≢◌,
}
use incom_udon_native_rust.Base.Text.{Text, codes}
use incom_udon_native_rust.Profiles.Store.{
  ProfileStore, ProfileError, Checked, default_store, validate,
}

abbrev pub profile_file_name : Text
profile_file_name = codes "profiles.json"

-- `FilePath` stands for paths, `Fs` for a state of the file system, and errors of it, and of
-- serde_json, are their text.
pub record Files : Type 1 where
  pub FilePath : Type 0
  pub Fs : Type 0
  pub parent : FilePath → Option FilePath
  pub join : FilePath → Text → FilePath
  -- `ProjectDirs::from(…)` and `config_dir`
  pub config_dir : Option FilePath
  pub exists : Fs → FilePath → Bool
  pub read_to_string : Fs → FilePath → Outcome Text Text
  pub create_dir_all : Fs → FilePath → Outcome Text (Unit {0}) × Fs
  pub write : Fs → FilePath → Text → Outcome Text (Unit {0}) × Fs
  -- `serde_json::from_str` and `to_vec_pretty`
  pub from_str : Text → Outcome Text ProfileStore
  pub to_vec_pretty : ProfileStore → Outcome Text Text

-- No call of the file system or of serde_json panics.
pub record Returns (files : Files) : Type 0 where
  pub read-ne-panic : (fs : files.Fs) (path : files.FilePath) → files.read_to_string fs path ≢ panic
  pub from_str-ne-panic : (text : Text) → files.from_str text ≢ panic
  pub write-ne-panic :
      (fs : files.Fs) (path : files.FilePath) (text : Text) → (files.write fs path text).0 ≢ panic
  pub to_vec_pretty-ne-panic : (store : ProfileStore) → files.to_vec_pretty store ≢ panic
  pub create_dir_all-ne-panic :
      (fs : files.Fs) (path : files.FilePath) → (files.create_dir_all fs path).0 ≢ panic

-- What the documentation of the file system and of serde_json promises of calls that succeed.
pub record IsFaithful (files : Files) : Type 0 where
  pub read-write :
      (fs fs' : files.Fs) (path : files.FilePath) (text : Text)
      → files.write fs path text ≡ (ok tt, fs')
      → files.read_to_string fs' path ≡ ok text
  pub exists-write :
      (fs fs' : files.Fs) (path : files.FilePath) (text : Text)
      → files.write fs path text ≡ (ok tt, fs')
      → files.exists fs' path ≡ true
  pub from_str-to_vec_pretty :
      (store : ProfileStore) (text : Text)
      → files.to_vec_pretty store ≡ ok text
      → files.from_str text ≡ ok store
  pub returns : Returns files

module _ (files : Files) where
  open files use {FilePath, Fs}

  pub data ProfileStorageError : Type 0 where
    config_directory_unavailable : ProfileStorageError
    read decode create_directory write : FilePath → Text → ProfileStorageError
    invalid : FilePath → ProfileError → ProfileStorageError
    encode : Text → ProfileStorageError

  unfoldable pub default_profile_path : Outcome ProfileStorageError FilePath
  default_profile_path = elim files.config_dir [
    | none ↦ err config_directory_unavailable
    | some directory ↦ ok (files.join directory profile_file_name)
  ]

  unfoldable pub load_from_path : Fs → FilePath → Outcome ProfileStorageError ProfileStore
  load_from_path fs path = do
    contents ← map_err (read path) (files.read_to_string fs path)
    store ← map_err (decode path) (files.from_str contents)
    map_err (invalid path) (validate store)
    ok store

  abbrev pub Saved : Type 0
  Saved = Outcome ProfileStorageError (Unit {0}) × Fs

  -- `fs::write` and its error
  unfoldable pub save_encoded : Fs → FilePath → Outcome Text Text → Saved
  save_encoded fs path (ok encoded) =
      let (written, fs') = files.write fs path encoded in (map_err (write path) written, fs')
  save_encoded fs path (err error) = (err (encode error), fs)
  save_encoded fs path panic = (panic, fs)

  -- behind `create_dir_all`
  unfoldable pub save_in : FilePath → FilePath → ProfileStore → Outcome Text (Unit {0}) × Fs → Saved
  save_in parent path store (ok created, fs) = save_encoded fs path (files.to_vec_pretty store)
  save_in parent path store (err error, fs) = (err (create_directory parent error), fs)
  save_in parent path store (panic, fs) = (panic, fs)

  -- behind `validate`
  unfoldable pub save_under : Fs → FilePath → ProfileStore → Option FilePath → Saved
  save_under fs path store none = (err config_directory_unavailable, fs)
  save_under fs path store (some parent) =
      save_in parent path store (files.create_dir_all fs parent)

  unfoldable pub save_valid : Fs → FilePath → ProfileStore → Checked → Saved
  save_valid fs path store (ok valid) = save_under fs path store (files.parent path)
  save_valid fs path store (err error) = (err (invalid path error), fs)
  save_valid fs path store panic = (panic, fs)

  unfoldable pub save_to_path : Fs → FilePath → ProfileStore → Saved
  save_to_path fs path store = save_valid fs path store (validate store)

  -- `to_string` of an error is a parameter; `none` is a panic.
  module _ (error_text : ProfileStorageError → Text) where
    abbrev pub or_defaults : Outcome ProfileStorageError ProfileStore → Option (ProfileStore × Text)
    or_defaults (ok store) = some (store, codes "Profile restored")
    or_defaults (err error) = some (default_store, codes "Using defaults: " ++ error_text error)
    or_defaults panic = none

    unfoldable pub load_at :
        Fs → Outcome ProfileStorageError FilePath → Option (ProfileStore × Text)
    load_at fs (ok path) =
        if files.exists fs path
        then or_defaults (load_from_path fs path)
        else some (default_store, codes "Unsaved default profile")
    load_at fs (err error) = some (default_store, codes "Using defaults: " ++ error_text error)
    load_at fs panic = none

    unfoldable pub load_profile_store : Fs → Option (ProfileStore × Text)
    unfolding load_at
    load_profile_store fs = load_at fs default_profile_path

  unfoldable pub save_at : Fs → ProfileStore → Outcome ProfileStorageError FilePath → Saved
  save_at fs store (ok path) = save_to_path fs path store
  save_at fs store (err error) = (err error, fs)
  save_at fs store panic = (panic, fs)

  unfoldable pub save_profile_store : Fs → ProfileStore → Saved
  unfolding save_at
  save_profile_store fs store = save_at fs store default_profile_path
