-- ===== src/Desktop/Storage/Panics.antt =====
-- apps/desktop/src/profile_storage.rs: loading and saving give a result or an error.
use incom_udon_native_rust.Base.{
  Option, none, some, Outcome, ok, err, panic, map_err, bind-ne-panic, map_err-ne-panic, ◌≢◌, refl,
}
use incom_udon_native_rust.Base.Text.{Text}
use incom_udon_native_rust.Profiles.Store.{ProfileStore, Checked, validate}
use incom_udon_native_rust.Profiles.Steady.{validate-ne-panic}
use incom_udon_native_rust.Desktop.Storage.{
  Files, Returns, load_from_path, read, decode, invalid, ProfileStorageError,
  config_directory_unavailable, write, profile_file_name, default_profile_path, save_encoded,
  save_in, save_under, save_valid, save_to_path, save_at, save_profile_store,
}

module _ (files : Files) (faith : Returns files) where
  save_encoded-ne-panic :
      (fs : files.Fs) (path : files.FilePath) (o : Outcome Text Text)
      → o ≢ panic
      → (save_encoded files fs path o).0 ≢ panic
  unfolding save_encoded
  save_encoded-ne-panic fs path (ok text) h =
      map_err-ne-panic (write path) (files.write fs path text).0 (faith.write-ne-panic fs path text)
  save_encoded-ne-panic fs path (err e) h = λ x. cc
  save_encoded-ne-panic fs path panic h = λ x. h refl

  save_in-ne-panic :
      (parent path : files.FilePath) (store : ProfileStore) (o : Outcome Text (Unit {0}))
      (fs : files.Fs)
      → o ≢ panic
      → (save_in files parent path store (o, fs)).0 ≢ panic
  unfolding save_in
  save_in-ne-panic parent path store (ok made) fs h =
      save_encoded-ne-panic fs path (files.to_vec_pretty store) (faith.to_vec_pretty-ne-panic store)
  save_in-ne-panic parent path store (err e) fs h = λ x. cc
  save_in-ne-panic parent path store panic fs h = λ x. h refl

  save_under-ne-panic :
      (fs : files.Fs) (path : files.FilePath) (store : ProfileStore)
      (parent : Option files.FilePath)
      → (save_under files fs path store parent).0 ≢ panic
  unfolding save_under
  save_under-ne-panic fs path store none = λ x. cc
  save_under-ne-panic fs path store (some parent) =
      save_in-ne-panic parent path store (files.create_dir_all fs parent).0
        (files.create_dir_all fs parent).1 (faith.create_dir_all-ne-panic fs parent)

  save_valid-ne-panic :
      (fs : files.Fs) (path : files.FilePath) (store : ProfileStore) (o : Checked)
      → o ≢ panic
      → (save_valid files fs path store o).0 ≢ panic
  unfolding save_valid
  save_valid-ne-panic fs path store (ok valid) h =
      save_under-ne-panic fs path store (files.parent path)
  save_valid-ne-panic fs path store (err e) h = λ x. cc
  save_valid-ne-panic fs path store panic h = λ x. h refl

  save_at-ne-panic :
      (fs : files.Fs) (store : ProfileStore)
      (o : Outcome (ProfileStorageError files) files.FilePath)
      → o ≢ panic
      → (save_at files fs store o).0 ≢ panic
  unfolding save_at save_to_path
  save_at-ne-panic fs store (ok path) h =
      save_valid-ne-panic fs path store (validate store) (validate-ne-panic store)
  save_at-ne-panic fs store (err e) h = λ x. cc
  save_at-ne-panic fs store panic h = λ x. h refl

  pub default_profile_path-ne-panic : default_profile_path files ≢ panic
  unfolding default_profile_path
  default_profile_path-ne-panic = by_directory files.config_dir
    where
      by_directory :
          (d : Option files.FilePath)
          → elim d as (λ x. Outcome (ProfileStorageError files) files.FilePath) [
            | none ↦ err config_directory_unavailable
            | some directory ↦ ok (files.join directory profile_file_name)
          ]
            ≢ panic
      by_directory none = λ x. cc
      by_directory (some directory) = λ x. cc

  pub save_profile_store-ne-panic :
      (fs : files.Fs) (store : ProfileStore) → (save_profile_store files fs store).0 ≢ panic
  unfolding save_profile_store
  save_profile_store-ne-panic fs store =
      save_at-ne-panic fs store (default_profile_path files) default_profile_path-ne-panic

  pub load_from_path-ne-panic :
      (fs : files.Fs) (path : files.FilePath) → load_from_path files fs path ≢ panic
  unfolding load_from_path
  load_from_path-ne-panic fs path =
      bind-ne-panic (map_err (read path) (files.read_to_string fs path)) _
        (map_err-ne-panic (read path) (files.read_to_string fs path) (faith.read-ne-panic fs path))
        (λ contents.
          bind-ne-panic (map_err (decode path) (files.from_str contents)) _
            (map_err-ne-panic (decode path) (files.from_str contents)
              (faith.from_str-ne-panic contents))
            (λ store.
              bind-ne-panic (map_err (invalid path) (validate store)) _
                (map_err-ne-panic (invalid path) (validate store) (validate-ne-panic store))
                (λ valid x. cc)))
