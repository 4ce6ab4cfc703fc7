-- ===== src/Desktop/App/Save/Durable.antt =====
-- apps/desktop/src/main.rs: what the window says about a save, and what the next start finds.
use incom_udon_native_rust.Base.{
  ℕ, [], ◌∷◌, ◌++◌, some, Outcome, ok, err, panic, ◌≡◌, ◌≢◌, refl, sym, ap, subst, arith,
}
use incom_udon_native_rust.Base.Text.{Text, codes}
use incom_udon_native_rust.Profiles.Store.{
  TransceiverProfile, ProfileStore, Checked, replace_active,
}
use incom_udon_native_rust.Desktop.Storage.{IsFaithful, save_profile_store, load_profile_store}
use incom_udon_native_rust.Desktop.Storage.Laws.{load-save}
use incom_udon_native_rust.Desktop.Window.{profile_from_window, set_save_status}
use incom_udon_native_rust.Desktop.App.{Host, App, show_save}
use incom_udon_native_rust.Desktop.App.Save.{
  Saved, after_save, after_update, save_entered_profile, save_profile,
}

abbrev saved_text : Text
saved_text = codes "Profile saved"

abbrev initial : Text → ℕ
initial [] = 0
initial (c ∷ cs) = c

module _ (host : Host) where
  -- The next start of the application finds the store.
  abbrev pub IsDurable : App host → Type 0
  IsDurable a =
      load_profile_store host.files host.storage_text a.fs
      ≡ some (a.store, codes "Profile restored")

  -- The window says that the profile was saved.
  abbrev pub SaysSaved : App host → Type 0
  SaysSaved a = a.window.profile_save_status ≡ saved_text

  not_saved : (error : Text) → codes "Not saved: " ++ error ≢ saved_text
  not_saved error e = absurd (omega (arith, ap initial e))

  after_save-IsDurable :
      (a a' : App host) (r : Saved host)
      → IsFaithful host.files
      → save_profile_store host.files a.fs a.store ≡ r
      → after_save host a saved_text r ≡ some a'
      → SaysSaved a'
      → IsDurable a'
  unfolding after_save set_save_status
  after_save-IsDurable a a' (ok done, fs) faith e made s =
      let same : show_save host (record a { fs = fs }) saved_text ≡ a' = cc in
      subst IsDurable same (load-save host.files host.storage_text faith a.fs fs a.store e)
  after_save-IsDurable a a' (err error, fs) faith e made s =
      let same : show_save host (record a { fs = fs })
            (codes "Not saved: " ++ host.storage_text error)
          ≡ a' =
        cc in
      absurd (not_saved (host.storage_text error) (subst SaysSaved (sym same) s))
  after_save-IsDurable a a' (panic, fs) faith e made s = cc

  after_update-IsDurable :
      (a a' : App host) (r : Checked × ProfileStore)
      → IsFaithful host.files
      → after_update host a saved_text r ≡ some a'
      → SaysSaved a'
      → IsDurable a'
  unfolding after_update set_save_status
  after_update-IsDurable a a' (ok done, store) faith e s =
      after_save-IsDurable (record a { store = store }) a'
        (save_profile_store host.files a.fs store) faith refl e s
  after_update-IsDurable a a' (err error, store) faith e s =
      let same : show_save host (record a { store = store })
            (codes "Not saved: " ++ host.texts.profile_error error)
          ≡ a' =
        cc in
      absurd (not_saved (host.texts.profile_error error) (subst SaysSaved (sym same) s))
  after_update-IsDurable a a' (panic, store) faith e s = cc

  save_entered_profile-IsDurable :
      (a a' : App host) (o : Outcome Text TransceiverProfile)
      → IsFaithful host.files
      → save_entered_profile host a o ≡ some a'
      → SaysSaved a'
      → IsDurable a'
  unfolding save_entered_profile set_save_status
  save_entered_profile-IsDurable a a' (ok profile) faith e s =
      after_update-IsDurable a a' (replace_active a.store profile) faith e s
  save_entered_profile-IsDurable a a' (err error) faith e s =
      let same : show_save host a (codes "Not saved: " ++ error) ≡ a' = cc in
      absurd (not_saved error (subst SaysSaved (sym same) s))
  save_entered_profile-IsDurable a a' panic faith e s = cc

  -- With a file system and a serialiser that keep what they were given: if the window says "Profile
  -- saved" after the save button, then the next start of the application loads the store that is in
  -- use now.
  pub save_profile-IsDurable :
      IsFaithful host.files
      → (a a' : App host) → save_profile host a ≡ some a'
      → SaysSaved a'
      → IsDurable a'
  unfolding save_profile
  save_profile-IsDurable faith a a' e s =
      save_entered_profile-IsDurable a a' (profile_from_window host.texts a.window) faith e s
