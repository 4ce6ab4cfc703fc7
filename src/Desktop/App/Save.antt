-- ===== src/Desktop/App/Save.antt =====
-- apps/desktop/src/main.rs: the handlers that save the profile and the relay.
pub mod Durable
use incom_udon_native_rust.Base.{◌++◌, Option, none, some, Outcome, ok, err, panic}
use incom_udon_native_rust.Base.Text.{Text, codes}
use incom_udon_native_rust.Profiles.Store.{
  TransceiverProfile, RelayEndpoint, ProfileStore, Checked, replace_active, replace_relay,
}
use incom_udon_native_rust.Desktop.Storage.{ProfileStorageError, save_profile_store}
use incom_udon_native_rust.Desktop.Window.{profile_from_window, relay_from_window}
use incom_udon_native_rust.Desktop.App.{Host, App, show_save}

module _ (host : Host) where
  abbrev pub Saved : Type 0
  Saved = Outcome (ProfileStorageError host.files) (Unit {0}) × host.files.Fs

  -- behind `save_profile_store`
  unfoldable pub after_save : App host → Text → Saved → Option (App host)
  after_save a done (ok written, fs) = some (show_save host (record a { fs = fs }) done)
  after_save a done (err error, fs) =
      some (show_save host (record a { fs = fs }) (codes "Not saved: " ++ host.storage_text error))
  after_save a done (panic, fs) = none

  -- behind the update of the store
  unfoldable pub after_update : App host → Text → Checked × ProfileStore → Option (App host)
  unfolding after_save
  after_update a done (ok updated, store) =
      after_save (record a { store = store }) done (save_profile_store host.files a.fs store)
  after_update a done (err error, store) = some (
      show_save host (record a { store = store })
        (codes "Not saved: " ++ host.texts.profile_error error))
  after_update a done (panic, store) = none

  unfoldable pub save_entered_profile :
      App host → Outcome Text TransceiverProfile → Option (App host)
  unfolding after_update
  save_entered_profile a (ok profile) =
      after_update a (codes "Profile saved") (replace_active a.store profile)
  save_entered_profile a (err error) = some (show_save host a (codes "Not saved: " ++ error))
  save_entered_profile a panic = none

  unfoldable pub save_profile : App host → Option (App host)
  unfolding save_entered_profile
  save_profile a = save_entered_profile a (profile_from_window host.texts a.window)

  unfoldable pub save_entered_relay : App host → Outcome Text RelayEndpoint → Option (App host)
  unfolding after_update
  save_entered_relay a (ok relay) =
      after_update a (codes "Relay settings saved") (replace_relay a.store relay)
  save_entered_relay a (err error) = some (show_save host a (codes "Not saved: " ++ error))
  save_entered_relay a panic = none

  unfoldable pub save_relay_settings : App host → Option (App host)
  unfolding save_entered_relay
  save_relay_settings a = save_entered_relay a (relay_from_window host.texts a.window)
