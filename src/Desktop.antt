-- ===== src/Desktop.antt =====
-- apps/desktop/src: the desktop application. `Storage` is the file of profiles, `Audio` the sound
-- devices, `Window` the window's fields, `Resolve` the relay's address, `App` the shared state and its
-- handlers; `Tests`, `WindowTests` and `AppTests` evaluate.
pub mod Storage
pub mod Audio
pub mod Resolve
pub mod App
pub mod Window
mod Tests
mod WindowTests
mod AppTests
