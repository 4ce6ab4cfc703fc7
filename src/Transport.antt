-- ===== src/Transport.antt =====
-- crates/incomudon-transport/src/lib.rs: the relay session. `State` has the data, `Send` and `Receive`
-- the handlers, `Worker` the loop, `Session` the owner's side and the thread in steps; `Tests`,
-- `RunTests` and `SessionTests` evaluate, the others prove.
pub mod State
pub mod Send
pub mod Receive
pub mod Worker
pub mod Wire
pub mod Control
pub mod Media
pub mod Stream
pub mod Runs
pub mod Stable
pub mod Sequences
pub mod Delivery
pub mod Counters
pub mod Nonces
pub mod Session
mod Tests
mod RunTests
mod SessionTests
