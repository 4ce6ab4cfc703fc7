-- ===== src/Protocol.antt =====
-- crates/incomudon-protocol/src/lib.rs: the wire format. `Types` has the packets, `Header` the
-- fixed header's codec, `Packets` the codec of whole packets; `Tests` evaluates, the others prove.
pub mod Types
pub mod Header
pub mod Packets
pub mod RoundTrip
pub mod Views
pub mod Frames
pub mod Sound
pub mod SoundPackets
pub mod Complete
pub mod Errors
pub mod Encode
mod Tests
