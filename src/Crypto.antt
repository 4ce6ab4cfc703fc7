-- ===== src/Crypto.antt =====
-- crates/incomudon-crypto/src/lib.rs: passwords, keys and the packet cipher.
pub mod Primitives
pub mod Keys
pub mod HexText
pub mod Passwords
pub mod Samples
mod Tests
