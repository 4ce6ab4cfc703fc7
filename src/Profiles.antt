-- ===== src/Profiles.antt =====
-- crates/incomudon-core/src/lib.rs: profiles and the profile store. `Store` has the data and the
-- operations; `Tests` evaluates, the others prove.
pub mod Store
pub mod Validity
pub mod Updates
pub mod Steady
mod Tests
