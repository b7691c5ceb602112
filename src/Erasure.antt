-- ===== src/Erasure.antt =====
-- internal/erasure: the overwrite engine.
pub mod Stream
pub mod Device
pub mod Samples
pub mod Engine
pub mod Verify
pub mod Image
pub mod Wipe
pub mod Sound
pub mod Kept
pub mod Clean
pub mod Resume
pub mod Walk
pub mod Cut
pub mod Attempts
pub mod Checked
pub mod Verifying
pub mod Runs
pub mod Fuel
pub mod Chunking
