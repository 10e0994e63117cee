-- ===== src/Tests.antt =====
-- The theorems at concrete inputs, on parameters that can be run.
pub mod Fixtures
pub mod Values
pub mod Stores
pub mod Accesses
mod Caches
mod Flushes
mod Plans
mod Merkle
mod Cuckoo
