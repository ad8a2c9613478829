-- ===== src/Memory.antt =====
-- library/src/memory.
pub mod AddressRecord
pub mod Bin
pub mod Binner
pub mod Pow2Bins
mod Tests
