-- ===== src/Engine.antt =====
-- wfldb-engine: the storage engine over fjall.
pub mod Platform
pub mod Effect
pub mod Limits
pub mod Bucket
pub mod Objects
pub mod Invariant
pub mod Storage
pub mod Refinement
pub mod History
pub mod Faults
pub mod Interleaving
