-- ===== src/Net.antt =====
-- wfldb-net: frames, their limits, and what is signed.
pub mod Frame
pub mod Codec
pub mod Limits
pub mod Canonical
pub mod Json
pub mod Message
pub mod Client
pub mod Metrics
