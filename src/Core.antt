-- ===== src/Core.antt =====
-- wfldb-core: data types and errors.
pub mod Outcome
pub mod Utf8
pub mod Decimal
pub mod LittleEndian
pub mod BucketId
pub mod Key
pub mod Types
pub mod Version
pub mod Multipart
