-- ===== src/Tests.antt =====
-- Concrete inputs: a keyspace in memory, and the theorems applied to it.
mod Ordered
mod Memory
mod Codec
mod Storage
mod Bucket
mod History
mod Interleaving
mod Body
mod Overflow
mod Server
mod Session
mod Json
mod Net
mod Messages
mod Canonical
mod Flaky
mod Failing
mod Multipart
