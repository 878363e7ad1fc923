-- ===== src/Server.antt =====
-- wfldb-server: object paths and request handlers.
pub mod ObjectPath
pub mod Http
pub mod JsonText
pub mod Body
pub mod Headers
pub mod Simple
pub mod Handlers
pub mod Service
pub mod Session
