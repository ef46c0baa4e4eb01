-- ===== src/Kms.antt =====
-- internal/kms: the cache of data keys and the manager that fills it.
pub mod DataKeyCache
pub mod Manager
pub mod Envelope
pub mod Stream
mod Examples
