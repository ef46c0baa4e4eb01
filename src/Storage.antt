-- ===== src/Storage.antt =====
-- internal/storage: the interface of the storage backends.
pub mod Backend
pub mod Reads
pub mod Isolation
pub mod Memory
pub mod Storing
pub mod Steps
