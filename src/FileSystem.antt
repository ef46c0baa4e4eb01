-- ===== src/FileSystem.antt =====
-- internal/storage/filesystem.go: the file system backend.
pub mod Tree
pub mod Paths
pub mod Disk
pub mod Objects
pub mod Listing
pub mod Uploads
pub mod Files
pub mod Reads
pub mod Examples
