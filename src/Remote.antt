-- ===== src/Remote.antt =====
-- internal/storage/s3.go: the backend that keeps its objects in S3.
pub mod Buckets
pub mod Clients
pub mod MetadataCache
pub mod Decoding
pub mod Sdk
pub mod State
pub mod Objects
pub mod Metadata
pub mod Parts
pub mod Listing
pub mod Backend
pub mod RoundTrip
pub mod Examples
