-- ===== src/S3.antt =====
-- pkg/s3: the HTTP handler.
pub mod Http
pub mod Range
pub mod Objects
pub mod Uploads
pub mod Route
pub mod KmsRoute
pub mod WithKms
mod Examples
