-- ===== src/Limits.antt =====
-- internal/proxy/ratelimit.go: the limits on the rate and the number of requests.
pub mod Address
pub mod Rate
pub mod Concurrency
pub mod Examples
