-- ===== src/Limiter.antt =====
-- lib/sq-api-go/ratelimiter.go: the sliding-window rate limiter of the API client.
pub mod Defs
pub mod Bound
pub mod Rate
pub mod Fair
pub mod Wake
mod Examples
