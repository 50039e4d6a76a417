-- ===== src/Retry.antt =====
-- lib/sq-api-go/retry.go and ratelimit.go: the retrying transport of the API client.
pub mod Classify
pub mod Gate
pub mod Defs
pub mod Plan
pub mod Loop
mod Examples
