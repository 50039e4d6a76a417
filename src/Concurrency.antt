-- ===== src/Concurrency.antt =====
-- go/internal/migrate/concurrency.go: the limit on concurrent calls, and the gate that keeps to it.
pub mod Defs
pub mod Gate
pub mod Growth
mod Examples
