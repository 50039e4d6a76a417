-- ===== src/History.antt =====
-- go/internal/migrate/history.go: the synthetic data of a historical point.
pub mod Defs
pub mod Measures
pub mod Coverage
pub mod Duplication
mod Examples
