-- ===== src/Matching.antt =====
-- go/internal/migrate/matchscore.go: finding the cloud issue that a source issue became.
pub mod Defs
pub mod Align
pub mod Distance
pub mod Strip
pub mod Score
mod Examples
