-- ===== src/Hotspots.antt =====
-- go/internal/migrate/tasks_hotspotsync.go: which hotspots are synced, and the duplicates of branches.
pub mod Defs
pub mod Groups
pub mod Put
pub mod Dedupe
mod Examples
