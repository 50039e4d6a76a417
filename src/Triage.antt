-- ===== src/Triage.antt =====
-- go/internal/migrate/tasks_issuesync.go: what of a source issue is carried over, and how.
pub mod Defs
pub mod Transitions
pub mod Tags
pub mod Reasons
mod Examples
