-- ===== src/Truncation.antt =====
-- go/internal/common/truncation.go: the merge of truncation states.
pub mod Defs
pub mod Merge
pub mod Again
mod Examples
