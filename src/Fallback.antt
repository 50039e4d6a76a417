-- ===== src/Fallback.antt =====
-- go/internal/common/rawclient.go: the paginated fetch that falls back to smaller pages.
pub mod Sizes
pub mod Table
pub mod Defs
pub mod Ends
pub mod Limits
pub mod Keeps
pub mod Whole
mod Examples
