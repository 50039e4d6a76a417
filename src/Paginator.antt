-- ===== src/Paginator.antt =====
-- lib/sq-api-go/pagination.go: fetching all pages of a listing.
pub mod Defs
pub mod Count
pub mod All
pub mod Whole
mod Examples
