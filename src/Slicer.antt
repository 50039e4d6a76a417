-- ===== src/Slicer.antt =====
-- Issue slicing of extract/slice.go and extract/slice_facets.go: the walk over windows of creation
-- dates that fetches the issues of a project with more of them than the search returns.
mod Examples
pub mod Windows
pub mod State
pub mod Requests
pub mod Facets
pub mod Reconcile
pub mod Walk
pub mod Keeps
pub mod Books
pub mod Drift
pub mod Silent
pub mod Delivery
pub mod Partition
pub mod Counts
pub mod Plain
pub mod Errors
