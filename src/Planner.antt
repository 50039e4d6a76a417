-- ===== src/Planner.antt =====
-- go/internal/common/planner.go: the planner that both the extract and the migrate command use.
-- A Go map is an association list with distinct keys, iterated in the list's order; a set is a list
-- of names. Recursion and the scheduling loop take fuel, which Planner/Closure and Planner/Phases
-- show to be enough.
pub mod Defs
pub mod Unseen
pub mod Reach
pub mod Walk
pub mod Closure
pub mod Ready
pub mod Phases
pub mod Schedule
pub mod Excluded
pub mod Targets
pub mod Selection
pub mod Editions
mod Examples
