-- ===== src/Paginator/Count.antt =====
-- totalPages of pagination.go.

use native.Mathlib.Nat.{lt-div-mul-add, div-lt_iff_lt-mul}
use sonar_migration_tool.Common.{ℕ, ◌+◌, ◌-◌, ◌*◌, ◌/◌, ◌≤◌, ◌<◌, ◌≡◌, ◌⊎◌, inl, inr, arith}
use sonar_migration_tool.Paginator.Defs.{total_pages}

zero_or : (n : ℕ) → (n ≡ 0) ⊎ (0 < n)
zero_or n = grind arith

pub total_pages_some :
    (total page_size : ℕ)
    → 0 < total
    → 0 < page_size
    → total_pages total page_size ≡ (total + page_size - 1) / page_size
unfolding total_pages
total_pages_some total page_size some_left h = ground arith

rounded :
    (total page_size k : ℕ)
    → 0 < page_size
    → total ≤ k * page_size
    → (total + page_size - 1) / page_size ≤ k
rounded total page_size k h le =
    let below : total + page_size - 1 < (k + 1) * page_size = omega arith in
    let q = (div-lt_iff_lt-mul {k = page_size} {x = total + page_size - 1} {y = k + 1} h).1 below in
    omega arith

-- The pages hold all items, and one page fewer would not.
pub total_pages_enough :
    (total page_size : ℕ)
    → 0 < page_size
    → (total ≤ total_pages total page_size * page_size)
      × ((k : ℕ) → total ≤ k * page_size → total_pages total page_size ≤ k)
unfolding total_pages
total_pages_enough total page_size h = elim (zero_or total) [
  | inl none_left ↦ rw none_left (omega arith, λ k _. omega arith)
  | inr some_left ↦
      let q = (total + page_size - 1) / page_size in
      let written : total_pages total page_size ≡ q =
        total_pages_some total page_size some_left h in
      (
        rw written (omega (arith, lt-div-mul-add {a = total + page_size - 1} h)),
        λ k le. rw written (rounded total page_size k h le),
      )
]
