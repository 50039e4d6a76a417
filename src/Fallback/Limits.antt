-- ===== src/Fallback/Limits.antt =====
-- The page cap at a smaller size, and what a fallback leaves in the table of page sizes.
use native.Mathlib.Nat.{lt-div-mul-add, div-mul-le_self}
use sonar_migration_tool.Common.{
  ℕ, ◌+◌, ◌-◌, ◌*◌, ◌/◌, ◌≤◌, ◌<◌, ◌≡◌, refl, ◌⊎◌, inl, inr, Bool, true, false, ltb, leb, ◌==◌,
  ==_iff, leb→le, arith, ◌&&◌, ◌||◌, some, Bool-cases,
}
use sonar_migration_tool.Fallback.Sizes.{page_limit_at, result_window_limit, next_smaller_page_size}
use sonar_migration_tool.Fallback.Table.{LearnedPageSize, size_for_learned}

rounded_up : (ceiling size : ℕ) → 0 < size → ceiling ≤ (ceiling + size - 1) / size * size
rounded_up ceiling size pos = omega (arith, lt-div-mul-add {a = ceiling + size - 1} pos)

within :
    (ceiling reached : ℕ)
    → ceiling ≤ result_window_limit
    → (leb ceiling result_window_limit && ltb result_window_limit reached) ≡ false
    → reached ≤ result_window_limit
within ceiling reached h e = ground (arith, h, e)

past_window :
    (ceiling reached : ℕ)
    → (leb ceiling result_window_limit && ltb result_window_limit reached) ≡ true
    → (ceiling ≤ result_window_limit) × (result_window_limit < reached)
past_window ceiling reached e = (ground (arith, e), ground (arith, e))

or_true : (a : Bool) → (a || true) ≡ true
or_true true = refl
or_true false = refl

rounded_below : (ceiling size : ℕ) → 0 < size → (ceiling + size - 1) / size * size < ceiling + size
rounded_below ceiling size pos = omega (arith, div-mul-le_self (ceiling + size - 1) size)

-- What a page cap at another page size reaches of the items that the caller's cap reaches.
abbrev pub KeepsCeiling : ℕ → ℕ → ℕ → ℕ → Type 0
KeepsCeiling limit requested size cap =
    ((requested ≤ size) × (cap ≡ limit))
    ⊎ ((size < requested)
        × (cap * size < limit * requested + size)
        × (limit * requested ≤ 10_000 → cap * size ≤ 10_000)
        × ((limit * requested ≤ cap * size)
            ⊎ ((cap ≡ 10_000 / size)
                × (limit * requested ≤ 10_000)
                × (10_000 < limit * requested + size))))

-- At the requested page size or a larger one the cap is the caller's. At a smaller one it reaches at
-- least the items that the caller's cap reaches, and less than a page more; only where a page more
-- would pass the result window of 10000, which the caller's cap does not, it is the number of whole
-- pages in the window. It never passes the window where the caller's cap does not.
pub page_limit_at_bounds :
    (limit requested size : ℕ)
    → 0 < size
    → KeepsCeiling limit requested size (page_limit_at limit requested size)
unfolding page_limit_at
page_limit_at_bounds limit requested size pos =
    let ceiling = limit * requested in
    let pages = (ceiling + size - 1) / size in
    let few = rounded_below ceiling size pos in
    let window = div-mul-le_self result_window_limit size in
    elim (Bool-cases (leb requested size)) [
      | inl as_large ↦
          rw (as_large, or_true (limit == 0)) (inl (leb→le requested size as_large, refl))
      | inr smaller ↦
          let less : size < requested = ground (arith, smaller) in
          elim (Bool-cases (limit == 0)) [
            | inl none_set ↦
                let zero_limit = (==_iff limit 0).0 none_set in
                rw none_set
                  (rw zero_limit (inr (less, omega arith, λ _. omega arith, inl (omega arith))))
            | inr set ↦
                rw (set, smaller)
                  (elim (Bool-cases
                    (leb ceiling result_window_limit && ltb result_window_limit (pages * size))) [
                      | inl past ↦
                          let both = past_window ceiling (pages * size) past in
                          rw past (
                            inr (
                              less,
                              omega (arith, both.1, few, window),
                              λ _. window,
                              inr (refl, both.0, omega (arith, both.1, few)),
                            ))
                      | inr fits ↦ rw fits (
                          inr (
                            less,
                            few,
                            λ h. within ceiling (pages * size) h fits,
                            inl (rounded_up ceiling size pos),
                          ))
                    ])
          ]
    ]

-- Where no smaller size that was learned before expires between two times.
abbrev pub Outlives : LearnedPageSize → ℕ → ℕ → ℕ → Type 0
Outlives l size now later =
    0 < l.fast → l.fast < size → now < l.fast_expires → later < l.fast_expires

-- A size at which a request was slow to fail is never forgotten.
Remembers : LearnedPageSize → ℕ → Type 0
Remembers l sticky = (0 < l.sticky) × (l.sticky ≤ sticky)

-- The largest size that a fetch may start at once a size failed slowly.
abbrev pub BelowSlow : ℕ → ℕ → Type 0
BelowSlow slow_failed_at start =
    ((below : ℕ) → next_smaller_page_size slow_failed_at ≡ some below → start ≤ below)
    × (start ≤ slow_failed_at)

-- The path's fetches after one that fell back at `now`: what an entry of the table holds for them, at
-- a time `later` within the memory of fast failures and at any time `eventually`.
abbrev Starts : ℕ → ℕ → ℕ → ℕ → ℕ → LearnedPageSize → Type 0
Starts size slow_failed_at requested later eventually l =
    (size_for_learned l requested later ≤ size)
    × (0 < slow_failed_at → BelowSlow slow_failed_at (size_for_learned l requested eventually))
    × (size_for_learned l requested eventually ≤ requested)
