-- ===== src/Fallback/Ends.antt =====
-- How long the loop of GetPaginatedResult in rawclient.go goes on.
use sonar_migration_tool.Common.{
  some-inj, ℕ, zero, suc, ◌+◌, ◌-◌, ◌≤◌, ◌<◌, ◌≡◌, refl, sym, ap, ◌∙◌, ◌⊎◌, inl, inr, true, some,
  ltb, ltb→lt, leb, if◌then◌else◌, arith, Bool-cases, Option-cases,
}
use sonar_migration_tool.Fallback.Sizes.{
  next_smaller_in, next_smaller_page_size, is_page_size_fallback_status,
}
use sonar_migration_tool.Fallback.Table.{PageSizeTable, size_for}
use sonar_migration_tool.Fallback.Defs.{
  FetchError, http_error, other_error, FallbackState, fallback_next, min_page_size_slow_retries,
  slow_gateway_timeout, Env, PaginationWalk, attempt_done, attempt_failed, walk_pages, resize,
  attempts, Fetched, get_paginated_result, apply_defaults, new_pagination_walk, max_attempts,
  Attempt,
}

-- How many of the fallback sizes are below a size.
abbrev pub sizes_below : ℕ → ℕ
sizes_below size =
    (if ltb 500 size then 1 else 0)
    + (if ltb 200 size then 1 else 0)
    + (if ltb 100 size then 1 else 0)
    + (if ltb 50 size then 1 else 0)

-- The attempts that may follow one.
abbrev pub attempts_left : ℕ → FallbackState → ℕ
attempts_left page_size st =
    sizes_below page_size + (min_page_size_slow_retries - st.min_size_retries)

pub next_smaller_page_size-less :
    (size next : ℕ)
    → next_smaller_page_size size ≡ some next
    → (next < size) × (sizes_below next < sizes_below size) × (0 < next)
unfolding next_smaller_page_size next_smaller_in
next_smaller_page_size-less size next e = (ground (arith, e), ground (arith, e), ground (arith, e))

retries_less :
    (size retries : ℕ)
    → ltb retries 2 ≡ true
    → sizes_below size + (2 - (retries + 1)) < sizes_below size + (2 - retries)
retries_less size retries again = omega (arith, ltb→lt retries 2 again)

-- The next attempt is at a smaller size, or it is one more try at the smallest.
pub fallback_next-less :
    (st : FallbackState) (page_size : ℕ) (e : FetchError) (next : ℕ)
    → (fallback_next st page_size e).0 ≡ some next
    → (attempts_left next (fallback_next st page_size e).1 < attempts_left page_size st)
      × (next ≤ page_size)
      × ((next ≡ page_size) ⊎ (0 < next))
unfolding fallback_next
fallback_next-less st page_size other_error next k = absurd (cc)
fallback_next-less st page_size (http_error status elapsed) next k =
    elim (Bool-cases (is_page_size_fallback_status status)) [
      | inr light ↦ absurd (let k' = rw light at k in cc)
      | inl heavy ↦
          let k' = rw heavy at k in
          elim (Option-cases (next_smaller_page_size page_size)) [
            | inr (smaller, found) ↦
                let same : smaller ≡ next = some-inj (rw found at k') in
                let (less, fewer, positive) =
                  next_smaller_page_size-less page_size next (found ∙ ap some same) in
                (rw (heavy, found) (ground (arith, fewer)), omega arith, inr positive)
            | inl smallest ↦
                let k'' = rw smallest at k' in
                elim (Bool-cases (leb slow_gateway_timeout elapsed)) [
                  | inr fast ↦ absurd (let n = rw fast at k'' in cc)
                  | inl slow ↦
                      let n = rw slow at k'' in
                      elim (Bool-cases (ltb st.min_size_retries min_page_size_slow_retries)) [
                        | inr over ↦ absurd (let n' = rw over at n in cc)
                        | inl again ↦
                            let same : page_size ≡ next = some-inj (rw again at n) in
                            (
                              rw (heavy, smallest, slow, again)
                                  (rw (sym same)
                                    (retries_less page_size st.min_size_retries again)),
                              omega arith,
                              inl (sym same),
                            )
                      ]
                ]
          ]
    ]

most : (size : ℕ) → sizes_below size + 2 < 7
most size = ground arith

pub Attempt-cases {ℓ} :
    {A : Type ℓ} (a : Attempt A)
    → ((res : _) × (a ≡ attempt_done res))
      ⊎ ((e : FetchError) × (w : PaginationWalk A) × (a ≡ attempt_failed e w))
Attempt-cases (attempt_done res) = inl (res, refl)
Attempt-cases (attempt_failed e w) = inr (e, w, refl)

module _ {ℓ} {A : Type ℓ} (env : Env A) (table : PageSizeTable)
    (requested_size start_size : ℕ) where
  attempts-Ends :
      (fuel page_size : ℕ) (w : PaginationWalk A) (st : FallbackState)
      → attempts_left page_size st < fuel
      → (f : Fetched A) × (attempts env table requested_size start_size fuel page_size w st
          ≡ some f)
  unfolding attempts
  attempts-Ends zero page_size w st h = absurd (omega arith)
  attempts-Ends (suc fuel) page_size w st h =
      elim (Attempt-cases (walk_pages env requested_size page_size w)) [
        | inl (res, done) ↦ rw (done, attempts) (_, refl)
        | inr (e, w', err) ↦ elim (Option-cases (fallback_next st page_size e).0) [
          | inl none_left ↦ rw (err, attempts) (rw none_left (_, refl))
          | inr (next, more) ↦
              rw (err, attempts)
                (rw more (
                  attempts-Ends fuel next (if ltb next page_size then resize w' next else w')
                    (fallback_next st page_size e).1
                    (omega (arith, (fallback_next-less st page_size e next more).0))))
        ]
      ]

-- The fetch always ends, with a result or an error, within seven attempts: at most five page sizes
-- and two more tries at the smallest.
pub get_paginated_result-Ends {ℓ} :
    {A : Type ℓ} (env : Env A) (table : PageSizeTable)
    → (f : Fetched A) × (get_paginated_result env table ≡ some f)
unfolding get_paginated_result
get_paginated_result-Ends env table =
    let requested_size = apply_defaults env.max_page_size in
    let start_size = size_for table env.path requested_size env.started_at in
    attempts-Ends env table requested_size start_size max_attempts start_size new_pagination_walk
      (record { slow_failed_at = 0; min_size_retries = 0 }) (most start_size)
