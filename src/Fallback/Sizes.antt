-- ===== src/Fallback/Sizes.antt =====
-- Page sizes in rawclient.go: the sequence that a fallback steps through, the number of pages that a
-- total needs, and the page cap at a smaller size. Page sizes and totals are natural numbers: the
-- helpers here treat a negative one as 0 is, and a server that reports a negative total, which makes
-- startWalk panic, is left out.
use sonar_migration_tool.Common.{
  ℕ, ◌+◌, ◌-◌, ◌*◌, ◌/◌, Bool, Option, none, some, List, [], ◌∷◌, ltb, leb, ◌==◌, if◌then◌else◌,
  ◌||◌, ◌&&◌,
}

abbrev pub fallback_page_sizes : List ℕ
fallback_page_sizes = 500 ∷ 200 ∷ 100 ∷ 50 ∷ []

abbrev pub result_window_limit : ℕ
result_window_limit = 10_000

unfoldable pub next_smaller_in : List ℕ → ℕ → Option ℕ
next_smaller_in [] current = none
next_smaller_in (size ∷ sizes) current =
    let rest = next_smaller_in sizes current in if ltb size current then some size else rest

-- nextSmallerPageSize
unfoldable pub next_smaller_page_size : ℕ → Option ℕ
unfolding next_smaller_in
next_smaller_page_size current = next_smaller_in fallback_page_sizes current

-- isPageSizeFallbackStatus
unfoldable pub is_page_size_fallback_status : ℕ → Bool
is_page_size_fallback_status code = code == 500 || (code == 502 || (code == 503 || code == 504))

-- TotalPages: the quotient rounded up, which is what the float64 division and math.Ceil give for
-- totals below 2 ^ 53.
unfoldable pub total_pages : ℕ → ℕ → ℕ
total_pages total page_size =
    if total == 0 || page_size == 0 then 0 else (total + page_size - 1) / page_size

-- pageLimitAt
unfoldable pub page_limit_at : ℕ → ℕ → ℕ → ℕ
page_limit_at limit requested_size page_size =
    if limit == 0 || leb requested_size page_size
    then limit
    else let ceiling = limit * requested_size in
      let pages = (ceiling + page_size - 1) / page_size in
      if leb ceiling result_window_limit && ltb result_window_limit (pages * page_size)
      then result_window_limit / page_size
      else pages
