-- ===== src/Fallback/Examples.antt =====
-- A fetch whose second page fails slowly at 500 and goes on at 200, and the theorems there.
use sonar_migration_tool.Common.{
  ℕ, zero, suc, ◌+◌, ◌-◌, ◌*◌, ◌≡◌, refl, inl, inr, true, false, Option, none, some, List, [], ◌∷◌,
  arith, length, take, drop, ◌==◌, if◌then◌else◌, Bool-cases,
}
use sonar_migration_tool.Fallback.Sizes.{
  next_smaller_in, next_smaller_page_size, is_page_size_fallback_status, total_pages, page_limit_at,
}
use sonar_migration_tool.Fallback.Table.{
  PageSizeTable, new_page_size_table, size_for, remember, remember_fallback,
}
use sonar_migration_tool.Fallback.Defs.{
  http_error, Answer, refused, answered, Env, apply_defaults, PageResult, Fetched, ok, failed,
  get_paginated_result, attempts, walk_pages, start_walk, read_on, read_pages, read_pages_loop,
  bounds, result, finish_paginated, add_page, resize, fallback_next, complete,
}
use sonar_migration_tool.Fallback.Ends.{get_paginated_result-Ends}
use sonar_migration_tool.Fallback.Limits.{KeepsCeiling, page_limit_at_bounds}
use sonar_migration_tool.Fallback.Keeps.{Serves}
use sonar_migration_tool.Fallback.Whole.{Honest, get_paginated_result-Honest}

abbrev count_from : ℕ → ℕ → List ℕ
count_from zero i = []
count_from (suc n) i = i ∷ count_from n (i + 1)

-- The list that the server pages.
abbrev issues : List ℕ
issues = count_from 250 1

abbrev serve : ℕ → ℕ → ℕ → Answer ℕ
serve request page size =
    if request == 1
    then refused (http_error 504 60_000_000_000)
    else answered (some (length issues)) (take size (drop ((page - 1) * size) issues))

abbrev env : Env ℕ
env = record {
  answer = serve;
  cancelled = λ request. false;
  path = "api/issues/search";
  max_page_size = 200;
  page_limit = 0;
  stop_on_truncation = false;
  suppress_record = false;
  started_at = 1;
  ended_at = 90_000_000_000;
}

abbrev Outcome : ℕ × ℕ × ℕ × List ℕ → Option (Fetched ℕ) → Type 0
Outcome (requests, size, sticky, items) none = ⊥
Outcome (requests, size, sticky, items) (some (failed n s l e)) = ⊥
Outcome (requests, size, sticky, items) (some (ok res t)) =
    (res.requests ≡ requests)
    × (res.page_size ≡ size)
    × ((t "api/issues/search").sticky ≡ sticky)
    × (res.items ≡ items)

fallback_run : Outcome (3, 100, 100, issues) (get_paginated_result env new_page_size_table)
unfolding get_paginated_result attempts walk_pages start_walk read_on read_pages read_pages_loop
    bounds result finish_paginated add_page resize fallback_next apply_defaults size_for
    remember_fallback remember next_smaller_page_size next_smaller_in is_page_size_fallback_status
    total_pages page_limit_at
fallback_run = (refl, refl, refl, refl)

serve-Serves : Serves issues env
serve-Serves request i size = elim (Bool-cases (request == 1)) [
  | inl now ↦ rw now (inl (_, refl))
  | inr later ↦ rw later (let same : suc i - 1 ≡ i = omega arith in rw same (inr refl))
]

get_paginated_result-Ends_example :
    (f : Fetched ℕ) × (get_paginated_result env new_page_size_table ≡ some f)
get_paginated_result-Ends_example = get_paginated_result-Ends env new_page_size_table

page_limit_at_bounds_example : KeepsCeiling 3 500 200 (page_limit_at 3 500 200)
page_limit_at_bounds_example = page_limit_at_bounds 3 500 200 (omega arith)

abbrev learned_table : PageSizeTable
learned_table path = record { sticky = 200; fast = 0; fast_expires = 0 }

abbrev got : PageResult ℕ
got = record {
  items = issues;
  total = 250;
  total_known = true;
  pages_read = 2;
  requests = 3;
  page_size = 100;
  page_limit = 0;
  truncated = false;
  reason = complete;
  lost = none;
}

got_run :
    get_paginated_result env new_page_size_table
    ≡ some
        (ok got (remember_fallback new_page_size_table "api/issues/search" 100 200 90_000_000_000))
unfolding get_paginated_result attempts walk_pages start_walk read_on read_pages read_pages_loop
    bounds result finish_paginated add_page resize fallback_next apply_defaults size_for
    next_smaller_page_size next_smaller_in is_page_size_fallback_status total_pages page_limit_at
got_run = refl

get_paginated_result-Honest_example : Honest issues env got
get_paginated_result-Honest_example =
    get_paginated_result-Honest issues env new_page_size_table got
      (remember_fallback new_page_size_table "api/issues/search" 100 200 90_000_000_000)
      serve-Serves got_run
