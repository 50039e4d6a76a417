-- ===== src/Fallback/Defs.antt =====
-- The paginated fetch of rawclient.go. What the server answers is a function of how many requests the
-- fetch has made before, the page and the page size; an answer is what ExtractTotalOK and
-- ExtractArray read in the body, an HTTP error with how long it took, or any other error.
use sonar_migration_tool.Common.{
  ℕ, zero, suc, ◌+◌, ◌-◌, ◌*◌, ◌/◌, Bool, true, false, not, Option, none, some, String, List, [],
  ◌++◌, length, take, ltb, leb, ◌==◌, if◌then◌else◌, ◌||◌, ◌&&◌,
}
use sonar_migration_tool.Fallback.Sizes.{
  next_smaller_page_size, is_page_size_fallback_status, total_pages, page_limit_at,
}
use sonar_migration_tool.Fallback.Table.{PageSizeTable, size_for, remember_fallback}

abbrev pub slow_gateway_timeout : ℕ
slow_gateway_timeout = 5_000_000_000

abbrev pub min_page_size_slow_retries : ℕ
min_page_size_slow_retries = 2

-- An error of a request: an HTTPError with its status and Elapsed, or another one.
pub data FetchError : Type 0 where
  http_error : ℕ → ℕ → FetchError
  other_error : FetchError

pub data Answer {ℓ} (A : Type ℓ) : Type ℓ where
  refused : FetchError → Answer A
  answered : Option ℕ → List A → Answer A

-- PaginatedOpts, where the fetch depends on it, after applyDefaults, with the state of ctx.
pub record Env {ℓ} (A : Type ℓ) : Type ℓ where
  pub answer : ℕ → ℕ → ℕ → Answer A
  pub cancelled : ℕ → Bool
  pub path : String
  pub max_page_size : ℕ
  pub page_limit : ℕ
  pub stop_on_truncation : Bool
  pub suppress_record : Bool
  pub started_at : ℕ
  pub ended_at : ℕ

-- The defaults of applyDefaults for the page size.
unfoldable pub apply_defaults : ℕ → ℕ
apply_defaults max_page_size = if max_page_size == 0 then 500 else max_page_size

-- TruncationReason, as far as the fetch assigns it.
pub data TruncationReason : Type 0 where
  complete unknown_total page_limit_clamp : TruncationReason

-- PageResult; `lost` is what the truncation record says, if one is made.
pub record PageResult {ℓ} (A : Type ℓ) : Type ℓ where
  pub items : List A
  pub total : ℕ
  pub total_known : Bool
  pub pages_read : ℕ
  pub requests : ℕ
  pub page_size : ℕ
  pub page_limit : ℕ
  pub truncated : Bool
  pub reason : TruncationReason
  pub lost : Option ℕ

-- paginationWalk
pub record PaginationWalk {ℓ} (A : Type ℓ) : Type ℓ where
  pub items : List A
  pub total : ℕ
  pub total_known : Bool
  pub started : Bool
  pub next_page : ℕ
  pub aligned : Bool
  pub last_full : Bool
  pub pages_read : ℕ
  pub requests : ℕ

-- What one attempt comes to: an error with the walk as it is then, or a result.
pub data Attempt {ℓ} (A : Type ℓ) : Type ℓ where
  attempt_failed : FetchError → PaginationWalk A → Attempt A
  attempt_done : PageResult A → Attempt A

-- fallbackState
pub record FallbackState : Type 0 where
  pub slow_failed_at : ℕ
  pub min_size_retries : ℕ

-- How the fetch ends.
pub data Fetched {ℓ} (A : Type ℓ) : Type ℓ where
  ok : PageResult A → PageSizeTable → Fetched A
  failed : (requests page_size page_limit : ℕ) → FetchError → Fetched A

module _ {ℓ} {A : Type ℓ} where
  -- restart
  abbrev pub restart : PaginationWalk A → PaginationWalk A
  restart w = record w {
    items = [];
    total = 0;
    total_known = false;
    started = false;
    next_page = 1;
    aligned = true;
    last_full = false;
  }

  -- newPaginationWalk
  abbrev pub new_pagination_walk : PaginationWalk A
  new_pagination_walk = record {
    items = [];
    total = 0;
    total_known = false;
    started = false;
    next_page = 1;
    aligned = true;
    last_full = false;
    pages_read = 0;
    requests = 0;
  }

  -- resize
  unfoldable pub resize : PaginationWalk A → ℕ → PaginationWalk A
  resize w new_size =
      let keep = length w.items / new_size * new_size in
      if not w.started || (not w.aligned || keep == 0)
      then restart w
      else record w { items = take keep w.items; next_page = keep / new_size + 1 }

  -- add
  unfoldable pub add_page : PaginationWalk A → List A → ℕ → PaginationWalk A
  add_page w items page_size = record w {
    items = w.items ++ items;
    pages_read = w.pages_read + 1;
    next_page = w.next_page + 1;
    last_full = length items == page_size;
    aligned = w.aligned && (length items == page_size);
  }

  -- bounds: the pages to read, the page cap, and whether the cap cuts the walk short.
  unfoldable pub bounds : PaginationWalk A → ℕ → ℕ → ℕ → ℕ × ℕ × Bool
  bounds w limit requested_size page_size =
      let cap = page_limit_at limit requested_size page_size in
      let pages =
        if w.total_known
        then total_pages w.total page_size
        else (requested_size + page_size - 1) / page_size in
      if ltb 0 cap && ltb cap pages then (cap, cap, w.total_known) else (pages, cap, false)

  -- result
  unfoldable pub result : PaginationWalk A → ℕ → ℕ → Bool → PageResult A
  result w page_size page_limit clamped = record {
    items = w.items;
    total = w.total;
    total_known = w.total_known;
    pages_read = w.pages_read;
    requests = w.requests;
    page_size = page_size;
    page_limit = page_limit;
    truncated = false;
    reason =
        if not w.total_known && w.last_full
        then unknown_total
        else if clamped
        then page_limit_clamp
        else complete;
    lost = none;
  }

  abbrev pub stamp : TruncationReason → PageResult A → Bool → PageResult A
  stamp complete res suppress = res
  stamp unknown_total res suppress = record res {
    truncated = true;
    lost = if suppress then none else some 0;
  }
  stamp page_limit_clamp res suppress = record res {
    truncated = true;
    lost =
        if suppress
        then none
        else some (
            if res.total_known && ltb (length res.items) res.total
            then res.total - length res.items
            else 0);
  }

  -- finishPaginated; its two suppression flags are one here. The total is not known where the reason
  -- is unknown_total.
  unfoldable pub finish_paginated : PageResult A → Bool → PageResult A
  finish_paginated res suppress = stamp res.reason res suppress

  -- Every request is counted, also a failed one.
  abbrev pub count_request : PaginationWalk A → PaginationWalk A
  count_request w = record w { requests = w.requests + 1 }

  -- startWalk: page 1, which carries the total.
  unfoldable pub start_walk : Env A → ℕ → PaginationWalk A → Option FetchError × PaginationWalk A
  unfolding add_page
  start_walk env page_size w = elim (env.answer w.requests 1 page_size) [
    | refused e ↦ (some e, count_request w)
    | answered total items ↦ (
      none,
      add_page
          (record (count_request w) {
            items = [];
            total = elim total [ none ↦ 0 | some n ↦ n ];
            total_known = elim total [ none ↦ false | some n ↦ true ];
            started = true;
          })
          items page_size,
    )
  ]

  -- readPages, with at most `left` pages to go, which is the number of iterations that the loop has:
  -- each one moves to the next page.
  unfoldable pub read_pages_loop :
      ℕ → Env A → ℕ → ℕ → PaginationWalk A → Option FetchError × PaginationWalk A
  read_pages_loop zero env page_size pages w = (none, w)
  read_pages_loop (suc left) env page_size pages w =
      elim (leb w.next_page pages && (w.total_known || w.last_full)) [
        | false ↦ (none, w)
        | true ↦ elim (env.cancelled w.requests) [
          | true ↦ (some other_error, w)
          | false ↦ elim (env.answer w.requests w.next_page page_size) [
            | refused e ↦ (some e, count_request w)
            | answered total items ↦
                read_pages_loop left env page_size pages
                  (add_page (count_request w) items page_size)
          ]
        ]
      ]

  unfoldable pub read_pages :
      Env A → ℕ → ℕ → PaginationWalk A → Option FetchError × PaginationWalk A
  unfolding read_pages_loop
  read_pages env page_size pages w = read_pages_loop (pages + 1 - w.next_page) env page_size pages w

  abbrev pub read_within :
      Env A
      → ℕ
      → PaginationWalk A
      → ℕ × ℕ × Bool
      → (Option FetchError × PaginationWalk A) × (ℕ × Bool)
  read_within env page_size w (pages, cap, clamped) = (
    (if clamped && env.stop_on_truncation then (none, w) else read_pages env page_size pages w),
    (cap, clamped),
  )

  -- The rest of walkPages, once page 1 has been read.
  unfoldable pub read_on :
      Env A → ℕ → ℕ → PaginationWalk A → (Option FetchError × PaginationWalk A) × (ℕ × Bool)
  unfolding bounds read_pages
  read_on env requested_size page_size w =
      read_within env page_size w (bounds w env.page_limit requested_size page_size)

  abbrev pub after_read :
      Env A → ℕ → (Option FetchError × PaginationWalk A) × (ℕ × Bool) → Attempt A
  after_read env page_size ((some e, w), (cap, clamped)) = attempt_failed e w
  after_read env page_size ((none, w), (cap, clamped)) =
      attempt_done (finish_paginated (result w page_size cap clamped) env.suppress_record)

  abbrev pub after_start : Env A → ℕ → ℕ → Option FetchError × PaginationWalk A → Attempt A
  after_start env requested_size page_size (some e, w) = attempt_failed e w
  after_start env requested_size page_size (none, w) =
      after_read env page_size (read_on env requested_size page_size w)

  -- walkPages
  unfoldable pub walk_pages : Env A → ℕ → ℕ → PaginationWalk A → Attempt A
  unfolding start_walk read_on
  walk_pages env requested_size page_size w =
      after_start env requested_size page_size
        (if w.started then (none, w) else start_walk env page_size w)

-- `next` of fallbackState: the page size of the next attempt, or none where the error is returned.
unfoldable pub fallback_next : FallbackState → ℕ → FetchError → Option ℕ × FallbackState
fallback_next st page_size other_error = (none, st)
fallback_next st page_size (http_error status elapsed) =
    if not (is_page_size_fallback_status status)
    then (none, st)
    else let slow = leb slow_gateway_timeout elapsed in
      let st' = if slow then record st { slow_failed_at = page_size } else st in
      elim (next_smaller_page_size page_size) [
        | some next_size ↦ (some next_size, st')
        | none ↦
            if slow && ltb st'.min_size_retries min_page_size_slow_retries
            then (some page_size, record st' { min_size_retries = st'.min_size_retries + 1 })
            else (none, st')
      ]

module _ {ℓ} {A : Type ℓ} (env : Env A) (table : PageSizeTable)
    (requested_size start_size : ℕ) where
  -- What a finished fetch leaves in the table.
  abbrev pub learned : ℕ → FallbackState → PageSizeTable
  learned page_size st =
      if ltb page_size start_size
      then remember_fallback table env.path page_size st.slow_failed_at env.ended_at
      else table

  -- The loop of GetPaginatedResult; the fuel bounds the attempts and `none` means that it ran out.
  unfoldable pub attempts : ℕ → ℕ → PaginationWalk A → FallbackState → Option (Fetched A)
  unfolding walk_pages fallback_next resize
  attempts zero page_size w st = none
  attempts (suc fuel) page_size w st = elim (walk_pages env requested_size page_size w) [
    | attempt_done res ↦ some (ok res (learned page_size st))
    | attempt_failed e w' ↦ elim (fallback_next st page_size e).0 [
      | none ↦
          some
            (failed w'.requests page_size (page_limit_at env.page_limit requested_size page_size) e)
      | some next ↦
          attempts fuel next (if ltb next page_size then resize w' next else w')
            (fallback_next st page_size e).1
    ]
  ]

-- At most four smaller sizes and two more tries at the smallest follow the first attempt.
abbrev pub max_attempts : ℕ
max_attempts = 7

-- GetPaginatedResult
unfoldable pub get_paginated_result {ℓ} : {A : Type ℓ} → Env A → PageSizeTable → Option (Fetched A)
unfolding attempts apply_defaults
get_paginated_result env table =
    let requested_size = apply_defaults env.max_page_size in
    let start_size = size_for table env.path requested_size env.started_at in
    attempts env table requested_size start_size max_attempts start_size new_pagination_walk
      (record { slow_failed_at = 0; min_size_retries = 0 })
