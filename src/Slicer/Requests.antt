-- ===== src/Slicer/Requests.antt =====
-- The requests of a walk in extract/slice.go, and what it keeps of their answers.
use sonar_migration_tool.Common.{
  ℕ, ◌+◌, ◌-◌, ◌*◌, Bool, true, false, not, Option, none, some, List, [], ◌∷◌, ◌++◌, length, ltb,
  leb, ◌==◌, if◌then◌else◌, ◌||◌, ◌&&◌, str_eq, has,
}
use sonar_migration_tool.Fallback.Sizes.{result_window_limit}
use sonar_migration_tool.Fallback.Defs.{
  FetchError, http_error, other_error, Env, complete, PageResult, Fetched, get_paginated_result,
}
use sonar_migration_tool.Slicer.Windows.{
  IssueWindow, root_issue_window, dated, safe_to_request, Query, window_params, truncate,
}
use sonar_migration_tool.Slicer.State.{
  SliceReason, of_fetch, incomplete_slice, TruncationRecord, WalkError, request_failed,
  date_bound_rejected, unparseable_total, zero_width_window, sink_failed, Response, request_error,
  no_answer, answer_of, World, Slicer, Outcome, success, failure, Step, step, Action, raise, modify,
  ◌>>=◌, ◌>>◌,
}

abbrev pub issue_page_limit : ℕ
issue_page_limit = 20

abbrev pub issue_page_size : ℕ
issue_page_size = 500

abbrev pub max_slice_depth : ℕ
max_slice_depth = 48

-- windowCeiling
unfoldable pub window_ceiling : ℕ → ℕ → ℕ
window_ceiling page_limit page_size =
    if (page_limit == 0) || (page_size == 0)
    then result_window_limit
    else if ltb (page_limit * page_size) result_window_limit
    then page_limit * page_size
    else result_window_limit

-- isNonFatalHTTPErr
unfoldable pub is_non_fatal_http_status : ℕ → Bool
is_non_fatal_http_status status = (status == 403) || (status == 404)

-- The statuses that asDateBoundRejection passes on.
unfoldable pub is_no_date_verdict : ℕ → Bool
is_no_date_verdict status =
    (ltb status 400 || leb 500 status) || ((status == 408) || ((status == 425) || (status == 429)))

-- asDateBoundRejection
unfoldable pub as_date_bound_rejection : IssueWindow → FetchError → WalkError
unfolding dated is_non_fatal_http_status is_no_date_verdict
as_date_bound_rejection w other_error = request_failed other_error
as_date_bound_rejection w (http_error status elapsed) =
    if (not (dated w) || is_non_fatal_http_status status) || is_no_date_verdict status
    then request_failed (http_error status elapsed)
    else date_bound_rejected w (http_error status elapsed)

-- Without a latched reason a record has the empty one, which is `complete`.
abbrev pub latched_reason : Option SliceReason → SliceReason
latched_reason none = of_fetch complete
latched_reason (some reason) = reason

module _ {ℓ} {A : Type ℓ} where
  -- adopt
  unfoldable pub adopt : ℕ → ℕ → ℕ → Slicer A → Slicer A
  unfolding window_ceiling
  adopt requests page_size page_limit s =
      let s' = record s { requests = s.requests + (if requests == 0 then 1 else requests) } in
      if page_size == 0 then s' else record s' {
        page_size = page_size;
        page_limit = page_limit;
        ceiling = window_ceiling page_limit page_size;
      }

  -- record
  unfoldable pub record_truncation : TruncationRecord → Slicer A → Slicer A
  record_truncation rec s = record s {
    expected_loss = s.expected_loss + rec.lost;
    records = rec ∷ s.records;
  }

  -- unaccounted
  unfoldable pub unaccounted : Slicer A → ℕ
  unaccounted s = if s.total_known then s.initial_total - s.unique - s.expected_loss else 0

  -- fullyBooked
  unfoldable pub fully_booked : Slicer A → Bool
  unfolding unaccounted
  fully_booked s = s.total_known && (ltb 0 s.expected_loss && (unaccounted s == 0))

  -- The record that recordDegradation and recordIncompleteSlice write, unless all is booked.
  unfoldable pub record_shortfall : SliceReason → Slicer A → Slicer A
  unfolding fully_booked unaccounted record_truncation
  record_shortfall reason s =
      if fully_booked s
      then s
      else record_truncation
          (record {
            reason = reason;
            detail = [];
            total = s.initial_total;
            total_known = s.total_known;
            fetched = s.unique;
            lost = unaccounted s;
            page_size = s.page_size;
            page_limit = s.page_limit;
            window_start = none;
            window_end = none;
          })
          s

  -- recordDegradation
  unfoldable pub record_degradation : Slicer A → Slicer A
  unfolding record_shortfall
  record_degradation s = record_shortfall (latched_reason s.degraded_reason) s

  -- recordIncompleteSlice
  unfoldable pub record_incomplete_slice : Slicer A → Slicer A
  unfolding record_shortfall
  record_incomplete_slice s = record_shortfall incomplete_slice s

  -- `s.windows++`
  unfoldable pub count_window : Slicer A → Slicer A
  count_window s = record s { windows = s.windows + 1 }

  -- `s.requests++`
  unfoldable pub count_slicer_request : Slicer A → Slicer A
  count_slicer_request s = record s { requests = s.requests + 1 }

  -- The reason of degrade: the first one stays.
  unfoldable pub latch : SliceReason → Slicer A → Slicer A
  latch reason s = elim s.degraded_reason [
    | none ↦ record s { degraded_reason = some reason }
    | some earlier ↦ s
  ]

module _ {ℓ} {A : Type ℓ} (world : World A) where
  -- The loop of absorb: the new items come out latest first.
  unfoldable pub absorb_loop : List A → List A → Slicer A → List A × Slicer A
  unfolding has
  absorb_loop [] fresh s = (fresh, s)
  absorb_loop (raw ∷ items) fresh s =
      let key = world.key_of raw in
      elim (str_eq key "") [
        | true ↦ absorb_loop items (raw ∷ fresh) (record s { keyless = s.keyless + 1 })
        | false ↦ elim (has key s.seen) [
          | true ↦ absorb_loop items fresh (record s { duplicates = s.duplicates + 1 })
          | false ↦ absorb_loop items (raw ∷ fresh) (record s { seen = key ∷ s.seen })
        ]
      ]

  -- The call of the sink, which may fail after it has been given the items.
  unfoldable pub give_to_sink : List A → Action A (Unit {0})
  give_to_sink fresh s =
      let s' = record s { sunk = fresh ++ s.sunk; chunks = s.chunks + 1 } in
      if world.sink_fails s.chunks then step (failure sink_failed) s' else step (success tt) s'

  -- absorb
  unfoldable pub absorb_fresh : List A × Slicer A → Step A (Unit {0})
  unfolding give_to_sink
  absorb_fresh ([], s) = step (success tt) s
  absorb_fresh (x ∷ fresh, s) =
      give_to_sink (x ∷ fresh) (record s { unique = s.unique + length (x ∷ fresh) })

  unfoldable pub absorb : List A → Action A (Unit {0})
  unfolding absorb_loop absorb_fresh
  absorb items s = absorb_fresh (absorb_loop items [] s)

  -- The options of a fetch, and what the server answers to it.
  unfoldable pub issue_search : ℕ → Query → Bool → Env A
  issue_search requests query stop_on_truncation = record {
    answer = λ n i size. world.page (requests + n) query i size;
    cancelled = λ n. world.cancelled (requests + n);
    path = "api/issues/search";
    max_page_size = issue_page_size;
    page_limit = issue_page_limit;
    stop_on_truncation = stop_on_truncation;
    suppress_record = true;
    started_at = world.clock requests;
    ended_at = world.clock (requests + 1);
  }

  -- A fetch always ends, so that the first clause is never reached.
  unfoldable pub take_in : IssueWindow → Slicer A → Option (Fetched A) → Step A (PageResult A)
  unfolding adopt as_date_bound_rejection
  take_in w s none = step (failure (request_failed other_error)) s
  take_in w s (some (Fetched.ok res table)) =
      step (success res)
        (record (adopt res.requests res.page_size res.page_limit s) { table = table })
  take_in w s (some (Fetched.failed requests page_size page_limit e)) =
      step (failure (as_date_bound_rejection w e)) (adopt requests page_size page_limit s)

  -- The call of GetPaginatedResult and what follows it in fetchWindow and fetchAndAbsorbCell.
  unfoldable pub run_search : IssueWindow → Query → Bool → Action A (PageResult A)
  unfolding take_in get_paginated_result issue_search
  run_search w query stop s =
      take_in w s (get_paginated_result (issue_search s.requests query stop) s.table)

  -- fetchWindow
  unfoldable pub fetch_window : IssueWindow → Bool → Action A (PageResult A)
  unfolding safe_to_request window_params run_search
  fetch_window w stop =
      if safe_to_request w then run_search w (window_params w) stop else raise zero_width_window

  unfoldable pub read_total : IssueWindow → Response ℕ → Outcome ℕ
  unfolding as_date_bound_rejection
  read_total w (request_error e) = failure (as_date_bound_rejection w e)
  read_total w no_answer = failure unparseable_total
  read_total w (answer_of total) = success total

  -- probeWindowTotal
  unfoldable pub probe_window_total : IssueWindow → Action A ℕ
  unfolding read_total safe_to_request window_params count_slicer_request
  probe_window_total w s =
      if safe_to_request w
      then step (read_total w (world.total_of s.requests (window_params w)))
          (count_slicer_request s)
      else step (failure zero_width_window) s

  -- probeCreationDate
  unfoldable pub probe_creation_date : IssueWindow → Bool → Action A (Option ℕ)
  unfolding window_params truncate count_slicer_request
  probe_creation_date w oldest_first s =
      step
        (success (elim (world.creation_date s.requests (window_params w) oldest_first) [
          | none ↦ none
          | some created ↦ some (truncate created)
        ]))
        (count_slicer_request s)

  -- The fallback fetch of degrade.
  unfoldable pub fall_back : Action A (Unit {0})
  unfolding fetch_window count_window absorb
  fall_back = do res ← fetch_window root_issue_window false; modify count_window; absorb res.items

  -- degrade
  unfoldable pub degrade : SliceReason → Action A (Unit {0})
  unfolding latch fall_back
  degrade reason s =
      if s.fell_back
      then step (success tt) (latch reason s)
      else fall_back (record (latch reason s) { fell_back = true })
