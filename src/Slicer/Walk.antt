-- ===== src/Slicer/Walk.antt =====
-- The walk of extract/slice.go over windows of creation dates.
use sonar_migration_tool.Common.{
  ℕ, zero, suc, ◌+◌, ◌-◌, Bool, true, false, not, Option, none, some, [], ◌∷◌, length, ltb, leb,
  ◌==◌, if◌then◌else◌, ◌||◌, ◌&&◌, ℤ, pos, pos_part,
}
use sonar_migration_tool.Fallback.Table.{PageSizeTable}
use sonar_migration_tool.Fallback.Defs.{TruncationReason, page_limit_clamp, PageResult}
use sonar_migration_tool.Slicer.Windows.{
  IssueWindow, root_issue_window, second, truncate, splittable, safe_to_request, window_bounds,
  split_window,
}
use sonar_migration_tool.Slicer.State.{
  SliceReason, of_fetch, dates_ignored, dates_rejected, max_depth, count_drift, Reconciliation,
  WalkError, date_bound_rejected, context_done, World, Slicer, Outcome, success, failure, Step,
  step, Action, pure, raise, gets, attempt, modify, ◌>>=◌, ◌>>◌,
}
use sonar_migration_tool.Slicer.Requests.{
  max_slice_depth, record_truncation, record_degradation, record_incomplete_slice, count_window,
  absorb, give_to_sink, fetch_window, probe_window_total, probe_creation_date, degrade,
}
use sonar_migration_tool.Slicer.Facets.{fetch_by_facets}
use sonar_migration_tool.Slicer.Reconcile.{unexplained_drift}

-- defaultIssueRange: its first instant is the start of 2006.
unfoldable pub default_issue_range : ℕ → ℕ × ℕ
unfolding truncate
default_issue_range now = (1_136_073_600_000_000_000, truncate now + second)

module _ {ℓ} {A : Type ℓ} where
  -- The record of a window that grew between its probe and its fetch.
  unfoldable pub record_growth : IssueWindow → PageResult A → Slicer A → Slicer A
  unfolding record_truncation window_bounds
  record_growth w res s =
      record_truncation
        (record {
          reason = of_fetch res.reason;
          detail = [];
          total = res.total;
          total_known = res.total_known;
          fetched = length res.items;
          lost =
              if res.total_known && ltb (length res.items) res.total
              then res.total - length res.items
              else 0;
          page_size = res.page_size;
          page_limit = res.page_limit;
          window_start = (window_bounds w).0;
          window_end = (window_bounds w).1;
        })
        s

module _ {ℓ} {A : Type ℓ} (world : World A) where
  -- fetchWindowItems
  unfoldable pub fetch_window_items : IssueWindow → Action A (Unit {0})
  unfolding fetch_window count_window absorb record_growth
  fetch_window_items w = do
    res ← fetch_window world w false
    modify count_window
    absorb world res.items
    elim res.truncated [ false ↦ pure tt | true ↦ modify (record_growth w res) ]

  abbrev widened_start : IssueWindow → Option ℕ → Option IssueWindow
  widened_start w none = none
  widened_start w (some oldest) =
      if ltb oldest w.start then some (record w { start = oldest }) else none

  abbrev widened_end : IssueWindow → Option ℕ → Option IssueWindow
  widened_end w none = none
  widened_end w (some newest) =
      if leb w.end newest then some (record w { end = newest + second }) else none

  -- widenOpenEdge: the window that covers what is beyond an open edge, if anything is.
  unfoldable pub widen_open_edge : IssueWindow → Action A (Option IssueWindow)
  unfolding probe_creation_date
  widen_open_edge w = do
    by_end ← elim w.open_end [
      | false ↦ pure none
      | true ↦ do newest ← probe_creation_date world w false; pure (widened_end w newest)
    ]
    elim by_end [
      | some widened ↦ pure (some widened)
      | none ↦ elim w.open_start [
        | false ↦ pure none
        | true ↦ do oldest ← probe_creation_date world w true; pure (widened_start w oldest)
      ]
    ]

  -- The rest of closeAtomicWindow: the closed window, counted again.
  unfoldable pub fetch_closed_window : IssueWindow → Action A (Unit {0})
  unfolding probe_window_total fetch_by_facets fetch_window_items
  fetch_closed_window closed = do
    total ← probe_window_total world closed
    ceiling ← gets (λ s. s.ceiling)
    elim (total == 0) [
      | true ↦ pure tt
      | false ↦ elim (ltb ceiling total) [
        | true ↦ fetch_by_facets world closed total
        | false ↦ fetch_window_items closed
      ]
    ]

  -- fetchAtomicWindow with closeAtomicWindow; `again` is fetchIssueWindow one level deeper.
  unfoldable pub fetch_atomic_window :
      (IssueWindow → Action A (Unit {0})) → IssueWindow → ℕ → Action A (Unit {0})
  unfolding widen_open_edge fetch_closed_window fetch_by_facets
  fetch_atomic_window again w total = elim (w.open_start || w.open_end) [
    | false ↦ fetch_by_facets world w total
    | true ↦ do
      widened ← widen_open_edge w
      elim widened [
        | some wider ↦ again wider
        | none ↦
            fetch_closed_window
              (record { start = w.start; end = w.end; open_start = false; open_end = false })
      ]
  ]

  -- `ctx.Err()`
  unfoldable pub check_context : Action A (Unit {0})
  check_context s =
      if world.cancelled s.requests then step (failure context_done) s else step (success tt) s

  -- fetchIssueWindow; the number is maxSliceDepth less the depth.
  unfoldable pub fetch_issue_window : ℕ → IssueWindow → Action A (Unit {0})
  unfolding check_context safe_to_request degrade probe_window_total splittable split_window
      fetch_atomic_window fetch_window_items
  fetch_issue_window zero w = check_context >> degrade world max_depth
  fetch_issue_window (suc left) w = do
    check_context
    elim (safe_to_request w) [
      | false ↦ degrade world max_depth
      | true ↦ do
        total ← probe_window_total world w
        ceiling ← gets (λ s. s.ceiling)
        elim (total == 0) [
          | true ↦ pure tt
          | false ↦ elim (ltb ceiling total) [
            | false ↦ fetch_window_items w
            | true ↦ elim (splittable w) [
              | false ↦ fetch_atomic_window (fetch_issue_window left) w total
              | true ↦ do
                fetch_issue_window left (split_window w).0
                fetch_issue_window left (split_window w).1
            ]
          ]
        ]
    ]

  unfoldable pub range_of : ℕ → Option ℕ → Option ℕ → IssueWindow
  unfolding default_issue_range splittable
  range_of now (some oldest) (some newest) =
      let probed : IssueWindow = record {
        start = oldest;
        end = newest + second;
        open_start = true;
        open_end = true;
      } in
      if splittable probed
      then probed
      else record probed { start = (default_issue_range now).0; end = (default_issue_range now).1 }
  range_of now oldest newest = record root_issue_window {
    start = (default_issue_range now).0;
    end = (default_issue_range now).1;
  }

  -- probeIssueRange
  unfoldable pub probe_issue_range : Action A IssueWindow
  unfolding probe_creation_date range_of
  probe_issue_range = do
    oldest ← probe_creation_date world root_issue_window true
    newest ← probe_creation_date world root_issue_window false
    now ← gets (λ s. world.clock s.requests)
    pure (range_of now oldest newest)

  -- datesRespected
  unfoldable pub dates_respected : IssueWindow → Action A Bool
  unfolding splittable split_window probe_window_total
  dates_respected root = elim (splittable root) [
    | false ↦ pure true
    | true ↦ do
      left_total ← probe_window_total world (split_window root).0
      right_total ← probe_window_total world (split_window root).1
      gets (λ s. not (leb s.initial_total left_total && leb s.initial_total right_total))
  ]

  abbrev pub total_or : ℕ → Outcome ℕ → ℕ
  total_or before (success total) = total
  total_or before (failure e) = before

  unfoldable pub audit_of : Slicer A → ℕ → Reconciliation
  audit_of s after = record {
    total_before = s.initial_total;
    total_after = after;
    unique = s.unique;
    duplicates = s.duplicates;
    keyless = s.keyless;
    expected_loss = s.expected_loss;
    windows = s.windows;
    requests = s.requests;
  }

  unfoldable pub record_drift : ℤ → Slicer A → Slicer A
  unfolding record_truncation
  record_drift (pos zero) s = s
  record_drift unexplained s =
      record_truncation
        (record {
          reason = count_drift;
          detail = [];
          total = s.initial_total;
          total_known = s.total_known;
          fetched = s.unique;
          lost = pos_part unexplained;
          page_size = s.page_size;
          page_limit = s.page_limit;
          window_start = none;
          window_end = none;
        })
        s

  -- reconcile
  unfoldable pub reconcile : Action A (Unit {0})
  unfolding probe_window_total audit_of unexplained_drift record_drift
  reconcile = do
    probed ← attempt (probe_window_total world root_issue_window)
    audit ← gets (λ s. audit_of s (total_or s.initial_total probed))
    modify (λ s. record s { audits = audit ∷ s.audits })
    modify (record_drift (unexplained_drift audit))

  -- recordDegradation and reconcile
  unfoldable pub close_degraded : Action A (Unit {0})
  unfolding record_degradation reconcile
  close_degraded = modify record_degradation >> reconcile

  -- handleWalkError
  unfoldable pub handle_walk_error : WalkError → Action A (Unit {0})
  unfolding record_incomplete_slice degrade close_degraded
  handle_walk_error (date_bound_rejected w e) = do
    fallen ← attempt (degrade world dates_rejected)
    elim fallen [
      | failure e' ↦ modify record_incomplete_slice >> raise e'
      | success u ↦ close_degraded
    ]
  handle_walk_error e = modify record_incomplete_slice >> raise e

  -- The end of sliceProjectIssues, after a walk without an error.
  abbrev pub close_by : Option SliceReason → Action A (Unit {0})
  close_by none = reconcile
  close_by (some reason) = close_degraded

  unfoldable pub close_walk : Action A (Unit {0})
  unfolding close_degraded reconcile
  close_walk = do degraded ← gets (λ s. s.degraded_reason); close_by degraded

  -- sliceProjectIssues, once the dates have been tried; `walk` is the walk from the root window.
  unfoldable pub walk_or_degrade : Action A (Unit {0}) → Outcome Bool → Action A (Unit {0})
  unfolding handle_walk_error degrade close_degraded close_walk
  walk_or_degrade walk (failure e) = handle_walk_error e
  walk_or_degrade walk (success false) = degrade world dates_ignored >> close_degraded
  walk_or_degrade walk (success true) = do
    walked ← attempt walk
    elim walked [ failure e ↦ handle_walk_error e | success u ↦ close_walk ]

  -- sliceProjectIssues
  unfoldable pub slice_project_issues : Action A (Unit {0})
  unfolding probe_issue_range dates_respected walk_or_degrade
  slice_project_issues = do
    modify (λ s. record s { seen = [] })
    root ← probe_issue_range
    respected ← attempt (dates_respected root)
    walk_or_degrade (fetch_issue_window max_slice_depth root) respected

  abbrev pub initial_slicer : PageSizeTable → Slicer A
  initial_slicer table = record {
    page_size = 0;
    page_limit = 0;
    ceiling = 0;
    initial_total = 0;
    total_known = false;
    seen = [];
    unique = 0;
    duplicates = 0;
    keyless = 0;
    windows = 0;
    requests = 0;
    expected_loss = 0;
    degraded_reason = none;
    fell_back = false;
    sunk = [];
    chunks = 0;
    records = [];
    audits = [];
    table = table;
  }

  -- The truncation that windows can help with.
  abbrev pub is_counted_clamp : TruncationReason → Bool → Bool
  is_counted_clamp page_limit_clamp total_known = total_known
  is_counted_clamp reason total_known = false

  -- What fetchProjectIssues does with the result of its first fetch.
  unfoldable pub after_entry : PageResult A → Action A (Unit {0})
  unfolding give_to_sink slice_project_issues degrade record_degradation
  after_entry res = elim res.truncated [
    | false ↦ give_to_sink world res.items
    | true ↦ elim (is_counted_clamp res.reason res.total_known) [
      | true ↦ slice_project_issues
      | false ↦ degrade world (of_fetch res.reason) >> modify record_degradation
    ]
  ]

  -- fetchProjectIssues, from a new issueSlicer.
  unfoldable pub fetch_project_issues : PageSizeTable → Step A (Unit {0})
  unfolding fetch_window after_entry
  fetch_project_issues table =
      (do
        res ← fetch_window world root_issue_window true
        modify (λ s. record s { initial_total = res.total; total_known = res.total_known })
        after_entry res)
        (initial_slicer table)
