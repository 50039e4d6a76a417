-- ===== src/Slicer/Examples.antt =====
-- Walks on small servers, and the theorems there.
use sonar_migration_tool.Common.{
  ℕ, zero, suc, ◌+◌, ◌*◌, ◌≡◌, refl, inr, true, false, none, some, String, List, [], ◌∷◌, map,
  length, take, drop, if◌then◌else◌, has, pos, ◌↔◌, ◌≤◌,
}
use sonar_migration_tool.Fallback.Table.{new_page_size_table, size_for}
use sonar_migration_tool.Fallback.Sizes.{page_limit_at, total_pages}
use sonar_migration_tool.Fallback.Defs.{http_error, answered, finish_paginated, result}
use sonar_migration_tool.Slicer.Windows.{
  second, truncate, IssueWindow, splittable, split_window, Query,
}
use sonar_migration_tool.Slicer.State.{
  Reconciliation, request_failed, request_error, answer_of, World, Slicer, success, failure,
  outcome_of, state_of, ◌>>=◌,
}
use sonar_migration_tool.Slicer.Requests.{issue_search}
use sonar_migration_tool.Slicer.Reconcile.{unexplained_drift}
use sonar_migration_tool.Slicer.Walk.{
  fetch_issue_window, slice_project_issues, fetch_project_issues, initial_slicer,
}
use sonar_migration_tool.Slicer.Books.{keys_of, keyless_of, Books}
use sonar_migration_tool.Slicer.Counts.{slice_project_issues-Books}
use sonar_migration_tool.Slicer.Silent.{Everything}
use sonar_migration_tool.Slicer.Delivery.{Offers, fetch_project_issues-Whole}
use sonar_migration_tool.Slicer.Errors.{Reported, slice_project_issues-Reported}
use sonar_migration_tool.Slicer.Partition.{Halves, split_window-Halves}
use sonar_migration_tool.Slicer.Drift.{placed, unexplained_drift_band}

-- An issue is its key.
abbrev issues : List String
issues = "a" ∷ "b" ∷ "c" ∷ []

abbrev pages_before : ℕ → ℕ
pages_before zero = 0
pages_before (suc page) = page

-- A server that ignores all parameters of a search.
abbrev small : World String
small = record {
  page = λ n q page size.
      answered (some (length issues)) (take size (drop (pages_before page * size) issues));
  total_of = λ n q. answer_of (length issues);
  creation_date = λ n q oldest_first. none;
  facets_of = λ n q facet. answer_of [];
  cancelled = λ n. false;
  clock = λ n. 0;
  sink_fails = λ n. false;
  is_mqr_mode = false;
  key_of = λ x. x;
}

small-Offers : Offers small issues
unfolding keys_of issue_search has
small-Offers = record {
  whole = λ n stop request page size. inr refl;
  part = λ n q stop.
      (issues, ((refl, refl), ((refl, refl), ((refl, refl), tt))), λ request page size. inr refl);
  counted = λ n total e. cc;
  keyed = (refl, (refl, (refl, tt)));
  once = (refl, (refl, (refl, tt)));
}

fetch_project_issues-Whole_example :
    Everything small issues (state_of (fetch_project_issues small new_page_size_table))
unfolding fetch_project_issues ◌>>=◌ page_limit_at size_for total_pages finish_paginated result
fetch_project_issues-Whole_example =
    fetch_project_issues-Whole small issues new_page_size_table small-Offers refl refl

-- A server with 10,001 issues by its own count, of which it pages three in each half; one is in both.
abbrev dated_page : Query → List String
dated_page q = elim q.created_after [ none ↦ "a" ∷ "b" ∷ "c" ∷ [] | some s ↦ "c" ∷ "d" ∷ "" ∷ [] ]

abbrev dated_total : Query → ℕ
dated_total q = elim q.created_after [
  | none ↦ elim q.created_before [ none ↦ 10_001 | some s ↦ 3 ]
  | some s ↦ 3
]

abbrev dated : World String
dated = record small {
  page = λ n q page size.
      answered (some (dated_total q)) (take size (drop (pages_before page * size) (dated_page q)));
  total_of = λ n q. answer_of (dated_total q);
  creation_date = λ n q oldest_first. some (if oldest_first then 0 else 9 * second);
}

abbrev walked : Slicer String
walked = state_of (fetch_project_issues dated new_page_size_table)

walk_delivers :
    (outcome_of (fetch_project_issues dated new_page_size_table) ≡ success tt)
    × (walked.sunk ≡ ("" ∷ "d" ∷ "c" ∷ "b" ∷ "a" ∷ []))
    × (walked.duplicates ≡ 1)
    × (walked.windows ≡ 2)
unfolding fetch_project_issues fetch_issue_window ◌>>=◌ page_limit_at size_for total_pages
    finish_paginated result
walk_delivers = (refl, refl, refl, refl)

-- A walk over the same server in which every count fails.
abbrev broken : World String
broken = record dated { total_of = λ n q. request_error (http_error 500 0) }

abbrev opened : Slicer String
opened = record (initial_slicer dated new_page_size_table) {
  initial_total = 10_001;
  total_known = true;
  page_size = 500;
  page_limit = 20;
  ceiling = 10_000;
}

opened-Books : (world : World String) → Books world (λ _. Unit) 10_001 true opened
unfolding keys_of keyless_of
opened-Books world = record {
  seen_keys = refl;
  seen_once = tt;
  counted = refl;
  without_key = refl;
  booked = refl;
  from = tt;
  total_stays = refl;
  known_stays = refl;
}

walk_fails :
    (outcome_of (slice_project_issues broken opened) ≡ failure (request_failed (http_error 500 0)))
    × (map (λ r. r.lost) (state_of (slice_project_issues broken opened)).records ≡ (10_001 ∷ []))
unfolding slice_project_issues ◌>>=◌
walk_fails = (refl, refl)

slice_project_issues-Reported_example : Reported broken opened (slice_project_issues broken opened)
slice_project_issues-Reported_example =
    slice_project_issues-Reported broken opened (opened-Books broken)

slice_project_issues-Books_example :
    Books dated (λ _. Unit) 10_001 true (state_of (slice_project_issues dated opened))
slice_project_issues-Books_example = slice_project_issues-Books dated opened (opened-Books dated)

abbrev three_seconds : IssueWindow
three_seconds = record { start = 4 * second; end = 7 * second; open_start = true; open_end = false }

split_window-Halves_example :
    Halves three_seconds (split_window three_seconds).0 (split_window three_seconds).1
unfolding splittable truncate
split_window-Halves_example = split_window-Halves three_seconds refl refl refl

abbrev audit : Reconciliation
audit = record {
  total_before = 12_000;
  total_after = 11_990;
  unique = 11_000;
  duplicates = 0;
  keyless = 0;
  expected_loss = 900;
  windows = 4;
  requests = 60;
}

unexplained_drift_band_example :
    let accounted = 11_000 + 900 in
    (unexplained_drift audit ≡ placed 11_990 12_000 accounted)
    × ((unexplained_drift audit ≡ pos 0) ↔ ((11_990 ≤ accounted) × (accounted ≤ 12_000)))
unexplained_drift_band_example = unexplained_drift_band audit

drift_found : unexplained_drift audit ≡ pos 90
unfolding unexplained_drift
drift_found = refl
