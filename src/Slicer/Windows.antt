-- ===== src/Slicer/Windows.antt =====
-- issueWindow of extract/slice.go: a half-open range of creation dates whose open edges are not sent,
-- and what a request for it carries. Instants are nanoseconds since 1970, which all creation dates
-- are after; a date string stands for its second, since FormatSQDate shows seconds.
use sonar_migration_tool.Common.{
  ℕ, ◌+◌, ◌-◌, ◌*◌, ◌/◌, Bool, true, false, not, Option, none, some, String, List, [], ◌∷◌, ltb,
  ◌==◌, if◌then◌else◌, ◌||◌, str_eq,
}

abbrev pub second : ℕ
second = 1_000_000_000

-- The longest time.Duration, at which Time.Sub saturates.
abbrev pub max_duration : ℕ
max_duration = 9_223_372_036_854_775_807

-- t.Truncate(time.Second)
unfoldable pub truncate : ℕ → ℕ
truncate t = t / second * second

-- end.Sub(start); it is only compared with a second, and a negative one is below that as 0 is.
unfoldable pub time_sub : ℕ → ℕ → ℕ
time_sub end start = if ltb max_duration (end - start) then max_duration else end - start

-- FormatSQDate
unfoldable pub format_sq_date : ℕ → ℕ
format_sq_date t = t / second

-- issueWindow
pub record IssueWindow : Type 0 where
  pub start : ℕ
  pub end : ℕ
  pub open_start : Bool
  pub open_end : Bool

-- rootIssueWindow
abbrev pub root_issue_window : IssueWindow
root_issue_window = record { start = 0; end = 0; open_start = true; open_end = true }

-- splittable
unfoldable pub splittable : IssueWindow → Bool
unfolding time_sub
splittable w = ltb second (time_sub w.end w.start)

-- mid
unfoldable pub mid : IssueWindow → ℕ
unfolding truncate time_sub
mid w = truncate (w.start + time_sub w.end w.start / 2)

-- safeToRequest
unfoldable pub safe_to_request : IssueWindow → Bool
unfolding format_sq_date
safe_to_request w =
    (w.open_start || w.open_end) || not (format_sq_date w.start == format_sq_date w.end)

-- dated
unfoldable pub dated : IssueWindow → Bool
dated w = not w.open_start || not w.open_end

-- bounds: an edge that is not sent has none.
unfoldable pub window_bounds : IssueWindow → Option ℕ × Option ℕ
unfolding format_sq_date
window_bounds w = (
  (if w.open_start then none else some (format_sq_date w.start)),
  (if w.open_end then none else some (format_sq_date w.end)),
)

-- splitWindow
unfoldable pub split_window : IssueWindow → IssueWindow × IssueWindow
unfolding mid truncate
split_window w =
    let seam = mid w in
    (
      record { start = truncate w.start; end = seam; open_start = w.open_start; open_end = false },
      record { start = seam; end = truncate w.end; open_start = false; open_end = w.open_end },
    )

-- The parameters of a request that a walk changes; all others are the caller's.
pub record Query : Type 0 where
  pub created_after : Option ℕ
  pub created_before : Option ℕ
  pub filters : List (String × String)

-- windowParams
unfoldable pub window_params : IssueWindow → Query
unfolding format_sq_date
window_params w = record {
  created_after = if w.open_start then none else some (format_sq_date w.start);
  created_before = if w.open_end then none else some (format_sq_date w.end);
  filters = [];
}

-- The filters that facetParams sets.
unfoldable pub filters_set : List (String × String) → List (String × String)
filters_set [] = []
filters_set ((k, v) ∷ fs) = let rest = filters_set fs in if str_eq v "" then rest else (k, v) ∷ rest

-- facetParams
unfoldable pub facet_params : IssueWindow → List (String × String) → Query
unfolding window_params filters_set
facet_params w fs = record (window_params w) { filters = filters_set fs }
