-- ===== src/Slicer/Facets.antt =====
-- slice_facets.go: the cells of a single second that holds too many issues, by type and severity and
-- then by rule, directory and file.
use sonar_migration_tool.Common.{
  ℕ, ◌+◌, ◌-◌, Bool, true, false, not, String, List, [], ◌∷◌, ◌++◌, length, ltb, leb, ◌==◌,
  if◌then◌else◌, ◌||◌, str_eq,
}
use sonar_migration_tool.Fallback.Defs.{PageResult}
use sonar_migration_tool.Slicer.Windows.{
  IssueWindow, safe_to_request, window_bounds, facet_params, filters_set,
}
use sonar_migration_tool.Slicer.State.{
  atomic_window, FacetValue, unreadable_facet, zero_width_window, Response, request_error,
  no_answer, answer_of, World, Outcome, success, failure, step, Action, pure, raise, gets, attempt,
  modify, ◌>>=◌, ◌>>◌, for_each,
}
use sonar_migration_tool.Slicer.Requests.{
  as_date_bound_rejection, record_truncation, count_window, count_slicer_request, absorb,
  run_search,
}

-- issueTaxonomy
pub record IssueTaxonomy : Type 0 where
  pub type_param : String
  pub severity_param : String

abbrev pub standard_taxonomy : IssueTaxonomy
standard_taxonomy = record { type_param = "types"; severity_param = "severities" }

abbrev pub mqr_taxonomy : IssueTaxonomy
mqr_taxonomy = record {
  type_param = "impactSoftwareQualities";
  severity_param = "impactSeverities";
}

abbrev pub facet_cascade_order : List String
facet_cascade_order = "rules" ∷ "directories" ∷ "files" ∷ []

abbrev pub max_facet_values : ℕ
max_facet_values = 100

abbrev pub Filters : Type 0
Filters = List (String × String)

-- The values of a facet that count something.
unfoldable pub counted_values : List FacetValue → List FacetValue
counted_values [] = []
counted_values (v ∷ vs) = let rest = counted_values vs in if ltb 0 v.count then v ∷ rest else rest

-- The first facet of the response that is the one asked for.
unfoldable pub facet_values : String → List (String × List FacetValue) → List FacetValue
unfolding counted_values
facet_values facet [] = []
facet_values facet ((property, vs) ∷ facets) =
    if str_eq property facet then counted_values vs else facet_values facet facets

unfoldable pub sum_counts : List FacetValue → ℕ
sum_counts [] = 0
sum_counts (v ∷ vs) = v.count + sum_counts vs

-- facetCoversCell
unfoldable pub facet_covers_cell : List FacetValue → ℕ → Bool
unfolding sum_counts
facet_covers_cell values cell_total = leb cell_total (sum_counts values)

-- The tests of fetchByRemainingFacets that refuse a facet.
unfoldable pub is_unusable_facet : List FacetValue → ℕ → Bool
unfolding facet_covers_cell
is_unusable_facet values cell_total =
    (length values == 0)
    || (ltb max_facet_values (length values) || not (facet_covers_cell values cell_total))

module _ {ℓ} {A : Type ℓ} (world : World A) (w : IssueWindow) where
  unfoldable pub read_facet :
      String → Response (List (String × List FacetValue)) → Outcome (List FacetValue)
  unfolding as_date_bound_rejection facet_values
  read_facet facet (request_error e) = failure (as_date_bound_rejection w e)
  read_facet facet no_answer = failure unreadable_facet
  read_facet facet (answer_of facets) = success (facet_values facet facets)

  -- probeFacet
  unfoldable pub probe_facet : String → Filters → Action A (List FacetValue)
  unfolding read_facet safe_to_request facet_params count_slicer_request
  probe_facet facet filters s =
      if safe_to_request w
      then step (read_facet facet (world.facets_of s.requests (facet_params w filters) facet))
          (count_slicer_request s)
      else step (failure zero_width_window) s

  -- fetchAndAbsorbCell
  unfoldable pub fetch_and_absorb_cell : Bool → Filters → Action A (PageResult A)
  unfolding safe_to_request facet_params run_search count_window absorb
  fetch_and_absorb_cell stop filters = elim (safe_to_request w) [
    | false ↦ raise zero_width_window
    | true ↦ do
      res ← run_search world w (facet_params w filters) stop
      elim res.truncated [
        | true ↦ pure res
        | false ↦ do modify count_window; absorb world res.items; pure res
      ]
  ]

  -- recordGiveUp
  unfoldable pub record_give_up : ℕ → Filters → PageResult A → Action A (Unit {0})
  unfolding count_window absorb record_truncation window_bounds filters_set
  record_give_up total filters res = do
    elim res.truncated [ true ↦ modify count_window >> absorb world res.items | false ↦ pure tt ]
    modify (
        record_truncation (record {
          reason = atomic_window;
          detail = filters_set filters;
          total = total;
          total_known = true;
          fetched = length res.items;
          lost = total - length res.items;
          page_size = res.page_size;
          page_limit = res.page_limit;
          window_start = (window_bounds w).0;
          window_end = (window_bounds w).1;
        }))

  -- giveUpOnWindow
  unfoldable pub give_up_on_window : ℕ → Filters → Action A (Unit {0})
  unfolding fetch_and_absorb_cell record_give_up
  give_up_on_window total filters = do
    res ← fetch_and_absorb_cell false filters
    record_give_up total filters res

  -- fetchCellOrError; `finer` says that facets remain, and `next` goes on with them.
  unfoldable pub fetch_cell_or_error :
      Bool → (ℕ → Filters → Action A (Unit {0})) → ℕ → Filters → Action A (Unit {0})
  unfolding fetch_and_absorb_cell record_give_up
  fetch_cell_or_error finer next cell_total filters = do
    res ← fetch_and_absorb_cell finer filters
    elim res.truncated [
      | false ↦ pure tt
      | true ↦
          let total = if res.total_known then res.total else cell_total in
          elim finer [ true ↦ next total filters | false ↦ record_give_up total filters res ]
    ]

  -- One cell of a facet: it is fetched, or cut further where its count is above the ceiling.
  unfoldable pub fetch_cell :
      Bool → (ℕ → Filters → Action A (Unit {0})) → ℕ → Filters → Action A (Unit {0})
  unfolding fetch_cell_or_error
  fetch_cell finer next count filters = do
    ceiling ← gets (λ s. s.ceiling)
    elim (leb count ceiling) [
      | true ↦ fetch_cell_or_error finer next count filters
      | false ↦ next count filters
    ]

  -- fetchByRemainingFacets
  unfoldable pub fetch_by_remaining_facets : List String → ℕ → Filters → Action A (Unit {0})
  unfolding give_up_on_window probe_facet is_unusable_facet fetch_cell for_each
  fetch_by_remaining_facets [] cell_total filters = give_up_on_window cell_total filters
  fetch_by_remaining_facets (facet ∷ rest) cell_total filters = do
    probed ← attempt (probe_facet facet filters)
    elim probed [
      | failure e ↦ give_up_on_window cell_total filters
      | success values ↦ elim (is_unusable_facet values cell_total) [
        | true ↦ give_up_on_window cell_total filters
        | false ↦
            for_each
              (λ v.
                fetch_cell (ltb 0 (length rest)) (fetch_by_remaining_facets rest) v.count
                  (filters ++ ((facet, v.val) ∷ [])))
              values
      ]
    ]

  -- The probe of fetchByFacets and fetchTypeCell, which gives up without values.
  unfoldable pub over_facet :
      String → ℕ → Filters → (FacetValue → Action A (Unit {0})) → Action A (Unit {0})
  unfolding give_up_on_window probe_facet for_each
  over_facet facet total filters body = do
    probed ← attempt (probe_facet facet filters)
    elim probed [
      | failure e ↦ give_up_on_window total filters
      | success values ↦ elim (length values == 0) [
        | true ↦ give_up_on_window total filters
        | false ↦ for_each body values
      ]
    ]

  -- fetchTypeCell
  unfoldable pub fetch_type_cell : IssueTaxonomy → FacetValue → Action A (Unit {0})
  unfolding over_facet fetch_cell fetch_by_remaining_facets
  fetch_type_cell tax t =
      let type_filter : String × String = (tax.type_param, t.val) in
      over_facet tax.severity_param t.count (type_filter ∷ []) (λ sev.
        fetch_cell true (fetch_by_remaining_facets facet_cascade_order) sev.count
          (type_filter ∷ (tax.severity_param, sev.val) ∷ []))

  -- fetchByFacets
  unfoldable pub fetch_by_facets : ℕ → Action A (Unit {0})
  unfolding over_facet fetch_type_cell
  fetch_by_facets total =
      let tax = if world.is_mqr_mode then mqr_taxonomy else standard_taxonomy in
      over_facet tax.type_param total [] (fetch_type_cell tax)
