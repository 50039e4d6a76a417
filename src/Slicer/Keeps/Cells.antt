-- ===== src/Slicer/Keeps/Cells.antt =====
-- What the fetch of a second by its facets keeps (extract/slice_facets.go).
use sonar_migration_tool.Common.{
  ℕ, Bool, true, false, String, List, [], ◌∷◌, ◌++◌, length, ltb, leb, ◌==◌, if◌then◌else◌,
  Bool-cases, inl, inr,
}
use sonar_migration_tool.Fallback.Defs.{PageResult}
use sonar_migration_tool.Slicer.Windows.{IssueWindow, safe_to_request, facet_params}
use sonar_migration_tool.Slicer.State.{FacetValue, World, Slicer, Action, zero_width_window}
use sonar_migration_tool.Slicer.Facets.{
  Filters, probe_facet, fetch_and_absorb_cell, record_give_up, give_up_on_window,
  fetch_cell_or_error, fetch_cell, fetch_by_remaining_facets, over_facet, fetch_type_cell,
  fetch_by_facets, is_unusable_facet, IssueTaxonomy, facet_cascade_order, standard_taxonomy,
  mqr_taxonomy,
}
use sonar_migration_tool.Slicer.Keeps.{
  Keeps, Gives, bind-Keeps, bind-Gives, for_each-Keeps, Stable, test-Keeps, outcome-Keeps,
  attempt-Keeps, test-Gives, raise-Gives, pure-Gives, chain-Gives, then-Gives, modify_window-Keeps,
  absorb_window-Keeps,
}

module _ {ℓ ι} {A : Type ℓ} (world : World A) (P : Slicer A → Type ι) (Fit : List A → Type ι)
    (stable : Stable world P Fit) (w : IssueWindow) where
  probe_facet-Keeps :
      (facet : String) (filters : Filters) → Keeps P (probe_facet world w facet filters)
  unfolding probe_facet
  probe_facet-Keeps facet filters s p = elim (Bool-cases (safe_to_request w)) [
    | inl safe ↦ rw safe (stable.on_request s p)
    | inr unsafe ↦ rw unsafe p
  ]

  fetch_and_absorb_cell-Gives :
      (stop : Bool) (filters : Filters)
      → Gives P (λ res. Fit res.items) (fetch_and_absorb_cell world w stop filters)
  unfolding fetch_and_absorb_cell
  fetch_and_absorb_cell-Gives stop filters =
      test-Gives P _ (safe_to_request w) _ _
        (chain-Gives P _ _ _ _ (stable.on_search w (facet_params w filters) stop) (λ res fit.
          test-Gives P _ res.truncated _ _ (pure-Gives P _ res fit) (
            then-Gives P _ _ _ (modify_window-Keeps world P Fit stable)
              (then-Gives P _ _ _ (stable.on_absorb res.items fit) (pure-Gives P _ res fit)))))
        (raise-Gives P _ zero_width_window)

  record_give_up-Keeps :
      (total : ℕ) (filters : Filters) (res : PageResult A)
      → Fit res.items
      → Keeps P (record_give_up world w total filters res)
  unfolding record_give_up
  record_give_up-Keeps total filters res fit =
      bind-Keeps P _ _
        (test-Keeps P res.truncated _ _ (λ _. absorb_window-Keeps world P Fit stable res.items fit)
          (λ _ s p. p))
        (λ _ s p. stable.on_record _ s p)

  give_up_on_window-Keeps :
      (total : ℕ) (filters : Filters) → Keeps P (give_up_on_window world w total filters)
  unfolding give_up_on_window
  give_up_on_window-Keeps total filters =
      bind-Gives P _ _ _ (fetch_and_absorb_cell-Gives false filters)
        (λ res fit. record_give_up-Keeps total filters res fit)

  module _ (finer : Bool) (next : ℕ → Filters → Action A (Unit {0}))
      (k : (total : ℕ) (filters : Filters) → Keeps P (next total filters)) where
    fetch_cell_or_error-Keeps :
        (cell_total : ℕ) (filters : Filters)
        → Keeps P (fetch_cell_or_error world w finer next cell_total filters)
    unfolding fetch_cell_or_error
    fetch_cell_or_error-Keeps cell_total filters =
        bind-Gives P _ _ _ (fetch_and_absorb_cell-Gives finer filters) (λ res fit.
          let total = if res.total_known then res.total else cell_total in
          test-Keeps P res.truncated _ _
            (λ _.
              test-Keeps P finer _ _ (λ _. k total filters)
                (λ _. record_give_up-Keeps total filters res fit))
            (λ _ s p. p))

    fetch_cell-Keeps :
        (count : ℕ) (filters : Filters) → Keeps P (fetch_cell world w finer next count filters)
    unfolding fetch_cell
    fetch_cell-Keeps count filters =
        bind-Keeps P _ _ (λ s p. p)
          (λ ceiling.
            test-Keeps P (leb count ceiling) _ _ (λ _. fetch_cell_or_error-Keeps count filters)
              (λ _. k count filters))

  fetch_by_remaining_facets-Keeps :
      (order : List String) (cell_total : ℕ) (filters : Filters)
      → Keeps P (fetch_by_remaining_facets world w order cell_total filters)
  unfolding fetch_by_remaining_facets
  fetch_by_remaining_facets-Keeps [] cell_total filters = give_up_on_window-Keeps cell_total filters
  fetch_by_remaining_facets-Keeps (facet ∷ rest) cell_total filters =
      bind-Keeps P _ _
        (attempt-Keeps P (probe_facet world w facet filters) (probe_facet-Keeps facet filters))
        (λ probed.
          outcome-Keeps P probed _ _ (λ _. give_up_on_window-Keeps cell_total filters)
            (λ values.
              test-Keeps P (is_unusable_facet values cell_total) _ _
                (λ _. give_up_on_window-Keeps cell_total filters)
                (λ _. for_each-Keeps P _ values (λ v.
                  fetch_cell-Keeps (ltb 0 (length rest)) (fetch_by_remaining_facets world w rest)
                    (fetch_by_remaining_facets-Keeps rest) v.count
                    (filters ++ ((facet, v.val) ∷ []))))))

  over_facet-Keeps :
      (facet : String) (total : ℕ) (filters : Filters) (body : FacetValue → Action A (Unit {0}))
      → ((v : FacetValue) → Keeps P (body v))
      → Keeps P (over_facet world w facet total filters body)
  unfolding over_facet
  over_facet-Keeps facet total filters body k =
      bind-Keeps P _ _
        (attempt-Keeps P (probe_facet world w facet filters) (probe_facet-Keeps facet filters))
        (λ probed.
          outcome-Keeps P probed _ _ (λ _. give_up_on_window-Keeps total filters)
            (λ values.
              test-Keeps P (length values == 0) _ _ (λ _. give_up_on_window-Keeps total filters)
                (λ _. for_each-Keeps P body values k)))

  fetch_type_cell-Keeps :
      (tax : IssueTaxonomy) (t : FacetValue) → Keeps P (fetch_type_cell world w tax t)
  unfolding fetch_type_cell
  fetch_type_cell-Keeps tax t =
      let type_filter : String × String = (tax.type_param, t.val) in
      let cell = fetch_cell world w true (fetch_by_remaining_facets world w facet_cascade_order) in
      let filters : FacetValue → Filters =
        λ sev. type_filter ∷ (tax.severity_param, sev.val) ∷ [] in
      over_facet-Keeps tax.severity_param t.count (type_filter ∷ [])
        (λ sev. cell sev.count (filters sev))
        (λ sev.
          fetch_cell-Keeps true (fetch_by_remaining_facets world w facet_cascade_order)
            (fetch_by_remaining_facets-Keeps facet_cascade_order) sev.count (filters sev))

  pub fetch_by_facets-Keeps : (total : ℕ) → Keeps P (fetch_by_facets world w total)
  unfolding fetch_by_facets
  fetch_by_facets-Keeps total =
      let tax = if world.is_mqr_mode then mqr_taxonomy else standard_taxonomy in
      over_facet-Keeps tax.type_param total [] (fetch_type_cell world w tax)
        (fetch_type_cell-Keeps tax)
