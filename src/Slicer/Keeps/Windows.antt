-- ===== src/Slicer/Keeps/Windows.antt =====
-- What the walk over windows keeps (extract/slice.go).
use sonar_migration_tool.Common.{
  ℕ, zero, suc, true, false, List, ltb, ◌==◌, ◌||◌, Bool-cases, inl, inr,
}
use sonar_migration_tool.Fallback.Defs.{PageResult}
use sonar_migration_tool.Slicer.Windows.{
  IssueWindow, root_issue_window, safe_to_request, splittable, split_window,
}
use sonar_migration_tool.Slicer.State.{max_depth, World, Slicer, Action}
use sonar_migration_tool.Slicer.Walk.{
  fetch_window_items, record_growth, widen_open_edge, fetch_closed_window, fetch_atomic_window,
  check_context, fetch_issue_window, probe_issue_range, dates_respected,
}
use sonar_migration_tool.Slicer.Keeps.{
  Keeps, bind-Keeps, bind-Gives, Stable, test-Keeps, option-Keeps, fetch_window-Gives,
  probe_window_total-Keeps, probe_creation_date-Keeps, modify_window-Keeps, degrade-Keeps,
}
use sonar_migration_tool.Slicer.Keeps.Cells.{fetch_by_facets-Keeps}

module _ {ℓ ι} {A : Type ℓ} (world : World A) (P : Slicer A → Type ι) (Fit : List A → Type ι)
    (stable : Stable world P Fit) where
  record_growth-Keeps :
      (w : IssueWindow) (res : PageResult A) (s : Slicer A) → P s → P (record_growth w res s)
  unfolding record_growth
  record_growth-Keeps w res s p = stable.on_record _ s p

  fetch_window_items-Keeps : (w : IssueWindow) → Keeps P (fetch_window_items world w)
  unfolding fetch_window_items
  fetch_window_items-Keeps w =
      bind-Gives P _ _ _ (fetch_window-Gives world P Fit stable w false) (λ res fit.
        bind-Keeps P _ _ (modify_window-Keeps world P Fit stable) (λ _.
          bind-Keeps P _ _ (stable.on_absorb res.items fit)
            (λ _. test-Keeps P res.truncated _ _ (λ _. record_growth-Keeps w res) (λ _ s p. p))))

  widen_open_edge-Keeps : (w : IssueWindow) → Keeps P (widen_open_edge world w)
  unfolding widen_open_edge
  widen_open_edge-Keeps w =
      let probes = probe_creation_date-Keeps world P Fit stable w in
      bind-Keeps P _ _
        (test-Keeps P w.open_end _ _ (λ _. bind-Keeps P _ _ (probes false) (λ _ s p. p))
          (λ _ s p. p))
        (λ by_end.
          option-Keeps P by_end _ _
            (test-Keeps P w.open_start _ _ (λ _. bind-Keeps P _ _ (probes true) (λ _ s p. p))
              (λ _ s p. p))
            (λ widened s p. p))

  fetch_closed_window-Keeps : (closed : IssueWindow) → Keeps P (fetch_closed_window world closed)
  unfolding fetch_closed_window
  fetch_closed_window-Keeps closed =
      bind-Keeps P _ _ (probe_window_total-Keeps world P Fit stable closed) (λ total.
        bind-Keeps P _ _ (λ s p. p)
          (λ ceiling.
            test-Keeps P (total == 0) _ _ (λ _ s p. p)
              (λ _.
                test-Keeps P (ltb ceiling total) _ _
                  (λ _. fetch_by_facets-Keeps world P Fit stable closed total)
                  (λ _. fetch_window_items-Keeps closed))))

  fetch_atomic_window-Keeps :
      (again : IssueWindow → Action A (Unit {0})) (w : IssueWindow) (total : ℕ)
      → ((wider : IssueWindow) → Keeps P (again wider))
      → Keeps P (fetch_atomic_window world again w total)
  unfolding fetch_atomic_window
  fetch_atomic_window-Keeps again w total k =
      test-Keeps P (w.open_start || w.open_end) _ _
        (λ _. bind-Keeps P _ _ (widen_open_edge-Keeps w) (λ widened.
          option-Keeps P widened _ _
            (fetch_closed_window-Keeps (record w { open_start = false; open_end = false })) k))
        (λ _. fetch_by_facets-Keeps world P Fit stable w total)

  check_context-Keeps : Keeps P (check_context world)
  unfolding check_context
  check_context-Keeps s p = elim (Bool-cases (world.cancelled s.requests)) [
    | inl stopped ↦ simp (stopped) p
    | inr going ↦ simp (going) p
  ]

  pub fetch_issue_window-Keeps :
      (left : ℕ) (w : IssueWindow) → Keeps P (fetch_issue_window world left w)
  unfolding fetch_issue_window
  fetch_issue_window-Keeps zero w =
      bind-Keeps P _ _ check_context-Keeps (λ _. degrade-Keeps world P Fit stable max_depth)
  fetch_issue_window-Keeps (suc left) w = bind-Keeps P _ _ check_context-Keeps (λ _.
      test-Keeps P (safe_to_request w) _ _
        (λ _. bind-Keeps P _ _ (probe_window_total-Keeps world P Fit stable w) (λ total.
          bind-Keeps P _ _ (λ s p. p)
            (λ ceiling.
              test-Keeps P (total == 0) _ _ (λ _ s p. p)
                (λ _.
                  test-Keeps P (ltb ceiling total) _ _
                    (λ _.
                      test-Keeps P (splittable w) _ _
                        (λ _.
                          bind-Keeps P _ _ (fetch_issue_window-Keeps left (split_window w).0)
                            (λ _. fetch_issue_window-Keeps left (split_window w).1))
                        (λ _. fetch_atomic_window-Keeps _ w total (fetch_issue_window-Keeps left)))
                    (λ _. fetch_window_items-Keeps w)))))
        (λ _. degrade-Keeps world P Fit stable max_depth))

  pub probe_issue_range-Keeps : Keeps P (probe_issue_range world)
  unfolding probe_issue_range
  probe_issue_range-Keeps =
      let probes = probe_creation_date-Keeps world P Fit stable root_issue_window in
      bind-Keeps P _ _ (probes true)
        (λ _. bind-Keeps P _ _ (probes false) (λ _. bind-Keeps P _ _ (λ s p. p) (λ _ s p. p)))

  pub dates_respected-Keeps : (root : IssueWindow) → Keeps P (dates_respected world root)
  unfolding dates_respected
  dates_respected-Keeps root =
      test-Keeps P (splittable root) _ _
        (λ _.
          bind-Keeps P _ _ (probe_window_total-Keeps world P Fit stable (split_window root).0) (λ _.
            bind-Keeps P _ _ (probe_window_total-Keeps world P Fit stable (split_window root).1)
              (λ _ s p. p)))
        (λ _ s p. p)
