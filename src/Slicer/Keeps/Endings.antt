-- ===== src/Slicer/Keeps/Endings.antt =====
-- What the end of a walk keeps (extract/slice.go).
use sonar_migration_tool.Common.{
  zero, suc, Bool, true, false, Option, none, some, List, [], ℤ, pos, negsuc, Bool-cases, inl, inr,
}
use sonar_migration_tool.Slicer.Windows.{IssueWindow, root_issue_window}
use sonar_migration_tool.Slicer.State.{
  SliceReason, incomplete_slice, dates_ignored, dates_rejected, WalkError, request_failed,
  date_bound_rejected, unparseable_total, unreadable_facet, zero_width_window, sink_failed,
  context_done, World, Slicer, Outcome, success, failure, state_of, Action, raise, attempt, modify,
  ◌>>=◌, ◌>>◌,
}
use sonar_migration_tool.Slicer.Requests.{
  record_degradation, record_incomplete_slice, latched_reason, record_shortfall, fully_booked,
  probe_window_total, degrade, max_slice_depth,
}
use sonar_migration_tool.Slicer.Reconcile.{unexplained_drift}
use sonar_migration_tool.Slicer.Walk.{
  fetch_issue_window, probe_issue_range, dates_respected, record_drift, close_by, walk_or_degrade,
  reconcile, close_degraded, handle_walk_error, close_walk, slice_project_issues,
}
use sonar_migration_tool.Slicer.Keeps.{
  Keeps, bind-Keeps, Stable, outcome-Keeps, attempt-Keeps, probe_window_total-Keeps, degrade-Keeps,
}
use sonar_migration_tool.Slicer.Keeps.Windows.{
  fetch_issue_window-Keeps, probe_issue_range-Keeps, dates_respected-Keeps,
}

module _ {ℓ ι} {A : Type ℓ} (world : World A) (P : Slicer A → Type ι) (Fit : List A → Type ι)
    (stable : Stable world P Fit) where
  pub record_shortfall-Keeps :
      (reason : SliceReason) (s : Slicer A) → P s → P (record_shortfall reason s)
  unfolding record_shortfall
  record_shortfall-Keeps reason s p = elim (Bool-cases (fully_booked s)) [
    | inl booked ↦ rw booked p
    | inr short ↦ rw short (stable.on_record _ s p)
  ]

  record_drift-Keeps : (d : ℤ) (s : Slicer A) → P s → P (record_drift world d s)
  unfolding record_drift
  record_drift-Keeps (pos zero) s p = p
  record_drift-Keeps (pos (suc n)) s p = stable.on_record _ s p
  record_drift-Keeps (negsuc n) s p = stable.on_record _ s p

  pub reconcile-Keeps : Keeps P (reconcile world)
  unfolding reconcile
  reconcile-Keeps =
      bind-Keeps P _ _
        (attempt-Keeps P (probe_window_total world root_issue_window)
          (probe_window_total-Keeps world P Fit stable root_issue_window))
        (λ probed.
          bind-Keeps P _ _ (λ s p. p)
            (λ audit.
              bind-Keeps P _ _ (λ s p. stable.on_audit audit s p)
                (λ _ s p. record_drift-Keeps (unexplained_drift audit) s p)))

  record_degradation-Keeps : (s : Slicer A) → P s → P (record_degradation s)
  unfolding record_degradation
  record_degradation-Keeps s p = record_shortfall-Keeps (latched_reason s.degraded_reason) s p

  close_degraded-Keeps : Keeps P (close_degraded world)
  unfolding close_degraded
  close_degraded-Keeps =
      bind-Keeps P _ _ (λ s p. record_degradation-Keeps s p) (λ _. reconcile-Keeps)

  failed-Keeps :
      (e : WalkError) → Keeps {B = Unit {0}} P (modify record_incomplete_slice >> raise e)
  unfolding record_incomplete_slice
  failed-Keeps e =
      bind-Keeps P _ _ (λ s p. record_shortfall-Keeps incomplete_slice s p) (λ _ s p. p)

  handle_walk_error-Keeps : (e : WalkError) → Keeps P (handle_walk_error world e)
  unfolding handle_walk_error
  handle_walk_error-Keeps (date_bound_rejected w e) =
      bind-Keeps P _ _
        (attempt-Keeps P (degrade world dates_rejected)
          (degrade-Keeps world P Fit stable dates_rejected))
        (λ fallen. outcome-Keeps P fallen _ _ failed-Keeps (λ _. close_degraded-Keeps))
  handle_walk_error-Keeps (request_failed e) = failed-Keeps (request_failed e)
  handle_walk_error-Keeps unparseable_total = failed-Keeps unparseable_total
  handle_walk_error-Keeps unreadable_facet = failed-Keeps unreadable_facet
  handle_walk_error-Keeps zero_width_window = failed-Keeps zero_width_window
  handle_walk_error-Keeps sink_failed = failed-Keeps sink_failed
  handle_walk_error-Keeps context_done = failed-Keeps context_done

  close_by-Keeps : (degraded : Option SliceReason) → Keeps P (close_by world degraded)
  close_by-Keeps none = reconcile-Keeps
  close_by-Keeps (some reason) = close_degraded-Keeps

  close_walk-Keeps : Keeps P (close_walk world)
  unfolding close_walk
  close_walk-Keeps = bind-Keeps P _ _ (λ s p. p) close_by-Keeps

  walk_or_degrade-Keeps :
      (walk : Action A (Unit {0})) (respected : Outcome Bool)
      → Keeps P walk
      → Keeps P (walk_or_degrade world walk respected)
  unfolding walk_or_degrade
  walk_or_degrade-Keeps walk (failure e) k = handle_walk_error-Keeps e
  walk_or_degrade-Keeps walk (success false) k =
      bind-Keeps P _ _ (degrade-Keeps world P Fit stable dates_ignored) (λ _. close_degraded-Keeps)
  walk_or_degrade-Keeps walk (success true) k =
      bind-Keeps P _ _ (attempt-Keeps P walk k)
        (λ walked. outcome-Keeps P walked _ _ handle_walk_error-Keeps (λ _. close_walk-Keeps))

  sliced-Keeps :
      (walk : IssueWindow → Action A (Unit {0}))
      → ((root : IssueWindow) → Keeps P (walk root))
      → Keeps P (
          probe_issue_range world >>= λ root.
          attempt (dates_respected world root) >>= walk_or_degrade world (walk root))
  sliced-Keeps walk k = bind-Keeps P _ _ (probe_issue_range-Keeps world P Fit stable) (λ root.
      bind-Keeps P _ _
        (attempt-Keeps P (dates_respected world root)
          (dates_respected-Keeps world P Fit stable root))
        (λ respected. walk_or_degrade-Keeps (walk root) respected (k root)))

  -- The walk keeps the property from when it has forgotten the keys of earlier items.
  pub slice_project_issues-Keeps :
      (s : Slicer A) → P (record s { seen = [] }) → P (state_of (slice_project_issues world s))
  unfolding slice_project_issues ◌>>=◌
  slice_project_issues-Keeps s p =
      sliced-Keeps (fetch_issue_window world max_slice_depth)
        (fetch_issue_window-Keeps world P Fit stable max_slice_depth) (record s { seen = [] }) p
