-- ===== src/Slicer/Errors.antt =====
-- The errors of a walk of extract/slice.go, and what is on record when it returns one.
use mathlib.Core.Path.{subst}
use sonar_migration_tool.Common.{
  ℕ, ◌+◌, ◌≤◌, ◌≡◌, refl, sym, ap, Bool, true, false, Option, none, some, [], ◌⊎◌, inl, inr, All,
}
use sonar_migration_tool.Slicer.Windows.{IssueWindow, safe_to_request}
use sonar_migration_tool.Slicer.State.{
  SliceReason, dates_rejected, dates_ignored, incomplete_slice, WalkError, request_failed,
  date_bound_rejected, unparseable_total, unreadable_facet, zero_width_window, sink_failed,
  context_done, World, Slicer, Outcome, success, failure, Step, step, outcome_of, state_of, Action,
  raise, attempt, modify, bind_outcome, ◌>>=◌, ◌>>◌,
}
use sonar_migration_tool.Slicer.Walk.{
  dates_respected, fetch_issue_window, probe_issue_range, reconcile, close_degraded,
  handle_walk_error, close_by, close_walk, walk_or_degrade, slice_project_issues,
}
use sonar_migration_tool.Slicer.Books.{
  sum_lost, Books, Books-Stable, shortfall_recorded, shortfall_covers,
}
use sonar_migration_tool.Slicer.Counts.{All-Unit}
use sonar_migration_tool.Slicer.Keeps.{Keeps, Stable, degrade-Keeps}
use sonar_migration_tool.Slicer.Keeps.Windows.{
  fetch_issue_window-Keeps, probe_issue_range-Keeps, dates_respected-Keeps,
}
use sonar_migration_tool.Slicer.Requests.{
  probe_window_total, probe_creation_date, degrade, record_shortfall, record_incomplete_slice,
  max_slice_depth,
}
use sonar_migration_tool.Slicer.Plain.{IsRejection, Plain, degrade-Plain}

module _ {ℓ} {A : Type ℓ} (world : World A) where
  -- The truncation is on record, and the items handed on and the losses booked make up the total.
  abbrev pub Recorded : Slicer A → Type 0
  Recorded s =
      (s.records ≡ [] → ⊥) × (s.total_known ≡ true → s.initial_total ≤ s.unique + s.expected_loss)

  -- The check of the dates that this very walk makes, on the range that it has probed and in the
  -- state that the probing left, finds them ignored.
  abbrev pub IgnoresDates : Slicer A → Type ℓ
  IgnoresDates opening =
      (root : IssueWindow) × (s : Slicer A) × (probe_issue_range world
          (record opening { seen = [] })
        ≡ step (success root) s)
      × (outcome_of (dates_respected world root s) ≡ success false)

  -- How an error of the walk from an opening state is reported.
  abbrev pub Reported : Slicer A → Step A (Unit {0}) → Type ℓ
  Reported opening (step (success u) s) = Unit
  Reported opening (step (failure e) s) = (IsRejection e → ⊥) × (Recorded s ⊎ IgnoresDates opening)

  abbrev Booked : Slicer A → Type 0
  Booked s = s.expected_loss ≡ sum_lost s.records

  Recorded-shortfall :
      (reason : SliceReason) (s : Slicer A) → Booked s → Recorded (record_shortfall reason s)
  Recorded-shortfall reason s b = (shortfall_recorded reason s b, shortfall_covers reason s)

module _ {ℓ} {A : Type ℓ} (world : World A) (opening : Slicer A) where
  failed-Reported :
      (e : WalkError) (s : Slicer A)
      → (IsRejection e → ⊥)
      → Booked world s
      → Reported world opening ((modify record_incomplete_slice >> raise e) s)
  unfolding record_incomplete_slice ◌>>=◌
  failed-Reported e s plain b = (plain, inl (Recorded-shortfall world incomplete_slice s b))

  close_degraded-Reported : (s : Slicer A) → Reported world opening (close_degraded world s)
  unfolding close_degraded reconcile probe_window_total safe_to_request ◌>>=◌
  close_degraded-Reported s = tt

  fallen-Reported :
      (fallen : Outcome (Unit {0})) (s : Slicer A)
      → Plain fallen
      → Booked world s
      → let m : Action A (Unit {0}) = elim fallen [
        | failure e ↦ modify record_incomplete_slice >> raise e
        | success u ↦ close_degraded world
      ] in
        Reported world opening (m s)
  fallen-Reported (failure e) s plain b = failed-Reported e s plain b
  fallen-Reported (success u) s plain b = close_degraded-Reported s

  -- A method whose error is a value never ends the method that calls it.
  attempt_then :
      {B : Type 0} (m : Action A B) (f : Outcome B → Action A (Unit {0})) (s : Slicer A)
      → (attempt m >>= f) s ≡ f (outcome_of (m s)) (state_of (m s))
  unfolding ◌>>=◌
  attempt_then {B} m f s = then_of (m s)
    where
      then_of :
          (o : Step A B)
          → bind_outcome (elim o [ step v s' ↦ step (success v) s' ]) f
            ≡ f (outcome_of o) (state_of o)
      then_of (step v s') = refl

  module _ (total : ℕ) (known : Bool) where
    abbrev P : Slicer A → Type ℓ
    P = Books world (λ _. Unit) total known

    stable : Stable world P (All (λ _. Unit))
    stable = Books-Stable world _ _ _ (λ w q stop s res e. All-Unit res.items)

    handle_walk_error-Reported :
        (e : WalkError) (s : Slicer A) → P s → Reported world opening (handle_walk_error world e s)
    unfolding handle_walk_error
    handle_walk_error-Reported (date_bound_rejected w e) s p =
        let m = degrade world dates_rejected in
        subst (Reported world opening) (sym (attempt_then m _ s)) (
          fallen-Reported (outcome_of (m s)) (state_of (m s)) (degrade-Plain world dates_rejected s)
            (degrade-Keeps world P (All (λ _. Unit)) stable dates_rejected s p).booked)
    handle_walk_error-Reported (request_failed e) s p =
        failed-Reported (request_failed e) s (λ h. h) p.booked
    handle_walk_error-Reported unparseable_total s p =
        failed-Reported unparseable_total s (λ h. h) p.booked
    handle_walk_error-Reported unreadable_facet s p =
        failed-Reported unreadable_facet s (λ h. h) p.booked
    handle_walk_error-Reported zero_width_window s p =
        failed-Reported zero_width_window s (λ h. h) p.booked
    handle_walk_error-Reported sink_failed s p = failed-Reported sink_failed s (λ h. h) p.booked
    handle_walk_error-Reported context_done s p = failed-Reported context_done s (λ h. h) p.booked

    close_walk-Reported : (s : Slicer A) → Reported world opening (close_walk world s)
    unfolding close_walk close_degraded reconcile probe_window_total safe_to_request ◌>>=◌
    close_walk-Reported s = closed s.degraded_reason
      where
        closed :
            (degraded : Option SliceReason) → Reported world opening (close_by world degraded s)
        closed none = tt
        closed (some reason) = tt

    walked-Reported :
        (walked : Outcome (Unit {0})) (s : Slicer A)
        → P s
        → let m : Action A (Unit {0}) = elim walked [
          | failure e ↦ handle_walk_error world e
          | success u ↦ close_walk world
        ] in
          Reported world opening (m s)
    walked-Reported (failure e) s p = handle_walk_error-Reported e s p
    walked-Reported (success u) s p = close_walk-Reported s

    ignored-Reported :
        (o : Step A (Unit {0}))
        → Plain (outcome_of o)
        → IgnoresDates world opening
        → Reported world opening (bind_outcome o (λ _. close_degraded world))
    ignored-Reported (step (success u) s) plain ignores = close_degraded-Reported s
    ignored-Reported (step (failure e) s) plain ignores = (plain, inr ignores)

    degraded-Reported :
        (s : Slicer A)
        → IgnoresDates world opening
        → Reported world opening ((degrade world dates_ignored >> close_degraded world) s)
    unfolding ◌>>=◌
    degraded-Reported s ignores =
        ignored-Reported (degrade world dates_ignored s) (degrade-Plain world dates_ignored s)
          ignores

    walk_or_degrade-Reported :
        (walk : Action A (Unit {0})) (respected : Outcome Bool) (s : Slicer A)
        → Keeps P walk
        → P s
        → (respected ≡ success false → IgnoresDates world opening)
        → Reported world opening (walk_or_degrade world walk respected s)
    unfolding walk_or_degrade
    walk_or_degrade-Reported walk (failure e) s k p ignores = handle_walk_error-Reported e s p
    walk_or_degrade-Reported walk (success false) s k p ignores = degraded-Reported s (ignores refl)
    walk_or_degrade-Reported walk (success true) s k p ignores =
        subst (Reported world opening) (sym (attempt_then walk _ s))
          (walked-Reported (outcome_of (walk s)) (state_of (walk s)) (k s p))

    probed :
        (s : Slicer A)
        → (root : IssueWindow) × (s' : Slicer A) × (probe_issue_range world s
            ≡ step (success root) s')
    unfolding probe_issue_range probe_creation_date ◌>>=◌
    probed s = (_, _, refl)

    sliced-Reported :
        (walk : IssueWindow → Action A (Unit {0}))
        → ((root : IssueWindow) → Keeps P (walk root))
        → P (record opening { seen = [] })
        → Reported world opening (
            (probe_issue_range world >>= λ root.
            attempt (dates_respected world root) >>= walk_or_degrade world (walk root))
              (record opening { seen = [] }))
    unfolding ◌>>=◌
    sliced-Reported walk k p =
        let s = record opening { seen = [] } in
        let (root, s', e) = probed s in
        let m = dates_respected world root in
        let p' =
          subst (λ o. P (state_of o)) e
            (probe_issue_range-Keeps world P (All (λ _. Unit)) stable s p) in
        let q = dates_respected-Keeps world P (All (λ _. Unit)) stable root s' p' in
        let inner =
          walk_or_degrade-Reported (walk root) (outcome_of (m s')) (state_of (m s')) (k root) q
            (λ ignored. (root, s', e, ignored)) in
        let rest : IssueWindow → Action A (Unit {0}) =
          λ r. attempt (dates_respected world r) >>= walk_or_degrade world (walk r) in
        subst (Reported world opening) (sym (ap (λ o. bind_outcome o rest) e)) (
          subst (Reported world opening)
            (sym (attempt_then m (walk_or_degrade world (walk root)) s')) inner)

    slice-Reported :
        P (record opening { seen = [] })
        → Reported world opening (slice_project_issues world opening)
    unfolding slice_project_issues ◌>>=◌
    slice-Reported p =
        sliced-Reported (fetch_issue_window world max_slice_depth)
          (fetch_issue_window-Keeps world P (All (λ _. Unit)) stable max_slice_depth) p

-- When a walk returns an error, it is never the server's rejection of a date bound, which is answered
-- by the undated fetch; and a truncation is on record, with which the items handed on and the losses
-- booked make up the opening total, if that is known, or this walk's own check of the dates, on the range
-- that it has probed, has found that the server ignores them.
pub slice_project_issues-Reported {ℓ} :
    {A : Type ℓ} (world : World A) (s : Slicer A)
    → Books world (λ _. Unit) s.initial_total s.total_known (record s { seen = [] })
    → Reported world s (slice_project_issues world s)
slice_project_issues-Reported world s b = slice-Reported world s s.initial_total s.total_known b
