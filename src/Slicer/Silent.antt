-- ===== src/Slicer/Silent.antt =====
-- No silent loss: what fetchProjectIssues of extract/slice.go has delivered when it returns no error
-- and has recorded no truncation.
use mathlib.Core.Path.{subst}
use sonar_migration_tool.Common.{
  ℕ, zero, suc, ◌≡◌, refl, sym, ap, ◌∙◌, Bool, true, false, Option, none, some, List, [], ◌∷◌,
  length, arith, Bool-cases, inl, inr, str_eq, eq_iff, has, NoDup, Subset, Subset_of_length, All, ℤ,
  pos, negsuc,
}
use sonar_migration_tool.Slicer.Windows.{
  IssueWindow, root_issue_window, window_params, safe_to_request,
}
use sonar_migration_tool.Slicer.State.{
  SliceReason, dates_ignored, dates_rejected, WalkError, request_failed, date_bound_rejected,
  unparseable_total, unreadable_facet, zero_width_window, sink_failed, context_done, Response,
  request_error, no_answer, answer_of, World, Slicer, Outcome, success, failure, Step, step, Action,
  outcome_of, state_of, raise, attempt, modify, ◌>>=◌, ◌>>◌,
}
use sonar_migration_tool.Slicer.Requests.{
  record_truncation, read_total, latched_reason, record_degradation, record_incomplete_slice,
  count_slicer_request, probe_window_total, degrade, max_slice_depth,
}
use sonar_migration_tool.Slicer.Reconcile.{unexplained_drift}
use sonar_migration_tool.Slicer.Drift.{unexplained_drift_band}
use sonar_migration_tool.Slicer.Walk.{
  audit_of, record_drift, total_or, reconcile, close_degraded, handle_walk_error, close_by,
  close_walk, walk_or_degrade, probe_issue_range, dates_respected, fetch_issue_window,
  slice_project_issues,
}
use sonar_migration_tool.Slicer.Keeps.{
  Keeps, Leads, bind-Leads, Stable, attempt-Keeps, degrade-Keeps,
}
use sonar_migration_tool.Slicer.Keeps.Windows.{
  fetch_issue_window-Keeps, probe_issue_range-Keeps, dates_respected-Keeps,
}
use sonar_migration_tool.Slicer.Keeps.Endings.{record_shortfall-Keeps}
use sonar_migration_tool.Slicer.Books.{keys_of, sum_lost, Books, shortfall_recorded}

module _ {A : Type 0} (world : World A) (xs : List A) where
  -- An item that has the key of an issue of the list.
  abbrev pub IsNamed : A → Type 0
  IsNamed x =
      (str_eq (world.key_of x) "" ≡ false) × (has (world.key_of x) (keys_of world xs) ≡ true)

  abbrev pub IsKeyed : A → Type 0
  IsKeyed x = str_eq (world.key_of x) "" ≡ false

  -- Each issue of the list is handed on, and none twice.
  abbrev pub Everything : Slicer A → Type 0
  Everything s =
      Subset (keys_of world xs) (keys_of world s.sunk)
      × NoDup (keys_of world s.sunk)
      × (length s.sunk ≡ length xs)

  -- A fetch that ends without an error and without a record is whole.
  abbrev pub Whole : Step A (Unit {0}) → Type 0
  Whole o = outcome_of o ≡ success tt → (state_of o).records ≡ [] → Everything (state_of o)

  length-keys : (ys : List A) → All IsKeyed ys → length (keys_of world ys) ≡ length ys
  unfolding keys_of
  length-keys [] a = refl
  length-keys (y ∷ ys) (k, a) = rw k (ap suc (length-keys ys a))

  named-IsKeyed : (ys : List A) → All IsNamed ys → All IsKeyed ys
  named-IsKeyed [] a = tt
  named-IsKeyed (y ∷ ys) ((k, h), a) = (k, named-IsKeyed ys a)

  named_subset : (ys : List A) → All IsNamed ys → Subset (keys_of world ys) (keys_of world xs)
  unfolding keys_of has
  named_subset [] a s h = absurd (cc)
  named_subset (y ∷ ys) ((k, here), a) s h = elim (Bool-cases (str_eq (world.key_of y) s)) [
    | inl e ↦ subst (λ t. has t (keys_of world xs) ≡ true) ((eq_iff (world.key_of y) s).0 e) here
    | inr e ↦ named_subset ys a s (rw (k, e) at h)
  ]

  abbrev pub P : Slicer A → Type 0
  P = Books world IsNamed (length xs) true

  covered : (s : Slicer A) → All IsKeyed xs → P s → s.unique ≡ length xs → Everything s
  covered s keyed p e =
      let names : All IsNamed s.sunk = p.from in
      let same : length s.sunk ≡ length xs = sym p.counted ∙ e in
      let once : NoDup (keys_of world s.sunk) = subst NoDup p.seen_keys p.seen_once in
      (
        Subset_of_length (keys_of world s.sunk) (keys_of world xs) once (named_subset s.sunk names)
            (omega
              (arith, same, length-keys s.sunk (named-IsKeyed s.sunk names), length-keys xs keyed)),
        once,
        same,
      )

  -- What a method may leave: no value, a record, or everything.
  pub fails_Whole : (e : WalkError) (s : Slicer A) → P s → Whole (step (failure e) s)
  fails_Whole e s p h = absurd (cc)

  module _ (stable : Stable world P (All IsNamed)) (keyed : All IsKeyed xs)
      (counted : (n total : ℕ)
        → world.total_of n (window_params root_issue_window) ≡ answer_of total
        → total ≡ length xs) where
    record_drift-silent :
        (d : ℤ) (s : Slicer A)
        → (record_drift world d s).records ≡ []
        → (d ≡ pos 0) × (s.records ≡ []) × ((record_drift world d s) ≡ s)
    unfolding record_drift record_truncation
    record_drift-silent (pos zero) s e = (refl, e, refl)
    record_drift-silent (pos (suc n)) s e = absurd (cc)
    record_drift-silent (negsuc n) s e = absurd (cc)

    -- A closing probe answers the count, or leaves the opening one.
    after_same :
        (n : ℕ) (r : Response ℕ)
        → world.total_of n (window_params root_issue_window) ≡ r
        → total_or world (length xs) (read_total world root_issue_window r) ≡ length xs
    unfolding read_total
    after_same n (request_error e) h = refl
    after_same n no_answer h = refl
    after_same n (answer_of total) h = counted n total h

    quiet_audit :
        (s : Slicer A) (after : ℕ)
        → P s
        → s.records ≡ []
        → after ≡ length xs
        → unexplained_drift (audit_of world s after) ≡ pos 0
        → s.unique ≡ length xs
    unfolding audit_of
    quiet_audit s after p none_lost e d =
        let (low, high) = (unexplained_drift_band (audit_of world s after)).1.0 d in
        let no_loss : s.expected_loss ≡ 0 = p.booked ∙ ap sum_lost none_lost in
        ground (arith, low, high, no_loss, e, p.total_stays)

    -- What the closing reconciliation leaves unrecorded.
    reconcile-silent :
        (s : Slicer A)
        → P s
        → (state_of (reconcile world s)).records ≡ []
        → (s.records ≡ []) × Everything (state_of (reconcile world s))
    unfolding reconcile probe_window_total safe_to_request count_slicer_request ◌>>=◌
    reconcile-silent s p e =
        let r = world.total_of s.requests (window_params root_issue_window) in
        let after = total_or world s.initial_total (read_total world root_issue_window r) in
        let s1 = count_slicer_request s in
        let (d, none_lost, same) =
          record_drift-silent (unexplained_drift (audit_of world s1 after))
            (record s1 { audits = audit_of world s1 after ∷ s1.audits }) e in
        let fixed : after ≡ length xs =
          ap (λ t. total_or world t (read_total world root_issue_window r)) p.total_stays
          ∙ after_same s.requests r refl in
        let all = covered s keyed p (quiet_audit s1 after p none_lost fixed d) in
        (none_lost, subst Everything (sym same) all)

    pub record_degradation-recorded : (s : Slicer A) → P s → (record_degradation s).records ≡ [] → ⊥
    unfolding record_degradation
    record_degradation-recorded s p e =
        shortfall_recorded (latched_reason s.degraded_reason) s p.booked e

    record_degradation-Keeps : (s : Slicer A) → P s → P (record_degradation s)
    unfolding record_degradation
    record_degradation-Keeps s p =
        record_shortfall-Keeps world P (All IsNamed) stable (latched_reason s.degraded_reason) s p

    -- After a recorded shortfall the reconciliation leaves a record.
    close_degraded-Whole : Leads P Whole (close_degraded world)
    unfolding close_degraded ◌>>=◌
    close_degraded-Whole s p h e =
        let s' = record_degradation s in
        let (none_lost, _) = reconcile-silent s' (record_degradation-Keeps s p) e in
        absurd (record_degradation-recorded s p none_lost)

    failed_Whole : (e : WalkError) → Leads P Whole (modify record_incomplete_slice >> raise e)
    unfolding ◌>>=◌
    failed_Whole e s p h = absurd (cc)

    fallen_Whole :
        (fallen : Outcome (Unit {0}))
        → Leads P Whole (elim fallen [
          | failure e ↦ modify record_incomplete_slice >> raise e
          | success u ↦ close_degraded world
        ])
    fallen_Whole (failure e) = failed_Whole e
    fallen_Whole (success u) = close_degraded-Whole

    handle_walk_error-Whole : (e : WalkError) → Leads P Whole (handle_walk_error world e)
    unfolding handle_walk_error
    handle_walk_error-Whole (date_bound_rejected w e) =
        bind-Leads P Whole _ _ fails_Whole
          (attempt-Keeps P (degrade world dates_rejected)
            (degrade-Keeps world P (All IsNamed) stable dates_rejected))
          fallen_Whole
    handle_walk_error-Whole (request_failed e) = failed_Whole (request_failed e)
    handle_walk_error-Whole unparseable_total = failed_Whole unparseable_total
    handle_walk_error-Whole unreadable_facet = failed_Whole unreadable_facet
    handle_walk_error-Whole zero_width_window = failed_Whole zero_width_window
    handle_walk_error-Whole sink_failed = failed_Whole sink_failed
    handle_walk_error-Whole context_done = failed_Whole context_done

    close_by-Whole : (degraded : Option SliceReason) → Leads P Whole (close_by world degraded)
    close_by-Whole none = λ s p h e. (reconcile-silent s p e).1
    close_by-Whole (some reason) = close_degraded-Whole

    close_walk-Whole : Leads P Whole (close_walk world)
    unfolding close_walk
    close_walk-Whole = bind-Leads P Whole _ _ fails_Whole (λ s p. p) close_by-Whole

    walked_Whole :
        (walked : Outcome (Unit {0}))
        → Leads P Whole
            (elim walked [ failure e ↦ handle_walk_error world e | success u ↦ close_walk world ])
    walked_Whole (failure e) = handle_walk_error-Whole e
    walked_Whole (success u) = close_walk-Whole

    respected_Whole :
        (walk : Action A (Unit {0})) (respected : Outcome Bool)
        → Keeps P walk
        → Leads P Whole (walk_or_degrade world walk respected)
    unfolding walk_or_degrade
    respected_Whole walk (failure e) k = handle_walk_error-Whole e
    respected_Whole walk (success false) k =
        bind-Leads P Whole _ _ fails_Whole
          (degrade-Keeps world P (All IsNamed) stable dates_ignored) (λ _. close_degraded-Whole)
    respected_Whole walk (success true) k =
        bind-Leads P Whole _ _ fails_Whole (attempt-Keeps P walk k) walked_Whole

    probed_Whole :
        (walk : IssueWindow → Action A (Unit {0}))
        → ((root : IssueWindow) → Keeps P (walk root))
        → Leads P Whole (
            probe_issue_range world >>= λ root.
            attempt (dates_respected world root) >>= walk_or_degrade world (walk root))
    probed_Whole walk k =
        bind-Leads P Whole _ _ fails_Whole (probe_issue_range-Keeps world P (All IsNamed) stable)
          (λ root.
            bind-Leads P Whole _ _ fails_Whole
              (attempt-Keeps P (dates_respected world root)
                (dates_respected-Keeps world P (All IsNamed) stable root))
              (λ respected. respected_Whole (walk root) respected (k root)))

    pub slice_project_issues-Whole :
        (s : Slicer A) → P (record s { seen = [] }) → Whole (slice_project_issues world s)
    unfolding slice_project_issues ◌>>=◌
    slice_project_issues-Whole s p =
        probed_Whole (fetch_issue_window world max_slice_depth)
          (fetch_issue_window-Keeps world P (All IsNamed) stable max_slice_depth)
          (record s { seen = [] }) p
