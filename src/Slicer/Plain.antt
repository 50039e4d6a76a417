-- ===== src/Slicer/Plain.antt =====
-- The fetches without dates of extract/slice.go: none of them ends in a rejection of a date bound.

use sonar_migration_tool.Common.{
  true, false, Option, none, some, List, [], ◌∷◌, inl, inr, Bool-cases,
}
use sonar_migration_tool.Fallback.Defs.{
  FetchError, http_error, other_error, Fetched, get_paginated_result,
}
use sonar_migration_tool.Slicer.Windows.{root_issue_window, safe_to_request, window_params}
use sonar_migration_tool.Slicer.State.{
  SliceReason, WalkError, date_bound_rejected, World, Slicer, Outcome, success, failure, Step, step,
  outcome_of, Action, bind_outcome, ◌>>=◌,
}
use sonar_migration_tool.Slicer.Requests.{
  as_date_bound_rejection, take_in, run_search, issue_search, fetch_window, absorb_loop,
  absorb_fresh, give_to_sink, absorb, latch, fall_back, degrade,
}

abbrev pub IsRejection : WalkError → Type 0
IsRejection (date_bound_rejected w e) = Unit
IsRejection e = ⊥

-- No rejection of a date bound.
abbrev pub Plain {κ} : {B : Type κ} → Outcome B → Type 0
Plain (success b) = Unit
Plain (failure e) = IsRejection e → ⊥

abbrev pub NeverRejects {ℓ κ} : {A : Type ℓ} {B : Type κ} → Action A B → Type ℓ
NeverRejects {A} m = (s : Slicer A) → Plain (outcome_of (m s))

module _ {ℓ κ κ'} {A : Type ℓ} {B : Type κ} {C : Type κ'} where
  bind_outcome-Plain :
      (o : Step A B) (f : B → Action A C)
      → Plain (outcome_of o)
      → ((b : B) → NeverRejects (f b))
      → Plain (outcome_of (bind_outcome o f))
  bind_outcome-Plain (step (success b) s) f h k = k b s
  bind_outcome-Plain (step (failure e) s) f h k = h

  pub bind-NeverRejects :
      (m : Action A B) (f : B → Action A C)
      → NeverRejects m
      → ((b : B) → NeverRejects (f b))
      → NeverRejects (m >>= f)
  unfolding ◌>>=◌
  bind-NeverRejects m f h k s = bind_outcome-Plain (m s) f (h s) k

-- A request without dates is never tagged.
undated_plain : (e : FetchError) → IsRejection (as_date_bound_rejection root_issue_window e) → ⊥
unfolding as_date_bound_rejection
undated_plain (http_error status elapsed) h = h
undated_plain other_error h = h

module _ {ℓ} {A : Type ℓ} (world : World A) where
  pub take_in-Plain :
      (s : Slicer A) (o : Option (Fetched A))
      → Plain (outcome_of (take_in world root_issue_window s o))
  unfolding take_in
  take_in-Plain s none = λ h. h
  take_in-Plain s (some (Fetched.ok res table)) = tt
  take_in-Plain s (some (Fetched.failed n l m k)) = undated_plain k

  fetch_root-Plain : NeverRejects (fetch_window world root_issue_window false)
  unfolding fetch_window run_search safe_to_request
  fetch_root-Plain s = take_in-Plain s (
      get_paginated_result (issue_search world s.requests (window_params root_issue_window) false)
        s.table)

  absorb_fresh-Plain : (o : List A × Slicer A) → Plain (outcome_of (absorb_fresh world o))
  unfolding absorb_fresh give_to_sink
  absorb_fresh-Plain ([], s) = tt
  absorb_fresh-Plain (x ∷ fresh, s) = elim (Bool-cases (world.sink_fails s.chunks)) [
    | inl broken ↦ simp (broken) (λ h. h)
    | inr fine ↦ simp (fine) tt
  ]

  absorb-Plain : (items : List A) → NeverRejects (absorb world items)
  unfolding absorb
  absorb-Plain items s = absorb_fresh-Plain (absorb_loop world items [] s)

  pub degrade-Plain : (reason : SliceReason) → NeverRejects (degrade world reason)
  unfolding degrade fall_back
  degrade-Plain reason s = elim (Bool-cases s.fell_back) [
    | inl fallen ↦ simp (fallen) tt
    | inr first ↦ simp (first) (
        bind-NeverRejects _ _ fetch_root-Plain
          (λ res. bind-NeverRejects _ _ (λ _. tt) (λ _. absorb-Plain res.items))
          (record (latch reason s) { fell_back = true }))
  ]
