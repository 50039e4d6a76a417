-- ===== src/Slicer/Keeps.antt =====
-- What a walk of extract/slice.go keeps: a property of the state that its requests, its absorption of
-- items and its records keep is kept by each of its methods, whatever the server answers.
pub mod Cells
pub mod Windows
pub mod Endings
use mathlib.Core.Path.{subst}
use sonar_migration_tool.Common.{
  ℕ, zero, suc, ◌≡◌, refl, ap, Bool, true, false, Option, none, some, String, List, [], ◌∷◌, length,
  ltb, leb, ◌==◌, ◌||◌, if◌then◌else◌, Bool-cases, Option-cases, ◌⊎◌, inl, inr,
}
use sonar_migration_tool.Fallback.Defs.{PageResult, other_error}
use sonar_migration_tool.Slicer.Windows.{
  IssueWindow, root_issue_window, safe_to_request, Query, window_params, facet_params, splittable,
  split_window,
}
use sonar_migration_tool.Slicer.State.{
  SliceReason, TruncationRecord, Reconciliation, FacetValue, WalkError, World, Slicer, Outcome,
  success, failure, Step, step, outcome_of, state_of, Action, pure, raise, attempt, modify,
  bind_outcome, ◌>>=◌, ◌>>◌, for_each,
}
use sonar_migration_tool.Slicer.Requests.{
  record_truncation, count_window, count_slicer_request, absorb, run_search, fetch_window,
  probe_window_total, probe_creation_date, latch, fall_back, degrade,
}
use sonar_migration_tool.Slicer.Facets.{
  Filters, probe_facet, fetch_and_absorb_cell, record_give_up, give_up_on_window,
  fetch_cell_or_error, fetch_cell, fetch_by_remaining_facets, over_facet, fetch_type_cell,
  fetch_by_facets, is_unusable_facet, IssueTaxonomy, facet_cascade_order, standard_taxonomy,
  mqr_taxonomy,
}
use sonar_migration_tool.Slicer.Walk.{
  fetch_window_items, widen_open_edge, fetch_closed_window, fetch_atomic_window, check_context,
  fetch_issue_window, probe_issue_range, dates_respected,
}

success-inj {κ} : {B : Type κ} (a b : B) → ◌≡◌ {A = Outcome B} (success a) (success b) → a ≡ b
success-inj a b e = ap (λ (o : Outcome _). elim o [ success x ↦ x | failure k ↦ a ]) e

module _ {ℓ κ ι} {A : Type ℓ} {B : Type κ} where
  -- A method whose end, also with an error, satisfies P where its start does.
  abbrev pub Keeps : (Slicer A → Type ι) → Action A B → Type (ℓ ⊔ ι)
  Keeps P m = (s : Slicer A) → P s → P (state_of (m s))

  -- Such a method whose value, if it has one, satisfies Q.
  abbrev pub Gives : (Slicer A → Type ι) → (B → Type ι) → Action A B → Type (ℓ ⊔ κ ⊔ ι)
  Gives P Q m =
      (s : Slicer A) → P s → P (state_of (m s)) × ((b : B) → outcome_of (m s) ≡ success b → Q b)

module _ {ℓ κ κ' ι} {A : Type ℓ} {B : Type κ} {C : Type κ'} (P : Slicer A → Type ι) where
  bind_outcome-Keeps :
      (o : Step A B) (f : B → Action A C)
      → P (state_of o)
      → ((b : B) → outcome_of o ≡ success b → Keeps P (f b))
      → P (state_of (bind_outcome o f))
  bind_outcome-Keeps (step (success b) s) f p k = k b refl s p
  bind_outcome-Keeps (step (failure e) s) f p k = p

  pub bind-Keeps :
      (m : Action A B) (f : B → Action A C)
      → Keeps P m
      → ((b : B) → Keeps P (f b))
      → Keeps P (m >>= f)
  unfolding ◌>>=◌
  bind-Keeps m f k h s p = bind_outcome-Keeps (m s) f (k s p) (λ b e. h b)

  pub bind-Gives :
      (Q : B → Type ι) (m : Action A B) (f : B → Action A C)
      → Gives P Q m
      → ((b : B) → Q b → Keeps P (f b))
      → Keeps P (m >>= f)
  unfolding ◌>>=◌
  bind-Gives Q m f k h s p = bind_outcome-Keeps (m s) f (k s p).0 (λ b e. h b ((k s p).1 b e))

module _ {ℓ ι} {A : Type ℓ} {B : Type 0} (P : Slicer A → Type ι) where
  pub for_each-Keeps :
      (body : B → Action A (Unit {0})) (bs : List B)
      → ((b : B) → Keeps P (body b))
      → Keeps P (for_each body bs)
  unfolding for_each
  for_each-Keeps body [] k = λ s p. p
  for_each-Keeps body (b ∷ bs) k = bind-Keeps P _ _ (k b) (λ _. for_each-Keeps body bs k)

-- What a property must be kept by. The items of a fetch satisfy Fit.
pub record Stable {ℓ ι} {A : Type ℓ} (world : World A) (P : Slicer A → Type ι)
    (Fit : List A → Type ι) : Type (ℓ ⊔ ι) where
  pub on_search :
      (w : IssueWindow) (q : Query) (stop : Bool)
      → Gives P (λ res. Fit res.items) (run_search world w q stop)
  pub on_absorb : (items : List A) → Fit items → Keeps P (absorb world items)
  pub on_window : (s : Slicer A) → P s → P (count_window s)
  pub on_request : (s : Slicer A) → P s → P (count_slicer_request s)
  pub on_record : (rec : TruncationRecord) (s : Slicer A) → P s → P (record_truncation rec s)
  pub on_latch : (reason : SliceReason) (s : Slicer A) → P s → P (latch reason s)
  pub on_fall_back : (s : Slicer A) → P s → P (record s { fell_back = true })
  pub on_audit :
      (audit : Reconciliation) (s : Slicer A) → P s → P (record s { audits = audit ∷ s.audits })

module _ {ℓ ι} {A : Type ℓ} (world : World A) (P : Slicer A → Type ι) (Fit : List A → Type ι)
    (stable : Stable world P Fit) where
  pub fetch_window-Gives :
      (w : IssueWindow) (stop : Bool) → Gives P (λ res. Fit res.items) (fetch_window world w stop)
  unfolding fetch_window
  fetch_window-Gives w stop s p = elim (Bool-cases (safe_to_request w)) [
    | inl safe ↦ rw safe (stable.on_search w (window_params w) stop s p)
    | inr unsafe ↦ rw unsafe (p, λ b e. absurd (cc))
  ]

  pub probe_window_total-Keeps : (w : IssueWindow) → Keeps P (probe_window_total world w)
  unfolding probe_window_total
  probe_window_total-Keeps w s p = elim (Bool-cases (safe_to_request w)) [
    | inl safe ↦ rw safe (stable.on_request s p)
    | inr unsafe ↦ rw unsafe p
  ]

  pub probe_creation_date-Keeps :
      (w : IssueWindow) (oldest_first : Bool) → Keeps P (probe_creation_date world w oldest_first)
  unfolding probe_creation_date
  probe_creation_date-Keeps w oldest_first s p = stable.on_request s p

  pub modify_window-Keeps : Keeps P (modify count_window)
  modify_window-Keeps s p = stable.on_window s p

  pub absorb_window-Keeps :
      (items : List A) → Fit items → Keeps P (modify count_window >> absorb world items)
  absorb_window-Keeps items fit =
      bind-Keeps P _ _ modify_window-Keeps (λ _. stable.on_absorb items fit)

  fall_back-Keeps : Keeps P (fall_back world)
  unfolding fall_back
  fall_back-Keeps =
      bind-Gives P _ _ _ (fetch_window-Gives root_issue_window false)
        (λ res fit. absorb_window-Keeps res.items fit)

  pub degrade-Keeps : (reason : SliceReason) → Keeps P (degrade world reason)
  unfolding degrade
  degrade-Keeps reason s p = elim (Bool-cases s.fell_back) [
    | inl fallen ↦ simp (fallen) (stable.on_latch reason s p)
    | inr first ↦ simp (first) (
        fall_back-Keeps (record (latch reason s) { fell_back = true })
          (stable.on_fall_back (latch reason s) (stable.on_latch reason s p)))
  ]

-- The tests of a method.
module _ {ℓ κ ι} {A : Type ℓ} {B : Type κ} (P : Slicer A → Type ι) where
  pub test-Keeps :
      (b : Bool) (m n : Action A B)
      → (b ≡ true → Keeps P m)
      → (b ≡ false → Keeps P n)
      → Keeps P (elim b [ true ↦ m | false ↦ n ])
  test-Keeps true m n k h = k refl
  test-Keeps false m n k h = h refl

  pub test-Gives :
      (Q : B → Type ι) (b : Bool) (m n : Action A B)
      → Gives P Q m
      → Gives P Q n
      → Gives P Q (elim b [ true ↦ m | false ↦ n ])
  test-Gives Q true m n k h = k
  test-Gives Q false m n k h = h

  pub raise-Gives : (Q : B → Type ι) (e : WalkError) → Gives P Q (raise e)
  raise-Gives Q e s p = (p, λ b k. absurd (cc))

  pub pure-Gives : (Q : B → Type ι) (b : B) → Q b → Gives P Q (pure b)
  pure-Gives Q b q s p = (p, λ b' e. subst Q (success-inj b b' e) q)

module _ {ℓ κ κ' ι} {A : Type ℓ} {B : Type κ} {C : Type κ'} (P : Slicer A → Type ι) where
  pub outcome-Keeps :
      (o : Outcome C) (f : WalkError → Action A B) (g : C → Action A B)
      → ((e : WalkError) → Keeps P (f e))
      → ((c : C) → Keeps P (g c))
      → Keeps P (elim o [ failure e ↦ f e | success c ↦ g c ])
  outcome-Keeps (failure e) f g k h = k e
  outcome-Keeps (success c) f g k h = h c

  pub option-Keeps :
      (o : Option C) (m : Action A B) (g : C → Action A B)
      → Keeps P m
      → ((c : C) → Keeps P (g c))
      → Keeps P (elim o [ none ↦ m | some c ↦ g c ])
  option-Keeps none m g k h = k
  option-Keeps (some c) m g k h = h c

  bind_outcome-Gives :
      (Q : C → Type ι) (o : Step A B) (f : B → Action A C)
      → P (state_of o)
      → ((b : B) → outcome_of o ≡ success b → Gives P Q (f b))
      → P (state_of (bind_outcome o f))
        × ((c : C) → outcome_of (bind_outcome o f) ≡ success c → Q c)
  bind_outcome-Gives Q (step (success b) s) f p k = k b refl s p
  bind_outcome-Gives Q (step (failure e) s) f p k = (p, λ c h. absurd (cc))

  -- A chain of two such methods.
  pub chain-Gives :
      (R : B → Type ι) (Q : C → Type ι) (m : Action A B) (f : B → Action A C)
      → Gives P R m
      → ((b : B) → R b → Gives P Q (f b))
      → Gives P Q (m >>= f)
  unfolding ◌>>=◌
  chain-Gives R Q m f k h s p = bind_outcome-Gives Q (m s) f (k s p).0 (λ b e. h b ((k s p).1 b e))

module _ {ℓ κ ι} {A : Type ℓ} {C : Type κ} (P : Slicer A → Type ι) where
  pub then-Gives :
      (Q : C → Type ι) (m : Action A (Unit {0})) (n : Action A C)
      → Keeps P m
      → Gives P Q n
      → Gives P Q (m >> n)
  unfolding ◌>>=◌
  then-Gives Q m n k h s p = bind_outcome-Gives P Q (m s) (λ _. n) (k s p) (λ _ _. h)

  pub attempt-Keeps : (m : Action A C) → Keeps P m → Keeps P (attempt m)
  attempt-Keeps m k s p = keeps_in (m s) (k s p)
    where
      keeps_in :
          (o : Step A C)
          → P (state_of o)
          → P (state_of (elim o [ step v s' ↦ step (success v) s' ]))
      keeps_in (step v s') p' = p'

-- Methods whose end satisfies Q, where their start satisfies P.
abbrev pub Leads {ℓ κ ι} :
    {A : Type ℓ} {C : Type κ}
    → (Slicer A → Type ι)
    → (Step A C → Type ι)
    → Action A C
    → Type (ℓ ⊔ ι)
Leads {A} P Q m = (s : Slicer A) → P s → Q (m s)

module _ {ℓ κ κ' ι} {A : Type ℓ} {B : Type κ} {C : Type κ'} (P : Slicer A → Type ι)
    (Q : Step A C → Type ι) where
  bind_outcome-Leads :
      (o : Step A B) (f : B → Action A C)
      → ((e : WalkError) (s : Slicer A) → P s → Q (step (failure e) s))
      → P (state_of o)
      → ((b : B) → outcome_of o ≡ success b → Leads P Q (f b))
      → Q (bind_outcome o f)
  bind_outcome-Leads (step (success b) s) f fails p k = k b refl s p
  bind_outcome-Leads (step (failure e) s) f fails p k = fails e s p

  pub bind-Leads :
      (m : Action A B) (f : B → Action A C)
      → ((e : WalkError) (s : Slicer A) → P s → Q (step (failure e) s))
      → Keeps P m
      → ((b : B) → Leads P Q (f b))
      → Leads P Q (m >>= f)
  unfolding ◌>>=◌
  bind-Leads m f fails k h s p = bind_outcome-Leads (m s) f fails (k s p) (λ b e. h b)

pub test-Leads {ℓ κ ι} :
    {A : Type ℓ} {C : Type κ} (P : Slicer A → Type ι) (Q : Step A C → Type ι) (b : Bool)
    (m n : Action A C)
    → (b ≡ true → Leads P Q m)
    → (b ≡ false → Leads P Q n)
    → Leads P Q (elim b [ true ↦ m | false ↦ n ])
test-Leads P Q true m n k h = k refl
test-Leads P Q false m n k h = h refl
