-- ===== src/Slicer/Counts.antt =====
-- The counts of a walk of extract/slice.go.
use sonar_migration_tool.Common.{List, [], ◌∷◌, All}
use sonar_migration_tool.Slicer.State.{World, Slicer, state_of}
use sonar_migration_tool.Slicer.Walk.{slice_project_issues}
use sonar_migration_tool.Slicer.Keeps.Endings.{slice_project_issues-Keeps}
use sonar_migration_tool.Slicer.Books.{Books, AllFrom, Books-Stable}

pub All-Unit {ℓ} : {A : Type ℓ} (xs : List A) → All (λ (x : A). Unit {ℓ}) xs
All-Unit [] = tt
All-Unit (x ∷ xs) = (tt, All-Unit xs)

-- Whatever the world answers, a walk that starts with its counts in order ends with them in order:
-- no key is handed to the sink twice, also if the walk fails; the counts of the items with and without
-- a key are those of the items handed on; the expected loss is the sum of the losses recorded; and the
-- opening total does not change.
pub slice_project_issues-Books {ℓ} :
    {A : Type ℓ} (world : World A) (s : Slicer A)
    → Books world (λ _. Unit) s.initial_total s.total_known (record s { seen = [] })
    → Books world
        (λ _. Unit)
        s.initial_total
        s.total_known
        (state_of (slice_project_issues world s))
slice_project_issues-Books world s b =
    let any_items : AllFrom world (λ _. Unit) s.initial_total s.total_known =
      λ w q stop s' res e. All-Unit res.items in
    slice_project_issues-Keeps world (Books world (λ _. Unit) s.initial_total s.total_known)
      (All (λ _. Unit)) (Books-Stable world _ _ _ any_items) s b
