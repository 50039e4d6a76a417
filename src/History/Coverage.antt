-- ===== src/History/Coverage.antt =====
-- buildSyntheticLineCoverage of history.go.
use sonar_migration_tool.Common.{
  ℕ, ◌+◌, ◌-◌, ◌≤◌, ◌≡◌, refl, Bool, true, false, not, Option, none, some, List, [], ◌∷◌, All,
}
use sonar_migration_tool.History.Defs.{LineCoverage, set_conditions}

abbrev one_if : Bool → ℕ
one_if true = 1
one_if false = 0

abbrev has_hits : Option Bool → Bool
has_hits none = false
has_hits (some b) = true

abbrev missed : Option Bool → Bool
missed none = false
missed (some b) = not b

-- What the Compute Engine counts in the records.
abbrev pub lines_counted : List LineCoverage → ℕ
lines_counted [] = 0
lines_counted (lc ∷ lcs) = one_if (has_hits lc.hits) + lines_counted lcs

abbrev pub uncovered_counted : List LineCoverage → ℕ
uncovered_counted [] = 0
uncovered_counted (lc ∷ lcs) = one_if (missed lc.hits) + uncovered_counted lcs

abbrev pub conditions_counted : List LineCoverage → ℕ
conditions_counted [] = 0
conditions_counted (lc ∷ lcs) = lc.conditions + conditions_counted lcs

abbrev covered_of : Option ℕ → ℕ
covered_of none = 0
covered_of (some n) = n

abbrev pub covered_conditions_counted : List LineCoverage → ℕ
covered_conditions_counted [] = 0
covered_conditions_counted (lc ∷ lcs) =
    covered_of lc.covered_conditions + covered_conditions_counted lcs

-- The four figures that the records reproduce, and the lines that they stand on.
pub record Reproduces (lines uncovered conditions uncovered_conditions bound : ℕ)
    (out : List LineCoverage) : Type 0 where
  pub lines_right : lines_counted out ≡ lines
  pub uncovered_right : uncovered_counted out ≡ uncovered
  pub conditions_right : conditions_counted out ≡ conditions
  pub covered_right : covered_conditions_counted out ≡ conditions - uncovered_conditions
  pub inside : All (λ lc. lc.line ≤ bound) out

set_conditions-keeps :
    (c v bound : ℕ) (out : List LineCoverage)
    → (lines_counted (set_conditions c v out) ≡ lines_counted out)
      × (uncovered_counted (set_conditions c v out) ≡ uncovered_counted out)
      × (All (λ lc. lc.line ≤ bound) out → All (λ lc. lc.line ≤ bound) (set_conditions c v out))
set_conditions-keeps c v bound [] = (refl, refl, λ a. a)
set_conditions-keeps c v bound (lc ∷ lcs) = (refl, refl, λ a. a)
