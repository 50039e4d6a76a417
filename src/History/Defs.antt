-- ===== src/History/Defs.antt =====
-- The synthetic coverage and duplication of a historical point in history.go. A measure's value is
-- what ParseInt reads in it, `none` where it fails or the number is negative. The numbers are below
-- 2 ^ 31, the bound that ParseInt is given.
use sonar_migration_tool.Common.{
  ℕ, zero, suc, ◌+◌, ◌-◌, ◌*◌, ◌/◌, Bool, not, Option, none, some, String, str_eq, List, [], ◌∷◌,
  ltb, ◌==◌, if◌then◌else◌, ◌||◌, ◌&&◌,
}

-- MeasureInput, as far as it is read here.
pub record MeasureInput : Type 0 where
  pub metric_key : String
  pub value : Option ℕ

abbrev pub is_size_key : String → Bool
is_size_key key =
    str_eq key "lines"
    || (str_eq key "ncloc" || (str_eq key "lines_to_cover" || str_eq key "duplicated_lines"))

abbrev pub larger : Option ℕ → ℕ → ℕ
larger none best = best
larger (some v) best = if ltb best v then v else best

unfoldable pub best_size : List MeasureInput → ℕ → ℕ
best_size [] best = best
best_size (m ∷ ms) best =
    best_size ms (if is_size_key m.metric_key then larger m.value best else best)

-- snapshotLineCount
unfoldable pub snapshot_line_count : List MeasureInput → ℕ
unfolding best_size
snapshot_line_count measures = let best = best_size measures 0 in if ltb 0 best then best else 1

abbrev pub positive_or : Option ℕ → ℕ → ℕ
positive_or none rest = rest
positive_or (some v) rest = if ltb 0 v then v else rest

-- measureIntValue
unfoldable pub measure_int_value : List MeasureInput → String → ℕ
measure_int_value [] key = 0
measure_int_value (m ∷ ms) key =
    let rest = measure_int_value ms key in
    if str_eq m.metric_key key then positive_or m.value rest else rest

-- clamp
unfoldable pub clamp : ℕ → ℕ → ℕ
clamp v max = if ltb max v then max else v

-- pb.LineCoverage: `hits` and `covered_conditions` are the optional ones.
pub record LineCoverage : Type 0 where
  pub line : ℕ
  pub hits : Option Bool
  pub conditions : ℕ
  pub covered_conditions : Option ℕ

-- The loop of buildCoverageLines, with `left` lines to go, from index i.
unfoldable pub coverage_lines_from : ℕ → ℕ → ℕ → ℕ → List LineCoverage
coverage_lines_from zero i lines_to_cover uncovered_lines = []
coverage_lines_from (suc left) i lines_to_cover uncovered_lines =
    record {
      line = i + 1;
      hits = if ltb i lines_to_cover then some (not (ltb i uncovered_lines)) else none;
      conditions = 0;
      covered_conditions = none;
    }
    ∷ coverage_lines_from left (suc i) lines_to_cover uncovered_lines

-- buildCoverageLines
unfoldable pub build_coverage_lines : ℕ → ℕ → ℕ → List LineCoverage
unfolding coverage_lines_from
build_coverage_lines n lines_to_cover uncovered_lines =
    coverage_lines_from n 0 lines_to_cover uncovered_lines

abbrev pub set_conditions : ℕ → ℕ → List LineCoverage → List LineCoverage
set_conditions conditions covered [] = []
set_conditions conditions covered (lc ∷ lcs) =
    record lc { conditions = conditions; covered_conditions = some covered } ∷ lcs

-- buildSyntheticLineCoverage, of the four measures.
unfoldable pub line_coverage_of : ℕ → ℕ → ℕ → ℕ → List LineCoverage
unfolding build_coverage_lines
line_coverage_of lines_to_cover uncovered_lines conditions_to_cover uncovered_conditions =
    if lines_to_cover == 0 && conditions_to_cover == 0
    then []
    else let n = if lines_to_cover == 0 then 1 else lines_to_cover in
      let out = build_coverage_lines n lines_to_cover uncovered_lines in
      if ltb 0 conditions_to_cover
      then set_conditions conditions_to_cover (conditions_to_cover - uncovered_conditions) out
      else out

-- buildSyntheticLineCoverage
unfoldable pub build_synthetic_line_coverage : List MeasureInput → List LineCoverage
unfolding line_coverage_of measure_int_value clamp
build_synthetic_line_coverage measures =
    let lines_to_cover = measure_int_value measures "lines_to_cover" in
    let conditions_to_cover = measure_int_value measures "conditions_to_cover" in
    line_coverage_of lines_to_cover
      (clamp (measure_int_value measures "uncovered_lines") lines_to_cover) conditions_to_cover
      (clamp (measure_int_value measures "uncovered_conditions") conditions_to_cover)

-- The buckets of distributeInt: n - 1 of the base size, and the last with what is left of the total.
unfoldable pub buckets : ℕ → ℕ → ℕ → List ℕ
buckets zero base last = []
buckets (suc zero) base last = last ∷ []
buckets (suc (suc n)) base last = base ∷ buckets (suc n) base last

-- distributeInt, for totals that are not negative.
unfoldable pub distribute_int : ℕ → ℕ → List ℕ
unfolding buckets
distribute_int total n = let base = total / n in buckets n base (base + (total - base * n))

-- pb.TextRange, by its lines.
pub record TextRange : Type 0 where
  pub start_line : ℕ
  pub end_line : ℕ

-- The loop that lays the ranges out, from the given line.
unfoldable pub ranges_from : ℕ → List ℕ → List TextRange
ranges_from line [] = []
ranges_from line (size ∷ sizes) =
    record { start_line = line; end_line = line + size - 1 } ∷ ranges_from (line + size) sizes

-- buildSyntheticDuplication: the origin and the duplicates of the one Duplication, in order; none of
-- them where it returns nil.
unfoldable pub duplication_of : ℕ → ℕ → List TextRange
unfolding ranges_from distribute_int clamp
duplication_of duplicated_lines duplicated_blocks =
    if ltb duplicated_lines 2 || ltb duplicated_blocks 2
    then []
    else ranges_from 1 (distribute_int duplicated_lines (clamp duplicated_blocks duplicated_lines))

unfoldable pub build_synthetic_duplication : List MeasureInput → List TextRange
unfolding duplication_of measure_int_value
build_synthetic_duplication measures =
    duplication_of (measure_int_value measures "duplicated_lines")
      (measure_int_value measures "duplicated_blocks")
