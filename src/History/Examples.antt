-- ===== src/History/Examples.antt =====
-- A point with coverage and duplication, and the theorems there.
use sonar_migration_tool.Common.{
  ◌+◌, ◌≤◌, ◌<◌, ◌≡◌, refl, ◌⊎◌, true, false, none, some, List, [], ◌∷◌,
}
use sonar_migration_tool.History.Defs.{
  MeasureInput, snapshot_line_count, measure_int_value, clamp, coverage_lines_from,
  build_coverage_lines, line_coverage_of, build_synthetic_line_coverage, buckets, distribute_int,
  ranges_from, duplication_of, build_synthetic_duplication,
}
use sonar_migration_tool.History.Duplication.{count, Tiles, build_synthetic_duplication-Tiles}

abbrev measures : List MeasureInput
measures =
    record { metric_key = "lines"; value = some 5 }
    ∷ record { metric_key = "lines_to_cover"; value = some 2 }
    ∷ record { metric_key = "uncovered_lines"; value = some 1 }
    ∷ record { metric_key = "conditions_to_cover"; value = some 4 }
    ∷ record { metric_key = "uncovered_conditions"; value = none }
    ∷ record { metric_key = "duplicated_lines"; value = some 7 }
    ∷ record { metric_key = "duplicated_blocks"; value = some 3 }
    ∷ []

coverage_run :
    build_synthetic_line_coverage measures
    ≡ record { line = 1; hits = some false; conditions = 4; covered_conditions = some 4 }
      ∷ record { line = 2; hits = some true; conditions = 0; covered_conditions = none }
      ∷ []
unfolding build_synthetic_line_coverage line_coverage_of build_coverage_lines coverage_lines_from
    measure_int_value clamp
coverage_run = refl

duplication_run :
    build_synthetic_duplication measures
    ≡ record { start_line = 1; end_line = 2 }
      ∷ record { start_line = 3; end_line = 4 }
      ∷ record { start_line = 5; end_line = 7 }
      ∷ []
unfolding build_synthetic_duplication duplication_of ranges_from distribute_int buckets
    measure_int_value clamp
duplication_run = refl

build_synthetic_duplication-Tiles_example :
    (2 ≤ measure_int_value measures "duplicated_lines"
      → 2 ≤ measure_int_value measures "duplicated_blocks"
      → Tiles 1
          (build_synthetic_duplication measures)
          (1 + measure_int_value measures "duplicated_lines")
        × (count (build_synthetic_duplication measures)
            ≡ clamp
                (measure_int_value measures "duplicated_blocks")
                (measure_int_value measures "duplicated_lines"))
        × (measure_int_value measures "duplicated_lines" ≤ snapshot_line_count measures))
    × ((measure_int_value measures "duplicated_lines" < 2)
          ⊎ (measure_int_value measures "duplicated_blocks" < 2)
        → build_synthetic_duplication measures ≡ [])
build_synthetic_duplication-Tiles_example = build_synthetic_duplication-Tiles measures
