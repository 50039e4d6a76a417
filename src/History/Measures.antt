-- ===== src/History/Measures.antt =====
-- snapshotLineCount and measureIntValue of history.go.
use sonar_migration_tool.Common.{
  ℕ, ◌≤◌, ◌<◌, ◌≡◌, refl, inl, inr, Bool, true, false, Option, none, some, String, str_eq, List, [],
  ◌∷◌, arith, ltb, if◌then◌else◌, ◌||◌, Bool-cases,
}
use sonar_migration_tool.History.Defs.{
  MeasureInput, is_size_key, larger, positive_or, best_size, snapshot_line_count, measure_int_value,
}

larger_least : (b : Bool) (v : Option ℕ) (best : ℕ) → best ≤ (if b then larger v best else best)
larger_least false v best = omega arith
larger_least true none best = omega arith
larger_least true (some v) best = ground arith

positive_or_bound :
    (b : Bool) (v : Option ℕ) (best rest bound : ℕ)
    → b ≡ true
    → rest ≤ bound
    → (if b then larger v best else best) ≤ bound
    → positive_or v rest ≤ bound
positive_or_bound false v best rest bound e h k = absurd (cc)
positive_or_bound true none best rest bound e h k = h
positive_or_bound true (some v) best rest bound e h k = ground (arith, h, k)

third_of_four : (a b c d : Bool) → c ≡ true → (a || (b || (c || d))) ≡ true
third_of_four true b c d e = refl
third_of_four false true c d e = refl
third_of_four false false true d e = refl
third_of_four false false false d e = absurd (cc)

fourth_of_four : (a b c d : Bool) → d ≡ true → (a || (b || (c || d))) ≡ true
fourth_of_four true b c d e = refl
fourth_of_four false true c d e = refl
fourth_of_four false false true d e = refl
fourth_of_four false false false d e = e

best_size_least : (ms : List MeasureInput) (best : ℕ) → best ≤ best_size ms best
unfolding best_size
best_size_least [] best = omega arith
best_size_least (m ∷ ms) best = omega (
  arith,
  best_size_least ms (if is_size_key m.metric_key then larger m.value best else best),
  larger_least (is_size_key m.metric_key) m.value best,
)

best_size-measure_int_value :
    (key : String)
    → ((k : String) → str_eq k key ≡ true → is_size_key k ≡ true)
    → (ms : List MeasureInput) (best : ℕ) → measure_int_value ms key ≤ best_size ms best
unfolding best_size measure_int_value
best_size-measure_int_value key sizes [] best = omega arith
best_size-measure_int_value key sizes (m ∷ ms) best =
    let next = if is_size_key m.metric_key then larger m.value best else best in
    let later = best_size-measure_int_value key sizes ms next in
    elim (Bool-cases (str_eq m.metric_key key)) [
      | inr other ↦ rw other later
      | inl this ↦ rw this (
          positive_or_bound (is_size_key m.metric_key) m.value best (measure_int_value ms key)
            (best_size ms next) (sizes m.metric_key this) later (best_size_least ms next))
    ]

is_lines_to_cover : (k : String) → str_eq k "lines_to_cover" ≡ true → is_size_key k ≡ true
is_lines_to_cover k e =
    third_of_four (str_eq k "lines") (str_eq k "ncloc") (str_eq k "lines_to_cover")
      (str_eq k "duplicated_lines") e

is_duplicated_lines : (k : String) → str_eq k "duplicated_lines" ≡ true → is_size_key k ≡ true
is_duplicated_lines k e =
    fourth_of_four (str_eq k "lines") (str_eq k "ncloc") (str_eq k "lines_to_cover")
      (str_eq k "duplicated_lines") e

at_least_best :
    (best : ℕ) → (best ≤ (if ltb 0 best then best else 1)) × (0 < (if ltb 0 best then best else 1))
at_least_best best = (ground arith, ground arith)

pub snapshot_line_count-lines_to_cover :
    (ms : List MeasureInput) → measure_int_value ms "lines_to_cover" ≤ snapshot_line_count ms
unfolding snapshot_line_count
snapshot_line_count-lines_to_cover ms = omega (
  arith,
  best_size-measure_int_value "lines_to_cover" is_lines_to_cover ms 0,
  (at_least_best (best_size ms 0)).0,
)

pub snapshot_line_count-duplicated_lines :
    (ms : List MeasureInput) → measure_int_value ms "duplicated_lines" ≤ snapshot_line_count ms
unfolding snapshot_line_count
snapshot_line_count-duplicated_lines ms = omega (
  arith,
  best_size-measure_int_value "duplicated_lines" is_duplicated_lines ms 0,
  (at_least_best (best_size ms 0)).0,
)

pub snapshot_line_count_positive : (ms : List MeasureInput) → 0 < snapshot_line_count ms
unfolding snapshot_line_count
snapshot_line_count_positive ms = (at_least_best (best_size ms 0)).1
