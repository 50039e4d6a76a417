-- ===== src/Matching/Examples.antt =====
-- Two findings on one file, and the theorems there.
use sonar_migration_tool.Common.{ℕ, ◌≤◌, ◌≡◌, refl, ◌⊎◌, ◌↔◌, true, false, [], ◌∷◌, codes, All}
use sonar_migration_tool.Matching.Defs.{
  Text, same, min3, fill, rows, abs_difference, levenshtein_within, MatchableIssue, cut_colon,
  has_slash, strip_loop, strip_project_key_prefix, issue_match_score, synced, select, is_exact,
  is_approx, classify_issue_candidates_by_score,
}
use sonar_migration_tool.Matching.Align.{Align}
use sonar_migration_tool.Matching.Distance.{levenshtein_within_iff}
use sonar_migration_tool.Matching.Score.{Close, Only, differences, is_approx-Close, classify-Only}

abbrev issue : Text → Text → ℕ → MatchableIssue
issue component message line = record {
  rule = codes "go:S100";
  component = component;
  line = line;
  message = message;
  type_ = codes "BUG";
  severity = codes "MAJOR";
  author = codes "ann";
}

abbrev source : MatchableIssue
source = issue (codes "old:mod:src/a.go") (codes "kitten") 7

abbrev reworded : MatchableIssue
reworded = issue (codes "new:src/a.go") (codes "sitting") 7

abbrev elsewhere : MatchableIssue
elsewhere = issue (codes "new:src/b.go") (codes "kitten") 9

kitten_is_3 : levenshtein_within (codes "kitten") (codes "sitting") 3 ≡ true
unfolding levenshtein_within same abs_difference rows fill min3
kitten_is_3 = refl

kitten_is_not_2 : levenshtein_within (codes "kitten") (codes "sitting") 2 ≡ false
unfolding levenshtein_within same abs_difference rows fill min3
kitten_is_not_2 = refl

synced_run : classify_issue_candidates_by_score (elsewhere ∷ reworded ∷ []) source ≡ synced reworded
unfolding classify_issue_candidates_by_score select is_exact is_approx issue_match_score
    levenshtein_within same abs_difference rows fill min3 strip_project_key_prefix strip_loop
    cut_colon has_slash
synced_run = refl

approx_run : is_approx source reworded ≡ true
unfolding is_approx issue_match_score levenshtein_within same abs_difference rows fill min3
    strip_project_key_prefix strip_loop cut_colon has_slash
approx_run = refl

levenshtein_within_iff_example :
    (levenshtein_within (codes "kitten") (codes "sitting") 3 ≡ true)
    ↔ ((n : ℕ) × (n ≤ 3) × Align (codes "kitten") (codes "sitting") n)
levenshtein_within_iff_example = levenshtein_within_iff (codes "kitten") (codes "sitting") 3

is_approx-Close_example :
    (same source.rule reworded.rule ≡ true)
    × Close source.message reworded.message
    × (differences source reworded ≤ 1)
    × (same source.message reworded.message ≡ false → differences source reworded ≡ 0)
is_approx-Close_example = is_approx-Close source reworded approx_run

classify-Only_example :
    Only (is_exact source) reworded (elsewhere ∷ reworded ∷ [])
    ⊎ (All (λ d. is_exact source d ≡ false) (elsewhere ∷ reworded ∷ [])
        × Only (is_approx source) reworded (elsewhere ∷ reworded ∷ []))
classify-Only_example = classify-Only (elsewhere ∷ reworded ∷ []) source reworded synced_run
