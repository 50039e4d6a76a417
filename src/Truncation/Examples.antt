-- ===== src/Truncation/Examples.antt =====
-- A resumed run whose second attempt lost less in one place and more in another.
use sonar_migration_tool.Common.{ℕ, ◌≡◌, refl, true, String, [], ◌∷◌, ◌++◌, map}
use sonar_migration_tool.Truncation.Defs.{
  ScopedRecord, identity, TruncationState, merge_truncation_states, label,
}
use sonar_migration_tool.Truncation.Merge.{Merged, merge_truncation_states-Merged}
use sonar_migration_tool.Truncation.Again.{merge_truncation_states_idempotent}

abbrev observed : String → ℕ → ScopedRecord
observed project lost = record {
  endpoint = "api/issues/search";
  reason = "atomic_window";
  scope = record { task = "getProjectIssuesFull"; project_key = project; branch = ""; detail = "" };
  total = 12_000;
  total_known = true;
  fetched = 12_000;
  lost = lost;
  page_size = 500;
  page_limit = 20;
  window_start = "";
  window_end = "";
}

abbrev first_run : TruncationState
first_run = record {
  records = observed "a" 7 ∷ observed "b" 2 ∷ [];
  reconciliations = [];
  total_lost = 9;
}

abbrev second_run : TruncationState
second_run = record {
  records = observed "b" 5 ∷ observed "a" 3 ∷ observed "b" 4 ∷ [];
  reconciliations = [];
  total_lost = 0;
}

merged_losses :
    (map (λ r. r.lost) (merge_truncation_states first_run second_run).records ≡ (7 ∷ 5 ∷ []))
    × ((merge_truncation_states first_run second_run).total_lost ≡ 12)
unfolding merge_truncation_states identity
merged_losses = (refl, refl)

merge_truncation_states-Merged_example :
    Merged (first_run.records ++ second_run.records) (merge_truncation_states first_run second_run)
merge_truncation_states-Merged_example = merge_truncation_states-Merged first_run second_run

merge_truncation_states_idempotent_example :
    let merged = merge_truncation_states first_run second_run in
    let again = merge_truncation_states merged second_run in
    (again.records ≡ merged.records) × (again.total_lost ≡ merged.total_lost)
merge_truncation_states_idempotent_example = merge_truncation_states_idempotent first_run second_run

labelled : label (observed "a" 0).scope ≡ "getProjectIssuesFull a"
unfolding label
labelled = refl
