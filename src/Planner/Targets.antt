-- ===== src/Planner/Targets.antt =====
-- Which tasks a run starts from: go/internal/migrate/planner.go, go/internal/extract/planner.go and
-- ExcludedTasks of go/internal/common/objects.go.
use Prim.Native.String.{len}
use text.Mathlib.Text.{starts_with, find?}
use sonar_migration_tool.Common.{
  Bool, true, false, not, ◌&&◌, ◌||◌, Option, none, some, List, [], ◌∷◌, ◌++◌, String, str_eq, has,
  keep, if◌then◌else◌, ltb,
}
use sonar_migration_tool.Planner.Defs.{Registry, sort}

-- `strings.Contains(s, sub)`
unfoldable pub contains : String → String → Bool
contains s sub = elim (find? s sub) [ none ↦ false | some i ↦ true ]

abbrev pub migrate_project_data_tasks : List String
migrate_project_data_tasks = "importProjectData" ∷ "syncHotspotMetadata" ∷ "syncIssueMetadata" ∷ []

abbrev pub migrate_issue_sync_tasks : List String
migrate_issue_sync_tasks = "syncHotspotMetadata" ∷ "syncIssueMetadata" ∷ []

-- MigrateTargetTasksFlags
pub record Flags : Type 0 where
  pub skip_profiles : Bool
  pub include_project_data : Bool
  pub skip_issue_sync : Bool
  pub skip_project_data_migration : Bool

-- The loop over `excludePrefixes`.
unfoldable pub has_excluded_prefix : String → Bool
has_excluded_prefix name =
    starts_with name "get" || (starts_with name "delete" || starts_with name "reset")

-- isExcludedTask
unfoldable pub is_excluded_task : String → Flags → Bool
is_excluded_task name flags =
    if has_excluded_prefix name
    then true
    else if flags.skip_profiles && (contains name "Profile" || contains name "profile")
    then true
    else if flags.skip_project_data_migration && has name migrate_project_data_tasks
    then true
    else if has name migrate_project_data_tasks && not flags.include_project_data
    then true
    else if flags.skip_issue_sync && has name migrate_issue_sync_tasks
    then true
    else false

-- The tasks of every category that is not selected; `none` is the nil map, which selects all.
abbrev pub Categories : Type 0
Categories = List (String × List String)

unfoldable pub tasks_not_selected : Categories → List String → List String
tasks_not_selected [] selected = []
tasks_not_selected ((category, tasks) ∷ rest) selected =
    let excluded = tasks_not_selected rest selected in
    if has category selected then excluded else tasks ++ excluded

-- ExcludedTasks
unfoldable pub excluded_tasks : Categories → Option (List String) → List String
unfolding tasks_not_selected
excluded_tasks categories none = []
excluded_tasks categories (some selected) = tasks_not_selected categories selected

unfoldable pub explicit_keeps : Flags → String → Bool
explicit_keeps flags name =
    if flags.skip_project_data_migration && has name migrate_project_data_tasks
    then false
    else if flags.skip_issue_sync && has name migrate_issue_sync_tasks
    then false
    else true

-- filterExplicitTargetTasks
unfoldable pub filter_explicit_target_tasks : List String → Flags → List String
unfolding explicit_keeps keep
filter_explicit_target_tasks target_tasks flags = keep (explicit_keeps flags) target_tasks

unfoldable pub names {ℓ} : {T : Type ℓ} → Registry T → List String
names [] = []
names ((name, def) ∷ reg) = name ∷ names reg

unfoldable pub default_keeps : Categories → Flags → Option (List String) → String → Bool
default_keeps categories flags objects name =
    if is_excluded_task name flags
    then false
    else if has name (excluded_tasks categories objects)
    then false
    else true

-- defaultMigrateTargetTasks
unfoldable pub default_migrate_target_tasks {ℓ} :
    {T : Type ℓ} → Categories → Registry T → Flags → Option (List String) → List String
unfolding default_keeps names keep
default_migrate_target_tasks categories reg flags objects =
    sort (keep (default_keeps categories flags objects) (names reg))

-- MigrateTargetTasks
unfoldable pub migrate_target_tasks {ℓ} :
    {T : Type ℓ}
    → Categories
    → Registry T
    → String
    → Flags
    → List String
    → Option (List String)
    → List String
migrate_target_tasks categories reg target_task flags (t ∷ ts) objects =
    filter_explicit_target_tasks (t ∷ ts) flags
migrate_target_tasks categories reg target_task flags [] objects =
    if str_eq target_task ""
    then default_migrate_target_tasks categories reg flags objects
    else target_task ∷ []

abbrev pub project_data_task_names : List String
project_data_task_names =
    "getProjectIssuesFull" ∷ "getProjectComponentTree" ∷ "getProjectSourceCode"
    ∷ "getProjectSCMData" ∷ "getProjectHotspotsFull" ∷ "getProjectVersions"
    ∷ "getProjectAnalysisHistory" ∷ []

abbrev pub issue_count_task_names : List String
issue_count_task_names = "getProjectIssues" ∷ "getAcceptedIssues" ∷ "getSafeHotspots" ∷ []

-- DropIssueCountTasks
unfoldable pub drop_issue_count_tasks : List String → List String
unfolding keep
drop_issue_count_tasks targets = keep (λ name. not (has name issue_count_task_names)) targets

unfoldable pub extract_keeps : Categories → Bool → Option (List String) → String → Bool
extract_keeps categories include_project_data objects name =
    if ltb 3 (len name) && starts_with name "get"
    then (if has name project_data_task_names && not include_project_data
        then false
        else if has name (excluded_tasks categories objects)
        then false
        else true)
    else false

-- targetTasks of the extract command.
unfoldable pub target_tasks {ℓ} :
    {T : Type ℓ} → Categories → Registry T → String → Bool → Option (List String) → List String
unfolding extract_keeps names keep
target_tasks categories reg target_task include_project_data objects =
    if str_eq target_task ""
    then sort (keep (extract_keeps categories include_project_data objects) (names reg))
    else target_task ∷ []
