-- ===== src/Planner/Examples.antt =====
-- Runs of the planner on a small registry, and its theorems there.
use mathlib.Core.Path.{subst}
use sonar_migration_tool.Planner.Schedule.{RankedAt}
use sonar_migration_tool.Common.{
  ◌≡◌, keep, refl, ◌↔◌, ◌<◌, ℕ, true, false, Option, none, some, List, [], ◌∷◌, String, has, arith,
  NoDup, lookup, if◌then◌else◌, str_eq, add, sym, ap, has-All,
}
use sonar_migration_tool.Planner.Defs.{
  TaskDef, task_def_meta, Registry, build_registry, filter_by_edition, resolve_dependencies,
  resolve_dependencies_excluding, plan_phases, plan_phases_excluding, planned, found,
  resolve_excluding, resolve_deps_excluding, leave, plan_loop, collect_ready_tasks,
  all_deps_completed, complete, sort,
}
use sonar_migration_tool.Planner.Reach.{Resolves}
use sonar_migration_tool.Planner.Closure.{
  resolve_dependencies-Resolves, resolve_dependencies_excluding-Resolves,
  resolve_dependencies_excluding-nil,
}
use sonar_migration_tool.Planner.Phases.{Schedules, plan_phases-Schedules}
use sonar_migration_tool.Planner.Schedule.{IsAcyclic, plan_phases_of_IsAcyclic}
use sonar_migration_tool.Planner.Excluded.{Falls, plan_phases_excluding-resolve}
use sonar_migration_tool.Planner.Editions.{
  latest, supported, lookup-filter_by_edition-build_registry,
}
use sonar_migration_tool.Planner.Targets.{
  Categories, Flags, contains, has_excluded_prefix, excluded_tasks, default_keeps,
  default_migrate_target_tasks, is_excluded_task, names,
}
use sonar_migration_tool.Planner.Selection.{Barred, Deselected, default_migrate_target_tasks_iff}

abbrev def : String → List String → TaskDef
def name deps = record { name = name; editions = []; dependencies = deps }

abbrev tasks : List TaskDef
tasks = def "projects" ("orgs" ∷ []) ∷ def "orgs" [] ∷ def "links" ("projects" ∷ "orgs" ∷ []) ∷ []

abbrev reg : Registry TaskDef
reg =
    ("projects", def "projects" ("orgs" ∷ []))
    ∷ ("orgs", def "orgs" [])
    ∷ ("links", def "links" ("projects" ∷ "orgs" ∷ []))
    ∷ []

-- The walk enters the targets before their dependencies.
resolved :
    resolve_dependencies_excluding ("links" ∷ []) reg ("orgs" ∷ [])
    ≡ found ("projects" ∷ "links" ∷ [])
unfolding resolve_dependencies_excluding resolve_excluding resolve_deps_excluding leave has add
    lookup
resolved = refl

planned_run :
    plan_phases ("links" ∷ "projects" ∷ "orgs" ∷ []) reg
    ≡ planned (("orgs" ∷ []) ∷ ("projects" ∷ []) ∷ ("links" ∷ []) ∷ [])
unfolding plan_phases plan_loop collect_ready_tasks all_deps_completed complete sort has add lookup
planned_run = refl

resolve_dependencies_excluding-Resolves_example :
    Resolves
      ("links" ∷ [])
      reg
      ("orgs" ∷ [])
      (resolve_dependencies_excluding ("links" ∷ []) reg ("orgs" ∷ []))
resolve_dependencies_excluding-Resolves_example =
    resolve_dependencies_excluding-Resolves ("links" ∷ []) reg ("orgs" ∷ [])

resolve_dependencies-Resolves_example :
    Resolves ("links" ∷ []) reg [] (resolve_dependencies ("links" ∷ []) reg)
resolve_dependencies-Resolves_example = resolve_dependencies-Resolves ("links" ∷ []) reg

resolve_dependencies_excluding-nil_example :
    resolve_dependencies_excluding ("links" ∷ []) reg [] ≡ resolve_dependencies ("links" ∷ []) reg
resolve_dependencies_excluding-nil_example = resolve_dependencies_excluding-nil ("links" ∷ []) reg

abbrev all_three : List String
all_three = "links" ∷ "projects" ∷ "orgs" ∷ []

all_three-NoDup : NoDup all_three
unfolding has
all_three-NoDup = (refl, (refl, (refl, tt)))

plan_phases-Schedules_example : Schedules reg all_three (plan_phases all_three reg)
plan_phases-Schedules_example = plan_phases-Schedules reg all_three all_three-NoDup

abbrev rank : String → ℕ
rank s = if str_eq s "orgs" then 0 else if str_eq s "projects" then 1 else 2

all_three-IsAcyclic : IsAcyclic reg all_three rank
unfolding has lookup
all_three-IsAcyclic =
    has-All (λ t. RankedAt all_three rank (rank t) (lookup t reg)) all_three
      (
        has-All (λ y. (has y all_three ≡ true) × (rank y < 2)) ("projects" ∷ "orgs" ∷ [])
            ((refl, omega arith), ((refl, omega arith), tt)),
        (
          has-All (λ y. (has y all_three ≡ true) × (rank y < 1)) ("orgs" ∷ [])
              ((refl, omega arith), tt),
          (λ y h. absurd (cc), tt),
        ),
      )

plan_phases_of_IsAcyclic_example :
    (phases : List (List String)) × (plan_phases all_three reg ≡ planned phases)
plan_phases_of_IsAcyclic_example =
    plan_phases_of_IsAcyclic reg all_three rank all_three-NoDup all_three-IsAcyclic

deps_of :
    (d d' : TaskDef) (y : String)
    → some d ≡ some d'
    → has y d'.dependencies ≡ true
    → has y d.dependencies ≡ true
deps_of d d' y e h =
    subst (λ (x : TaskDef). has y x.dependencies ≡ true)
      (sym (ap (λ (o : Option TaskDef). elim o [ none ↦ d | some x ↦ x ]) e)) h

registered : (t : String) (d : TaskDef) → lookup t reg ≡ some d → has t all_three ≡ true
unfolding has lookup
registered t d e = ground (arith, e)

reg-Falls : Falls reg ("orgs" ∷ []) rank
unfolding has lookup
reg-Falls t y d e h ok =
    has-All
      (λ t. (d : TaskDef) → lookup t reg ≡ some d → has y d.dependencies ≡ true → rank y < rank t)
      all_three
      (
        λ d e h.
            has-All (λ y. has y ("orgs" ∷ []) ≡ false → rank y < 2) ("projects" ∷ "orgs" ∷ [])
              (λ ok. omega arith, (λ ok. absurd (cc), tt)) y (deps_of _ d y e h) ok,
        (
          λ d e h.
              has-All (λ y. has y ("orgs" ∷ []) ≡ false → rank y < 1) ("orgs" ∷ [])
                (λ ok. absurd (cc), tt) y (deps_of _ d y e h) ok,
          (λ d e h. absurd (let k = deps_of _ d y e h in cc), tt),
        ),
      )
      t (registered t d e) d e h

plan_phases_excluding-resolve_example :
    (phases : List (List String)) × (plan_phases_excluding
        ("projects" ∷ "links" ∷ [])
        reg
        ("orgs" ∷ [])
      ≡ planned phases)
plan_phases_excluding-resolve_example =
    plan_phases_excluding-resolve ("links" ∷ []) reg ("orgs" ∷ []) ("projects" ∷ "links" ∷ []) rank
      resolved reg-Falls

lookup-filter_by_edition-build_registry_example :
    lookup "orgs" (filter_by_edition (build_registry tasks []) "developer")
    ≡ supported "developer" (latest "orgs" tasks none)
lookup-filter_by_edition-build_registry_example =
    lookup-filter_by_edition-build_registry "orgs" "developer" tasks

-- The organizations go with the object "orgs" alone.
abbrev by_object : Categories
by_object = ("orgs", "orgs" ∷ []) ∷ ("projects", "groups" ∷ []) ∷ []

abbrev skipping : Flags
skipping = record {
  skip_profiles = false;
  include_project_data = true;
  skip_issue_sync = false;
  skip_project_data_migration = true;
}

default_migrate_target_tasks_iff_example :
    has "orgs" (default_migrate_target_tasks by_object reg skipping (some ("projects" ∷ []))) ≡ true
    ↔ ((has "orgs" (names reg) ≡ true)
        × (¬ Barred skipping "orgs")
        × (¬ Deselected by_object (some ("projects" ∷ [])) "orgs"))
default_migrate_target_tasks_iff_example =
    default_migrate_target_tasks_iff by_object reg skipping (some ("projects" ∷ [])) "orgs"

-- The run of all objects takes a task that the run of projects leaves out.
all_objects : has "orgs" (default_migrate_target_tasks by_object reg skipping none) ≡ true
unfolding default_migrate_target_tasks default_keeps is_excluded_task has_excluded_prefix contains
    excluded_tasks names has keep sort
all_objects = refl

abbrev explicit : List String
explicit = "createProjects" ∷ "importProjectData" ∷ []
