-- ===== src/Planner/Reach.antt =====
-- The specification of dependency resolution: reachability over the registered dependencies.

use sonar_migration_tool.Common.{
  ◌≡◌, ◌≢◌, true, false, none, some, List, String, has, lookup, ◌↔◌, NoDup,
}
use sonar_migration_tool.Planner.Defs.{TaskMeta, Registry, Walk, found, missing, stuck}

module _ {T : Type 0} ⦃m : TaskMeta T⦄ where
  -- The names that a run of `targets` depends on, where nothing excluded is entered.
  pub data Reachable (targets : List String) (reg : Registry T) (excluded : List String)
      : String → Type 0 where
    target :
        (x : String)
        → has x targets ≡ true
        → has x excluded ≡ false
        → Reachable targets reg excluded x
    step :
        (x y : String) (def : T)
        → Reachable targets reg excluded x
        → lookup x reg ≡ some def
        → has y (m.task_deps def) ≡ true
        → has y excluded ≡ false
        → Reachable targets reg excluded y

  -- The found set is the set of reachable names, each is registered and none stands
  -- twice; a failure has a reachable
  -- name that is not registered to show for it; the walk is never cut short.
  abbrev pub Resolves : List String → Registry T → List String → Walk → Type 0
  Resolves targets reg excluded (found seen) =
      ((x : String) → has x seen ≡ true ↔ Reachable targets reg excluded x)
      × ((x : String) → has x seen ≡ true → lookup x reg ≢ none)
      × NoDup seen
  Resolves targets reg excluded (missing seen) =
      (x : String) × Reachable targets reg excluded x × (lookup x reg ≡ none)
  Resolves targets reg excluded stuck = ⊥
