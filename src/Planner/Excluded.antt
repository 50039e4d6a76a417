-- ===== src/Planner/Excluded.antt =====
-- Planning what was resolved, with names excluded (PlanPhasesExcludingGeneric).
use mathlib.Core.Option
use sonar_migration_tool.Common.{
  ℕ, ◌<◌, ◌≡◌, refl, true, false, ◌&&◌, not, Option, none, some, List, [], ◌∷◌, String, arith, has,
  lookup, eq_iff,
}
use sonar_migration_tool.Planner.Defs.{
  TaskMeta, Registry, planned, without, Excluding, excluding_task_meta, wrap_all,
  plan_phases_excluding, found, resolve_dependencies_excluding,
}
use sonar_migration_tool.Planner.Reach.{step, Resolves}
use sonar_migration_tool.Planner.Closure.{resolve_dependencies_excluding-Resolves}
use sonar_migration_tool.Planner.Schedule.{RankedAt, IsAcyclic, plan_phases_of_IsAcyclic}

-- What excludingTaskMeta leaves of the dependencies.
has-without :
    (excluded deps : List String) (y : String)
    → has y (without excluded deps) ≡ (has y deps && not (has y excluded))
unfolding without has
has-without excluded [] y = refl
has-without excluded (dep ∷ deps) y = ground (arith, has-without excluded deps y, eq_iff dep y)

abbrev wrap : {T : Type 0} → List String → T → Excluding T
wrap excluded d = record { inner = d; excluded = excluded }

module _ {T : Type 0} ⦃m : TaskMeta T⦄ where
  lookup-wrap_all :
      (excluded : List String) (reg : Registry T) (t : String)
      → lookup t (wrap_all excluded reg) ≡ Option.map (wrap excluded) (lookup t reg)
  unfolding lookup wrap_all
  lookup-wrap_all excluded [] t = refl
  lookup-wrap_all excluded ((name, def) ∷ reg) t = ground (arith, lookup-wrap_all excluded reg t)

  -- Along every dependency that is not excluded the rank falls.
  abbrev pub Falls : Registry T → List String → (String → ℕ) → Type 0
  Falls reg excluded rank =
      (t y : String) (def : T)
      → lookup t reg ≡ some def
      → has y (m.task_deps def) ≡ true
      → has y excluded ≡ false
      → rank y < rank t

  module _ (targets : List String) (reg : Registry T) (excluded seen : List String)
      (rank : String → ℕ) where
    resolved_RankedAt :
        Resolves targets reg excluded (found seen)
        → Falls reg excluded rank
        → (t : String) (o : Option T) → has t seen ≡ true
        → lookup t reg ≡ o
        → RankedAt seen rank (rank t) (Option.map (wrap excluded) o)
    resolved_RankedAt (same, registered, nodup) falls t none h e = registered t h e
    resolved_RankedAt (same, registered, nodup) falls t (some def) h e = λ y dep.
        let k : (has y (m.task_deps def) && not (has y excluded)) ≡ true = rw has-without at dep in
        let inside : has y (m.task_deps def) ≡ true = ground (arith, k) in
        let entered : has y excluded ≡ false = ground (arith, k) in
        ((same y).1 (step t y def ((same t).0 h) e inside entered), falls t y def e inside entered)

    resolved_IsAcyclic :
        Resolves targets reg excluded (found seen)
        → Falls reg excluded rank
        → IsAcyclic (wrap_all excluded reg) seen rank
    resolved_IsAcyclic r falls t h =
        rw lookup-wrap_all (resolved_RankedAt r falls t (lookup t reg) h refl)

    resolved_plain :
        Resolves targets reg [] (found seen)
        → Falls reg [] rank
        → (t : String) (o : Option T) → has t seen ≡ true
        → lookup t reg ≡ o
        → RankedAt seen rank (rank t) o
    resolved_plain (same, registered, nodup) falls t none h e = registered t h e
    resolved_plain (same, registered, nodup) falls t (some def) h e = λ y dep. (
      (same y).1 (step t y def ((same t).0 h) e dep (unfold has in refl)),
      falls t y def e dep (unfold has in refl),
    )

module _ {T : Type 0} ⦃m : TaskMeta T⦄ where
  plan_resolved :
      (targets : List String) (reg : Registry T) (excluded seen : List String) (rank : String → ℕ)
      → Resolves targets reg excluded (found seen)
      → Falls reg excluded rank
      → (phases : List (List String)) × (plan_phases_excluding seen reg excluded ≡ planned phases)
  unfolding plan_phases_excluding
  plan_resolved targets reg [] seen rank r falls =
      plan_phases_of_IsAcyclic reg seen rank r.2
        (λ t h. resolved_plain targets reg [] seen rank r falls t (lookup t reg) h refl)
  plan_resolved targets reg (x ∷ excluded) seen rank r falls =
      plan_phases_of_IsAcyclic (wrap_all (x ∷ excluded) reg) seen rank r.2
        (resolved_IsAcyclic targets reg (x ∷ excluded) seen rank r falls)

  -- Resolving the targets with some names excluded and then planning what was found with the same
  -- names excluded never ends in a cycle error, a panic or no result, provided that the dependencies
  -- that are not excluded form no cycle.
  pub plan_phases_excluding-resolve :
      (targets : List String) (reg : Registry T) (excluded seen : List String) (rank : String → ℕ)
      → resolve_dependencies_excluding targets reg excluded ≡ found seen
      → Falls reg excluded rank
      → (phases : List (List String)) × (plan_phases_excluding seen reg excluded ≡ planned phases)
  plan_phases_excluding-resolve targets reg excluded seen rank e falls =
      plan_resolved targets reg excluded seen rank
        (rw e at (resolve_dependencies_excluding-Resolves targets reg excluded)) falls
