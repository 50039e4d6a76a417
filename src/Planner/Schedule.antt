-- ===== src/Planner/Schedule.antt =====
-- When PlanPhasesGeneric and PlanPhasesExcludingGeneric have a plan.
use sonar_migration_tool.Common.{
  ℕ, zero, suc, ◌<◌, ◌≡◌, refl, ◌⊎◌, inl, inr, true, false, Option, none, some, List, String, arith,
  has, lookup, NoDup,
}
use sonar_migration_tool.Planner.Defs.{
  TaskMeta, Registry, Plan, planned, cycle, nil_panic, out_of_fuel, plan_phases,
  excluding_task_meta,
}
use sonar_migration_tool.Planner.Ready.{BlockedAt}
use sonar_migration_tool.Planner.Phases.{Schedules, plan_phases-Schedules}

module _ {T : Type 0} ⦃m : TaskMeta T⦄ where
  -- Every task of the set is registered, and its dependencies are tasks of the set of lower rank.
  abbrev pub RankedAt : List String → (String → ℕ) → ℕ → Option T → Type 0
  RankedAt tasks rank n none = ⊥
  RankedAt tasks rank n (some def) =
      (y : String) → has y (m.task_deps def) ≡ true → (has y tasks ≡ true) × (rank y < n)

  module _ (reg : Registry T) (tasks : List String) (rank : String → ℕ) where
    abbrev pub IsAcyclic : Type 0
    IsAcyclic = (t : String) → has t tasks ≡ true → RankedAt tasks rank (rank t) (lookup t reg)

    blocked_rank :
        (done : List String) (n : ℕ) (o : Option T)
        → RankedAt tasks rank n o
        → BlockedAt reg done o
        → (y : String) × (has y tasks ≡ true) × (has y done ≡ false) × (rank y < n)
    blocked_rank done n none r b = absurd b
    blocked_rank done n (some def) r (y, dep, out) = (y, (r y dep).0, out, (r y dep).1)

    -- No task is left waiting: there would be one of lower rank.
    none_left :
        IsAcyclic
        → (done : List String)
        → ((t : String)
            → has t tasks ≡ true
            → (has t done ≡ true) ⊎ BlockedAt reg done (lookup t reg))
        → (n : ℕ) (t : String) → rank t < n
        → has t tasks ≡ true
        → has t done ≡ true
    none_left ranked done blocked zero t lt h = elim lt [ ]
    none_left ranked done blocked (suc n) t lt h = elim (blocked t h) [
      | inl e ↦ e
      | inr b ↦
          let (y, mem, out, less) = blocked_rank done (rank t) (lookup t reg) (ranked t h) b in
          absurd (absurd_done y out (none_left ranked done blocked n y (omega arith) mem))
    ]
      where
        absurd_done : (y : String) → has y done ≡ false → has y done ≡ true → ⊥
        absurd_done y p q = cc

    planned_of_Schedules :
        (w : Plan)
        → IsAcyclic
        → Schedules reg tasks w
        → (phases : List (List String)) × (w ≡ planned phases)
    planned_of_Schedules (planned phases) ranked s = (phases, refl)
    planned_of_Schedules cycle ranked (done, sub, (t, h, out), blocked) =
        absurd (let k = none_left ranked done blocked (suc (rank t)) t (omega arith) h in cc)
    planned_of_Schedules nil_panic ranked (t, h, e) = absurd (rw e at (ranked t h))
    planned_of_Schedules out_of_fuel ranked s = absurd s

    -- PlanPhasesGeneric returns a plan for every set of registered tasks whose dependencies stay in
    -- the set and have a rank, that is, form no cycle.
    pub plan_phases_of_IsAcyclic :
        NoDup tasks
        → IsAcyclic
        → (phases : List (List String)) × (plan_phases tasks reg ≡ planned phases)
    plan_phases_of_IsAcyclic nodup ranked =
        planned_of_Schedules _ ranked (plan_phases-Schedules reg tasks nodup)
