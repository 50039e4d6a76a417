-- ===== src/Planner/Phases.antt =====
-- PlanPhasesGeneric: the plans and the errors that it returns.

use mathlib.Core.List.{append-nil, append_assoc}
use sonar_migration_tool.Common.{
  ℕ, zero, suc, ◌+◌, ◌<◌, ◌≡◌, sym, ◌∙◌, ◌≢◌, ◌⊎◌, inl, inr, true, false, ◌||◌, Option, none, some,
  List, [], ◌∷◌, ◌++◌, String, arith, has, lookup, length, NoDup, Subset, ltb, Bool-cases,
  has-cons_self, has-append, length-le_of_Subset, Subset_of_length, Subset-or_outside,
  has-eq_of_Subset, ltb→lt,
}
use sonar_migration_tool.Planner.Defs.{
  TaskMeta, Registry, Plan, planned, cycle, nil_panic, out_of_fuel, sort, complete,
  collect_ready_tasks, plan_loop, plan_phases,
}
use sonar_migration_tool.Planner.Ready.{
  ReadyAt, BlockedAt, Ready, Collected, collect_ready_tasks-Collected, has-sort, sort-NoDup,
  sort-cons-ne-nil, has-complete, complete-NoDup,
}

-- All the tasks of a plan, in order.
abbrev pub tasks_of : List (List String) → List String
tasks_of [] = []
tasks_of (phase ∷ phases) = phase ++ tasks_of phases

module _ {T : Type 0} ⦃m : TaskMeta T⦄ (reg : Registry T) where
  -- Each phase is a nonempty set of tasks, none of which stands in `earlier`, and each of which has
  -- all its dependencies there; `earlier` grows by the phase.
  abbrev pub Layered : List String → List (List String) → Type 0
  Layered earlier [] = Unit
  Layered earlier (phase ∷ phases) =
      (phase ≢ [])
      × NoDup phase
      × ((t : String) → has t phase ≡ true → Ready reg earlier t)
      × Layered (phase ++ earlier) phases

  -- What a plan says of the tasks: a layering of exactly these; or a set of completed tasks and a
  -- task outside it such that all outside it wait for a dependency that is not completed; or a task
  -- that is not registered.
  abbrev pub Schedules : List String → Plan → Type 0
  Schedules tasks (planned phases) =
      Layered [] phases × ((t : String) → has t (tasks_of phases) ≡ has t tasks)
  Schedules tasks cycle =
      (done : List String) × Subset done tasks
      × ((t : String) × (has t tasks ≡ true) × (has t done ≡ false))
      × ((t : String)
          → has t tasks ≡ true
          → (has t done ≡ true) ⊎ BlockedAt reg done (lookup t reg))
  Schedules tasks nil_panic = (t : String) × (has t tasks ≡ true) × (lookup t reg ≡ none)
  Schedules tasks out_of_fuel = ⊥

  SameElements : List String → List String → Type 0
  SameElements xs ys = (t : String) → has t xs ≡ has t ys

  -- The phases that the loop adds to a plan from the tasks completed so far.
  abbrev Extends : List String → List String → List (List String) → Plan → Type 0
  Extends tasks done plan (planned phases) =
      (rest : List (List String)) × (phases ≡ plan ++ rest)
      × Layered done rest
      × ((t : String) → (has t (tasks_of rest) || has t done) ≡ has t tasks)
  Extends tasks done plan cycle = Schedules tasks cycle
  Extends tasks done plan nil_panic = Schedules tasks nil_panic
  Extends tasks done plan out_of_fuel = ⊥

  ReadyAt-cong :
      (xs ys : List String) (o : Option T)
      → SameElements xs ys
      → ReadyAt reg xs o
      → ReadyAt reg ys o
  unfolding SameElements
  ReadyAt-cong xs ys none same r = r
  ReadyAt-cong xs ys (some def) same r = λ t h. rw (← same t) (r t h)

  Layered-cong :
      (xs ys : List String) (phases : List (List String))
      → SameElements xs ys
      → Layered xs phases
      → Layered ys phases
  unfolding SameElements
  Layered-cong xs ys [] same l = tt
  Layered-cong xs ys (phase ∷ phases) same (ne, nodup, ready, l) = (
    ne,
    nodup,
    λ t h. (rw (← same t) (ready t h).0, ReadyAt-cong xs ys (lookup t reg) same (ready t h).1),
    Layered-cong (phase ++ xs) (phase ++ ys) phases
        (λ t. rw (has-append t phase xs, has-append t phase ys, same t)) l,
  )

  -- One round of the loop, given the phases that the later rounds add.
  Extends-cons :
      (tasks done plan_phase : List String) (plan : List (List String)) (w : Plan)
      → plan_phase ≢ []
      → NoDup plan_phase
      → ((t : String) → has t plan_phase ≡ true → Ready reg done t)
      → Extends tasks (complete plan_phase done) (plan ++ plan_phase ∷ []) w
      → Extends tasks done plan w
  Extends-cons tasks done phase plan (planned phases) ne nodup ready (rest, e, l, all) = (
    phase ∷ rest,
    e ∙ append_assoc plan (phase ∷ []) rest,
    (
      ne,
      nodup,
      ready,
      Layered-cong (complete phase done) (phase ++ done) rest
          (unfold SameElements in λ t. has-complete t phase done ∙ sym (has-append t phase done)) l,
    ),
    λ t. ground (arith, all t, has-complete t phase done, has-append t phase (tasks_of rest)),
  )
  Extends-cons tasks done phase plan cycle ne nodup ready x = x
  Extends-cons tasks done phase plan nil_panic ne nodup ready x = x
  Extends-cons tasks done phase plan out_of_fuel ne nodup ready x = x

  abbrev Round : ℕ → List String → List String → List (List String) → Option (List String) → Plan
  Round fuel tasks done plan o = elim o [
    | none ↦ nil_panic
    | some [] ↦ cycle
    | some (t ∷ ts) ↦
        let phase = sort (t ∷ ts) in
        plan_loop fuel tasks reg (complete phase done) (plan ++ phase ∷ [])
  ]

  length-complete-lt :
      (t : String) (ts done : List String)
      → Ready reg done t
      → NoDup done
      → length done < length (complete (sort (t ∷ ts)) done)
  length-complete-lt t ts done r n =
      length-le_of_Subset (t ∷ done) (complete (sort (t ∷ ts)) done) (r.0, n)
        (λ s h. rw (has-complete, has-sort) (unfold has in ground (arith, h)))

  Round-Extends :
      (fuel : ℕ) (tasks done : List String) (plan : List (List String)) (o : Option (List String))
      → NoDup tasks
      → NoDup done
      → Subset done tasks
      → length done < length tasks
      → length tasks < suc fuel + length done
      → ((done' : List String) (plan' : List (List String))
          → NoDup done'
          → Subset done' tasks
          → length tasks < fuel + length done'
          → Extends tasks done' plan' (plan_loop fuel tasks reg done' plan'))
      → Collected reg tasks done o
      → Extends tasks done plan (Round fuel tasks done plan o)
  Round-Extends fuel tasks done plan none nt nd sub lt enough ih c = c
  Round-Extends fuel tasks done plan (some []) nt nd sub lt enough ih (nodup, inside, ready, rest) =
      elim (Subset-or_outside tasks done) [
        | inl full ↦ absurd (omega (arith, length-le_of_Subset tasks done nt full))
        | inr left ↦ (
          done,
          sub,
          left,
          λ t h. elim (rest t h) [ inl e ↦ absurd (unfold has in cc) | inr why ↦ why ],
        )
      ]
  Round-Extends fuel tasks done plan (some (t ∷ ts)) nt nd sub lt enough ih
        (nodup, inside, ready, rest) =
      Extends-cons tasks done (sort (t ∷ ts)) plan _ (sort-cons-ne-nil t ts)
        (sort-NoDup (t ∷ ts) (nodup nt)) (λ s h. ready s (rw has-sort at h))
        (ih (complete (sort (t ∷ ts)) done) (plan ++ sort (t ∷ ts) ∷ [])
          (complete-NoDup (sort (t ∷ ts)) done nd)
          (λ s h.
            let k : (has s (t ∷ ts) || has s done) ≡ true = rw (has-complete, has-sort) at h in
            ground (arith, inside s, sub s, k))
          (omega (arith, length-complete-lt t ts done (ready t (has-cons_self t ts)) nd)))

  plan_loop-Extends :
      (fuel : ℕ) (tasks done : List String) (plan : List (List String))
      → NoDup tasks
      → NoDup done
      → Subset done tasks
      → length tasks < fuel + length done
      → Extends tasks done plan (plan_loop fuel tasks reg done plan)
  unfolding plan_loop has
  plan_loop-Extends zero tasks done plan nt nd sub enough =
      absurd (omega (arith, length-le_of_Subset done tasks nd sub))
  plan_loop-Extends (suc fuel) tasks done plan nt nd sub enough =
      elim (Bool-cases (ltb (length done) (length tasks))) [
        | inl more ↦
            rw (more, Extends, plan_loop)
              (Round-Extends fuel tasks done plan (collect_ready_tasks tasks done reg) nt nd sub
                (ltb→lt _ _ more) enough
                (λ done' plan' n s e. plan_loop-Extends fuel tasks done' plan' nt n s e)
                (collect_ready_tasks-Collected reg tasks done))
        | inr full ↦
            rw (full, Extends, plan_loop)
              (
                [],
                sym (append-nil plan),
                tt,
                has-eq_of_Subset done tasks sub
                    (Subset_of_length done tasks nd sub (ground (arith, full))),
              )
      ]

  Extends-Schedules : (tasks : List String) (w : Plan) → Extends tasks [] [] w → Schedules tasks w
  Extends-Schedules tasks (planned phases) (rest, e, l, all) =
      rw e (l, λ t. unfold has in ground (arith, all t))
  Extends-Schedules tasks cycle x = x
  Extends-Schedules tasks nil_panic x = x
  Extends-Schedules tasks out_of_fuel x = x

  -- PlanPhasesGeneric ends. What it returns is a layering of exactly the given tasks, in which each
  -- task comes after all its dependencies; its cycle error means that every task left waits for one
  -- that is never completed; and it panics only where a task is not registered.
  pub plan_phases-Schedules :
      (tasks : List String) → NoDup tasks → Schedules tasks (plan_phases tasks reg)
  unfolding plan_phases
  plan_phases-Schedules tasks n = Extends-Schedules tasks _ (
      plan_loop-Extends (suc (length tasks)) tasks [] [] n tt (λ s h. absurd (unfold has in cc))
        (omega arith))
