-- ===== src/Planner/Ready.antt =====
-- collectReadyTasks, the sort of a phase and the marking of a phase as completed.
use mathlib.Core.Option
use mathlib.Core.Path.{subst}
use sonar_migration_tool.Common.{
  ◌≡◌, refl, ◌≢◌, ◌⊎◌, inl, inr, true, false, ◌||◌, Option, none, some, List, [], ◌∷◌, String,
  arith, eq_iff, str_eq, has, add, lookup, NoDup, Subset, has-add, Bool-cases, Option-cases,
  has-cons_self, has-cons_mono, ap, add-NoDup,
}
use sonar_migration_tool.Planner.Defs.{
  TaskMeta, Registry, insert_sorted, sort, all_deps_completed, complete, collect_ready_tasks,
}

has-insert_sorted :
    (s x : String) (ys : List String) → has s (insert_sorted x ys) ≡ (str_eq x s || has s ys)
unfolding insert_sorted has
has-insert_sorted s x [] = refl
has-insert_sorted s x (y ∷ ys) = ground (arith, has-insert_sorted s x ys)

pub has-sort : (s : String) (xs : List String) → has s (sort xs) ≡ has s xs
unfolding sort has
has-sort s [] = refl
has-sort s (x ∷ xs) = rw (has-insert_sorted, has-sort s xs)

insert_sorted-NoDup :
    (x : String) (ys : List String) → has x ys ≡ false → NoDup ys → NoDup (insert_sorted x ys)
unfolding insert_sorted has
insert_sorted-NoDup x [] h n = (refl, tt)
insert_sorted-NoDup x (y ∷ ys) h (fresh, n) =
    ground (arith, insert_sorted-NoDup x ys, has-insert_sorted y x ys, eq_iff y x, eq_iff x y)

pub sort-NoDup : (xs : List String) → NoDup xs → NoDup (sort xs)
unfolding sort
sort-NoDup [] n = tt
sort-NoDup (x ∷ xs) (fresh, n) =
    insert_sorted-NoDup x (sort xs) (rw has-sort fresh) (sort-NoDup xs n)

pub sort-cons-ne-nil : (x : String) (xs : List String) → sort (x ∷ xs) ≢ []
unfolding has
sort-cons-ne-nil x xs e = cc (has-sort x (x ∷ xs), has-cons_self x xs, ap (has x) e)

pub has-complete :
    (s : String) (phase completed : List String)
    → has s (complete phase completed) ≡ (has s phase || has s completed)
unfolding complete has
has-complete s [] completed = refl
has-complete s (t ∷ phase) completed =
    ground (arith, has-complete s phase (add t completed), has-add s t completed)

pub complete-NoDup :
    (phase completed : List String) → NoDup completed → NoDup (complete phase completed)
unfolding complete
complete-NoDup [] completed n = n
complete-NoDup (t ∷ phase) completed n =
    complete-NoDup phase (add t completed) (add-NoDup t completed n)

pub all_deps_completed-true :
    (deps completed : List String)
    → all_deps_completed deps completed ≡ true
    → Subset deps completed
unfolding all_deps_completed has
all_deps_completed-true [] completed h s k = cc
all_deps_completed-true (dep ∷ deps) completed h s k = ground (
  arith,
  all_deps_completed-true deps completed,
  all_deps_completed-true deps completed (ground (arith, h)) s,
  eq_iff dep s,
)

pub all_deps_completed-false :
    (deps completed : List String)
    → all_deps_completed deps completed ≡ false
    → (y : String) × (has y deps ≡ true) × (has y completed ≡ false)
unfolding all_deps_completed
all_deps_completed-false [] completed h = absurd (cc)
all_deps_completed-false (dep ∷ deps) completed h = elim (Bool-cases (has dep completed)) [
  | inr waits ↦ (dep, has-cons_self dep deps, waits)
  | inl done ↦
      let (y, mem, waits) = all_deps_completed-false deps completed (ground (arith, h)) in
      (y, has-cons_mono y dep deps mem, waits)
]

module _ {T : Type 0} ⦃m : TaskMeta T⦄ (reg : Registry T) where
  -- The entry is registered, and every dependency of it is in the set.
  abbrev pub ReadyAt : List String → Option T → Type 0
  ReadyAt done none = ⊥
  ReadyAt done (some def) = Subset (m.task_deps def) done

  -- The entry is registered, and a dependency of it is not in the set.
  abbrev pub BlockedAt : List String → Option T → Type 0
  BlockedAt done none = ⊥
  BlockedAt done (some def) = (y : String) × (has y (m.task_deps def) ≡ true) × (has y done ≡ false)

  abbrev pub Ready : List String → String → Type 0
  Ready done t = (has t done ≡ false) × ReadyAt done (lookup t reg)

  -- What collectReadyTasks selects from `tasks`.
  abbrev pub Collected : List String → List String → Option (List String) → Type 0
  Collected tasks done none = (t : String) × (has t tasks ≡ true) × (lookup t reg ≡ none)
  Collected tasks done (some phase) =
      (NoDup tasks → NoDup phase)
      × Subset phase tasks
      × ((t : String) → has t phase ≡ true → Ready done t)
      × ((t : String)
          → has t tasks ≡ true
          → (has t phase ≡ true) ⊎ (has t done ≡ true) ⊎ BlockedAt done (lookup t reg))

  Collected-skip :
      (t : String) (tasks done : List String) (o : Option (List String))
      → (has t done ≡ true) ⊎ BlockedAt done (lookup t reg)
      → Collected tasks done o
      → Collected (t ∷ tasks) done o
  unfolding has
  Collected-skip t tasks done none why (x, h, e) = (x, has-cons_mono x t tasks h, e)
  Collected-skip t tasks done (some phase) why (nodup, sub, ready, rest) = (
    λ n. nodup n.1,
    λ s h. has-cons_mono s t tasks (sub s h),
    ready,
    λ s h. elim (Bool-cases (str_eq t s)) [
      | inl e ↦
          subst (λ z. (has z phase ≡ true) ⊎ (has z done ≡ true) ⊎ BlockedAt done (lookup z reg))
            ((eq_iff t s).0 e) (inr why)
      | inr e ↦ rest s (rw e at h)
    ],
  )

  Collected-keep :
      (t : String) (tasks done : List String) (o : Option (List String))
      → Ready done t
      → Collected tasks done o
      → Collected (t ∷ tasks) done (Option.map (λ ts. t ∷ ts) o)
  unfolding has
  Collected-keep t tasks done none why (x, h, e) = (x, has-cons_mono x t tasks h, e)
  Collected-keep t tasks done (some phase) why (nodup, sub, ready, rest) = (
    λ n. (ground (arith, sub t, n.0), nodup n.1),
    λ s h. ground (arith, sub s),
    λ s h. elim (Bool-cases (str_eq t s)) [
      | inl e ↦ subst (λ z. Ready done z) ((eq_iff t s).0 e) why
      | inr e ↦ ready s (rw e at h)
    ],
    λ s h. elim (Bool-cases (str_eq t s)) [
      | inl e ↦ inl (rw e refl)
      | inr e ↦ elim (rest s (rw e at h)) [ inl k ↦ inl (rw e k) | inr k ↦ inr k ]
    ],
  )

  pub collect_ready_tasks-Collected :
      (tasks done : List String) → Collected tasks done (collect_ready_tasks tasks done reg)
  unfolding collect_ready_tasks has
  collect_ready_tasks-Collected [] done =
      (λ n. tt, λ s h. h, λ t h. absurd (cc), λ t h. absurd (cc))
  collect_ready_tasks-Collected (t ∷ tasks) done = elim (Bool-cases (has t done)) [
    | inl h ↦
        rw (h, Collected, collect_ready_tasks)
          (Collected-skip t tasks done _ (inl h) (collect_ready_tasks-Collected tasks done))
    | inr h ↦
        rw (h, Collected, collect_ready_tasks)
          (elim (Option-cases (lookup t reg)) [
            | inl e ↦ rw (e, Collected, collect_ready_tasks) (t, has-cons_self t tasks, e)
            | inr (def, e) ↦ elim (Bool-cases (all_deps_completed (m.task_deps def) done)) [
              | inl all ↦
                  rw (e, Collected, collect_ready_tasks)
                    (rw (all, Collected)
                      (Collected-keep t tasks done _ (h, rw e (all_deps_completed-true _ done all))
                        (collect_ready_tasks-Collected tasks done)))
              | inr some_left ↦
                  rw (e, Collected, collect_ready_tasks)
                    (rw (some_left, Collected)
                      (Collected-skip t tasks done _
                        (inr (rw e (all_deps_completed-false _ done some_left)))
                        (collect_ready_tasks-Collected tasks done)))
            ]
          ])
  ]
