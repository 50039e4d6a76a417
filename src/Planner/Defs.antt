-- ===== src/Planner/Defs.antt =====
-- The definitions of go/internal/common/planner.go and BuildRegistry.
use mathlib.Core.Option
use text.Mathlib.Text.{is_le}
use Prim.Native.String.{compare}
use sonar_migration_tool.Common.{
  ℕ, zero, suc, Bool, true, false, ◌||◌, Option, none, some, List, [], ◌∷◌, ◌++◌, String, str_eq,
  has, add, delete, lookup, length, ltb, if◌then◌else◌,
}

-- The interface `TaskMeta`.
pub record TaskMeta {ℓ} (T : Type ℓ) : Type ℓ where
  pub task_name : T → String
  pub task_editions : T → List String
  pub task_deps : T → List String

abbrev pub Registry {ℓ} : Type ℓ → Type ℓ
Registry T = List (String × T)

module _ {ℓ} {T : Type ℓ} where
  -- `reg[name] = def`: a name that is there is overwritten.
  unfoldable pub store : String → T → Registry T → Registry T
  store n d [] = (n, d) ∷ []
  store n d ((m, e) ∷ reg) = if str_eq m n then (n, d) ∷ reg else (m, e) ∷ store n d reg

  -- BuildRegistry and BuildMigrateRegistry.
  unfoldable pub build_registry : ⦃m : TaskMeta T⦄ → List T → Registry T → Registry T
  build_registry [] reg = reg
  build_registry ⦃m⦄ (d ∷ ds) reg = build_registry ds (store (m.task_name d) d reg)

abbrev pub is_empty {ℓ} : {A : Type ℓ} → List A → Bool
is_empty [] = true
is_empty (x ∷ xs) = false

-- What a walk of the dependencies comes back with: true or false with the set `seen`, or nothing
-- when the fuel ran out.
pub data Walk : Type 0 where
  found : List String → Walk
  missing : List String → Walk
  stuck : Walk

-- The outcome of planning: the phases, the error of a cycle, the panic of a call through a nil
-- entry of the registry, or nothing when the fuel ran out.
pub data Plan : Type 0 where
  planned : List (List String) → Plan
  cycle : Plan
  nil_panic : Plan
  out_of_fuel : Plan

-- slices.Sort on strings.
unfoldable pub insert_sorted : String → List String → List String
insert_sorted x [] = x ∷ []
insert_sorted x (y ∷ ys) = if is_le (compare x y) then x ∷ y ∷ ys else y ∷ insert_sorted x ys

unfoldable pub sort : List String → List String
unfolding insert_sorted
sort [] = []
sort (x ∷ xs) = insert_sorted x (sort xs)

-- The loops over the dependencies; `visit` is the recursive call.
unfoldable pub resolve_deps : (String → List String → Walk) → List String → List String → Walk
resolve_deps visit [] seen = found seen
resolve_deps visit (dep ∷ deps) seen = elim (visit dep seen) [
  | found seen' ↦ resolve_deps visit deps seen'
  | missing seen' ↦ missing seen'
  | stuck ↦ stuck
]

unfoldable pub resolve_deps_excluding :
    (String → List String → Walk) → List String → List String → List String → Walk
resolve_deps_excluding visit excluded [] seen = found seen
resolve_deps_excluding visit excluded (dep ∷ deps) seen = elim (has dep excluded) [
  | true ↦ resolve_deps_excluding visit excluded deps seen
  | false ↦ elim (visit dep seen) [
    | found seen' ↦ resolve_deps_excluding visit excluded deps seen'
    | missing seen' ↦ missing seen'
    | stuck ↦ stuck
  ]
]

-- `delete(seen, task)` on the way out of a failed walk.
unfoldable pub leave : String → Walk → Walk
leave task (found seen) = found seen
leave task (missing seen) = missing (delete task seen)
leave task stuck = stuck

-- allDepsCompleted
unfoldable pub all_deps_completed : List String → List String → Bool
all_deps_completed [] completed = true
all_deps_completed (dep ∷ deps) completed =
    if has dep completed then all_deps_completed deps completed else false

-- `for _, t := range phase { completed[t] = true }`
unfoldable pub complete : List String → List String → List String
complete [] completed = completed
complete (t ∷ phase) completed = complete phase (add t completed)

module _ {ℓ} {T : Type ℓ} ⦃m : TaskMeta T⦄ where
  -- FilterByEditionGeneric
  unfoldable pub filter_by_edition : Registry T → String → Registry T
  filter_by_edition [] edition = []
  filter_by_edition ((name, def) ∷ reg) edition =
      let out = filter_by_edition reg edition in
      if is_empty (m.task_editions def) || has edition (m.task_editions def)
      then (name, def) ∷ out
      else out

  -- resolveGeneric
  unfoldable pub resolve : ℕ → Registry T → String → List String → Walk
  resolve zero reg task seen = stuck
  resolve (suc fuel) reg task seen = elim (has task seen) [
    | true ↦ found seen
    | false ↦ elim (lookup task reg) [
      | none ↦ missing seen
      | some def ↦ leave task (resolve_deps (resolve fuel reg) (m.task_deps def) (add task seen))
    ]
  ]

  -- ResolveDependenciesGeneric; `missing` stands for the nil map.
  unfoldable pub resolve_dependencies : List String → Registry T → Walk
  unfolding resolve resolve_deps
  resolve_dependencies targets reg = resolve_deps (resolve (suc (length reg)) reg) targets []

  -- resolveGenericExcluding
  unfoldable pub resolve_excluding : ℕ → Registry T → List String → String → List String → Walk
  resolve_excluding zero reg excluded task seen = stuck
  resolve_excluding (suc fuel) reg excluded task seen = elim (has task seen) [
    | true ↦ found seen
    | false ↦ elim (has task excluded) [
      | true ↦ found seen
      | false ↦ elim (lookup task reg) [
        | none ↦ missing seen
        | some def ↦ leave task (
            resolve_deps_excluding (resolve_excluding fuel reg excluded) excluded (m.task_deps def)
              (add task seen))
      ]
    ]
  ]

  -- ResolveDependenciesExcludingGeneric
  unfoldable pub resolve_dependencies_excluding : List String → Registry T → List String → Walk
  resolve_dependencies_excluding targets reg excluded =
      resolve_deps_excluding (resolve_excluding (suc (length reg)) reg excluded) excluded targets []

  -- collectReadyTasks; a task with no entry is a nil entry, whose TaskDeps() panics.
  unfoldable pub collect_ready_tasks : List String → List String → Registry T → Option (List String)
  collect_ready_tasks [] completed reg = some []
  collect_ready_tasks (task ∷ tasks) completed reg =
      let phase = collect_ready_tasks tasks completed reg in
      if has task completed then phase else elim (lookup task reg) [
        | none ↦ none
        | some def ↦
            if all_deps_completed (m.task_deps def) completed
            then Option.map (λ ts. task ∷ ts) phase
            else phase
      ]

  -- The loop of PlanPhasesGeneric.
  unfoldable pub plan_loop : ℕ → List String → Registry T → List String → List (List String) → Plan
  plan_loop zero tasks reg completed plan = out_of_fuel
  plan_loop (suc fuel) tasks reg completed plan = elim (ltb (length completed) (length tasks)) [
    | false ↦ planned plan
    | true ↦ elim (collect_ready_tasks tasks completed reg) [
      | none ↦ nil_panic
      | some [] ↦ cycle
      | some (t ∷ ts) ↦
          let phase = sort (t ∷ ts) in
          plan_loop fuel tasks reg (complete phase completed) (plan ++ phase ∷ [])
    ]
  ]

  -- PlanPhasesGeneric
  unfoldable pub plan_phases : List String → Registry T → Plan
  plan_phases tasks reg = plan_loop (suc (length tasks)) tasks reg [] []

-- `if !e.excluded[dep] { out = append(out, dep) }`
unfoldable pub without : List String → List String → List String
without excluded [] = []
without excluded (dep ∷ deps) =
    let out = without excluded deps in if has dep excluded then out else dep ∷ out

-- excludingTaskMeta: every task of the wrapped registry shares the one set of excluded names.
pub record Excluding {ℓ} (T : Type ℓ) : Type ℓ where
  pub inner : T
  pub excluded : List String

instance abbrev pub excluding_task_meta {ℓ} : {T : Type ℓ} ⦃m : TaskMeta T⦄ → TaskMeta (Excluding T)
excluding_task_meta ⦃m⦄ = record {
  task_name = λ e. m.task_name e.inner;
  task_editions = λ e. m.task_editions e.inner;
  task_deps = λ e. without e.excluded (m.task_deps e.inner);
}

module _ {ℓ} {T : Type ℓ} ⦃m : TaskMeta T⦄ where
  unfoldable pub wrap_all : List String → Registry T → Registry (Excluding T)
  wrap_all excluded [] = []
  wrap_all excluded ((name, def) ∷ reg) =
      (name, record { inner = def; excluded = excluded }) ∷ wrap_all excluded reg

  -- PlanPhasesExcludingGeneric
  unfoldable pub plan_phases_excluding : List String → Registry T → List String → Plan
  plan_phases_excluding tasks reg [] = plan_phases tasks reg
  plan_phases_excluding tasks reg (x ∷ excluded) = plan_phases tasks (wrap_all (x ∷ excluded) reg)

-- TaskDef of the extract and of the migrate command, without its function Run.
pub record TaskDef : Type 0 where
  pub name : String
  pub editions : List String
  pub dependencies : List String

instance abbrev pub task_def_meta : TaskMeta TaskDef
task_def_meta = record {
  task_name = λ t. t.name;
  task_editions = λ t. t.editions;
  task_deps = λ t. t.dependencies;
}
