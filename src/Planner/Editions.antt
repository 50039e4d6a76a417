-- ===== src/Planner/Editions.antt =====
-- The registry of tasks and its restriction to an edition.
use sonar_migration_tool.Common.{
  ◌≡◌, refl, ap, ◌∙◌, Bool, false, ◌||◌, Option, none, some, List, [], ◌∷◌, String, arith, eq_iff,
  str_eq, has, lookup, NoDup, if◌then◌else◌,
}
use sonar_migration_tool.Planner.Defs.{
  TaskMeta, Registry, store, build_registry, filter_by_edition, is_empty,
}
use sonar_migration_tool.Planner.Targets.{names}

module _ {ℓ} {T : Type ℓ} where
  lookup-store :
      (k n : String) (d : T) (reg : Registry T)
      → lookup n (store k d reg) ≡ (if str_eq k n then some d else lookup n reg)
  unfolding lookup store
  lookup-store k n d [] = refl
  lookup-store k n d ((j, e) ∷ reg) =
      ground (arith, lookup-store k n d reg, eq_iff j k, eq_iff j n, eq_iff k n)

  has-names-store :
      (k n : String) (d : T) (reg : Registry T)
      → has n (names (store k d reg)) ≡ (str_eq k n || has n (names reg))
  unfolding names store has
  has-names-store k n d [] = refl
  has-names-store k n d ((j, e) ∷ reg) =
      ground (arith, has-names-store k n d reg, eq_iff j k, eq_iff j n, eq_iff k n)

  store-NoDup :
      (k : String) (d : T) (reg : Registry T) → NoDup (names reg) → NoDup (names (store k d reg))
  unfolding names store has
  store-NoDup k d [] n = (refl, tt)
  store-NoDup k d ((j, e) ∷ reg) (fresh, n) =
      ground (arith, store-NoDup k d reg, has-names-store k j d reg, eq_iff j k, eq_iff k j)

  lookup_fresh : (n : String) (reg : Registry T) → has n (names reg) ≡ false → lookup n reg ≡ none
  unfolding names lookup has
  lookup_fresh n [] h = refl
  lookup_fresh n ((j, e) ∷ reg) h = ground (arith, lookup_fresh n reg)

module _ {ℓ} {T : Type ℓ} ⦃m : TaskMeta T⦄ where
  -- The last task of the list with the name, or else the one given.
  abbrev pub latest : String → List T → Option T → Option T
  latest n [] o = o
  latest n (d ∷ ds) o = latest n ds (if str_eq (m.task_name d) n then some d else o)

  -- A task with no editions, or with this one among them.
  abbrev pub supports : String → T → Bool
  supports edition d = is_empty (m.task_editions d) || has edition (m.task_editions d)

  abbrev pub supported : String → Option T → Option T
  supported edition none = none
  supported edition (some d) = if supports edition d then some d else none

  lookup-build_registry :
      (n : String) (ds : List T) (reg : Registry T)
      → lookup n (build_registry ds reg) ≡ latest n ds (lookup n reg)
  unfolding build_registry
  lookup-build_registry n [] reg = refl
  lookup-build_registry n (d ∷ ds) reg =
      lookup-build_registry n ds (store (m.task_name d) d reg)
      ∙ ap (latest n ds) (lookup-store (m.task_name d) n d reg)

  build_registry-NoDup :
      (ds : List T) (reg : Registry T) → NoDup (names reg) → NoDup (names (build_registry ds reg))
  unfolding build_registry
  build_registry-NoDup [] reg n = n
  build_registry-NoDup (d ∷ ds) reg n =
      build_registry-NoDup ds (store (m.task_name d) d reg) (store-NoDup (m.task_name d) d reg n)

  lookup-filter_by_edition :
      (n edition : String) (reg : Registry T)
      → NoDup (names reg)
      → lookup n (filter_by_edition reg edition) ≡ supported edition (lookup n reg)
  unfolding filter_by_edition lookup names
  lookup-filter_by_edition n edition [] h = refl
  lookup-filter_by_edition n edition ((j, d) ∷ reg) (fresh, h) =
      ground (arith, lookup-filter_by_edition n edition reg h, lookup_fresh j reg fresh, eq_iff j n)

  -- In the registry built from a list of tasks and restricted to an edition, a name stands for the
  -- last task of the list with that name if that task names no edition or this one, and for nothing
  -- otherwise.
  pub lookup-filter_by_edition-build_registry :
      (n edition : String) (ds : List T)
      → lookup n (filter_by_edition (build_registry ds []) edition)
        ≡ supported edition (latest n ds none)
  lookup-filter_by_edition-build_registry n edition ds =
      lookup-filter_by_edition n edition (build_registry ds [])
        (build_registry-NoDup ds [] (unfold names in tt))
      ∙ ap (supported edition)
          (lookup-build_registry n ds [] ∙ ap (latest n ds) (unfold lookup in refl))
