-- ===== src/Planner/Closure.antt =====
-- What ResolveDependenciesExcludingGeneric and ResolveDependenciesGeneric compute.
use mathlib.Core.Path.{fun_ext}
use sonar_migration_tool.Common.{
  ℕ, zero, suc, ◌≡◌, refl, ap, ◌∙◌, inl, inr, true, false, none, some, List, [], ◌∷◌, String, arith,
  has, add, lookup, length,
}
use sonar_migration_tool.Planner.Defs.{
  TaskMeta, Registry, Walk, found, missing, stuck, resolve_deps, resolve_deps_excluding, leave,
  resolve, resolve_dependencies, resolve_excluding, resolve_dependencies_excluding,
}
use sonar_migration_tool.Planner.Unseen.{unseen-le-length}
use sonar_migration_tool.Planner.Reach.{Reachable, target, step, Resolves}
use sonar_migration_tool.Planner.Walk.{
  Covers, ClosedAt, Settled, After, Wanted, resolve_deps-After, resolve-Visits,
}

resolve_deps_excluding-nil :
    (visit : String → List String → Walk) (deps seen : List String)
    → resolve_deps_excluding visit [] deps seen ≡ resolve_deps visit deps seen
unfolding resolve_deps_excluding resolve_deps has
resolve_deps_excluding-nil visit [] seen = refl
resolve_deps_excluding-nil visit (dep ∷ deps) seen = λ i. elim (visit dep seen) [
  | found seen' ↦ resolve_deps_excluding-nil visit deps seen' i
  | missing seen' ↦ missing seen'
  | stuck ↦ stuck
]

module _ {T : Type 0} ⦃m : TaskMeta T⦄ where
  module _ (targets : List String) (reg : Registry T) (excluded : List String) where
    -- A set that holds the targets and is closed under dependencies holds what is reachable.
    Reachable-inside :
        (seen : List String)
        → ((x : String) → Wanted reg excluded (λ _. Unit) targets x → has x seen ≡ true)
        → ((x : String) → has x seen ≡ true → ClosedAt excluded seen (lookup x reg))
        → {x : String} → Reachable targets reg excluded x
        → has x seen ≡ true
    Reachable-inside seen start closed (target x h ok) = start x (h, ok)
    Reachable-inside seen start closed (step x y def r e h ok) =
        elim (covered def e (closed x (Reachable-inside seen start closed r)) y h) [
          | inl out ↦ absurd (cc)
          | inr inside ↦ inside
        ]
      where
        covered :
            (d : T)
            → lookup x reg ≡ some d
            → ClosedAt excluded seen (lookup x reg)
            → Covers excluded (m.task_deps d) seen
        covered d p c = rw p at c

    After-Resolves :
        (w : Walk)
        → After reg excluded
            (Reachable targets reg excluded)
            (Wanted reg excluded (Reachable targets reg excluded) targets)
            []
            w
        → Resolves targets reg excluded w
    unfolding has
    After-Resolves (found seen) (sub, goal, old, nodup) = (
      λ x. (λ h. (settled x h).0, λ r. Reachable-inside seen goal (λ y h. (settled y h).1) r),
      λ x h e. rw e at ((settled x h).1),
      nodup tt,
    )
      where
        settled :
            (x : String)
            → has x seen ≡ true
            → Settled reg excluded (Reachable targets reg excluded) seen x
        settled x h = elim (old x h) [ inl e ↦ absurd (cc) | inr s ↦ s ]
    After-Resolves (missing s) a = a
    After-Resolves stuck a = a

    -- ResolveDependenciesExcludingGeneric finds exactly the names that are reachable from the
    -- targets without entering an excluded one, all of them registered, or fails with a reachable
    -- name that is not registered; it always ends.
    pub resolve_dependencies_excluding-Resolves :
        Resolves targets reg excluded (resolve_dependencies_excluding targets reg excluded)
    unfolding resolve_dependencies_excluding
    resolve_dependencies_excluding-Resolves = After-Resolves _ (
        resolve_deps-After reg excluded (Reachable targets reg excluded)
          (resolve_excluding (suc (length reg)) reg excluded) (suc (length reg))
          (resolve-Visits reg excluded (Reachable targets reg excluded)
            (λ x y def r e w. step x y def r e w.0 w.1) (suc (length reg)))
          targets [] (λ y w. target y w.0 w.1) (omega (arith, unseen-le-length reg [])))

  visits-nil :
      (fuel : ℕ) (reg : Registry T)
      → ((task : String) (seen : List String)
          → resolve_excluding fuel reg [] task seen ≡ resolve fuel reg task seen)
      → (deps seen : List String)
      → resolve_deps_excluding (resolve_excluding fuel reg []) [] deps seen
        ≡ resolve_deps (resolve fuel reg) deps seen
  visits-nil fuel reg e deps seen =
      resolve_deps_excluding-nil (resolve_excluding fuel reg []) deps seen
      ∙ ap (λ v. resolve_deps v deps seen) (fun_ext λ task. fun_ext λ s. e task s)

  resolve_excluding-nil :
      (fuel : ℕ) (reg : Registry T) (task : String) (seen : List String)
      → resolve_excluding fuel reg [] task seen ≡ resolve fuel reg task seen
  unfolding resolve_excluding resolve has
  resolve_excluding-nil zero reg task seen = refl
  resolve_excluding-nil (suc fuel) reg task seen = λ i. elim (has task seen) [
    | true ↦ found seen
    | false ↦ elim (lookup task reg) [
      | none ↦ missing seen
      | some def ↦
          leave task (
            visits-nil fuel reg (resolve_excluding-nil fuel reg) (m.task_deps def) (add task seen)
              i)
    ]
  ]

  -- With nothing excluded, the two resolvers agree.
  pub resolve_dependencies_excluding-nil :
      (targets : List String) (reg : Registry T)
      → resolve_dependencies_excluding targets reg [] ≡ resolve_dependencies targets reg
  unfolding resolve_dependencies_excluding resolve_dependencies
  resolve_dependencies_excluding-nil targets reg =
      visits-nil (suc (length reg)) reg (resolve_excluding-nil (suc (length reg)) reg) targets []

  -- ResolveDependenciesGeneric finds exactly the names that are reachable from the targets, all of
  -- them registered, or fails with a reachable name that is not registered; it always ends.
  pub resolve_dependencies-Resolves :
      (targets : List String) (reg : Registry T)
      → Resolves targets reg [] (resolve_dependencies targets reg)
  resolve_dependencies-Resolves targets reg =
      rw (← resolve_dependencies_excluding-nil)
        (resolve_dependencies_excluding-Resolves targets reg [])
