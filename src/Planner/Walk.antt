-- ===== src/Planner/Walk.antt =====
-- The invariant of the dependency walk, visit by visit.
use mathlib.Core.Path.{subst}
use sonar_migration_tool.Common.{
  ℕ, zero, suc, ◌<◌, ◌≡◌, sym, ◌⊎◌, inl, inr, true, false, Option, none, some, List, [], ◌∷◌,
  String, arith, eq_iff, str_eq, has, add, lookup, Subset, has-add, has-cons_self, has-cons_mono,
  Bool-cases, Option-cases, Subset-add, has-add_self, NoDup, add-NoDup,
}
use sonar_migration_tool.Planner.Defs.{
  TaskMeta, Registry, Walk, found, missing, stuck, resolve_deps_excluding, leave, resolve_excluding,
}
use sonar_migration_tool.Planner.Unseen.{unseen, unseen_mono, unseen-add}

-- Every dependency of `deps` that may be entered is in the set.
abbrev pub Covers : List String → List String → List String → Type 0
Covers excluded deps seen =
    (y : String) → has y deps ≡ true → (has y excluded ≡ true) ⊎ (has y seen ≡ true)

module _ {T : Type 0} ⦃m : TaskMeta T⦄ where
  abbrev pub ClosedAt : List String → List String → Option T → Type 0
  ClosedAt excluded seen none = ⊥
  ClosedAt excluded seen (some def) = Covers excluded (m.task_deps def) seen

  ClosedAt-mono :
      (excluded seen seen' : List String) (o : Option T)
      → Subset seen seen'
      → ClosedAt excluded seen o
      → ClosedAt excluded seen' o
  ClosedAt-mono excluded seen seen' none sub c = c
  ClosedAt-mono excluded seen seen' (some def) sub c =
      λ y h. elim (c y h) [ inl out ↦ inl out | inr inside ↦ inr (sub y inside) ]

  module _ (reg : Registry T) (excluded : List String) (R : String → Type 0) where
    -- A name that the walk has finished with: it is among those that had to be entered, and its
    -- dependencies are in the set.
    abbrev pub Settled : List String → String → Type 0
    Settled seen x = R x × ClosedAt excluded seen (lookup x reg)

    -- What a walk from `seen` that visits `goals` comes back with.
    abbrev pub After : (String → Type 0) → List String → Walk → Type 0
    After Goal seen (found seen') =
        Subset seen seen'
        × ((x : String) → Goal x → has x seen' ≡ true)
        × ((x : String) → has x seen' ≡ true → (has x seen ≡ true) ⊎ Settled seen' x)
        × (NoDup seen → NoDup seen')
    After Goal seen (missing seen') = (x : String) × R x × (lookup x reg ≡ none)
    After Goal seen stuck = ⊥

    -- The visit of one name, from any set with at most `n` names left to mark.
    abbrev pub Visits : (String → List String → Walk) → ℕ → Type 0
    Visits visit n =
        (x : String) (seen : List String)
        → R x
        → has x excluded ≡ false
        → unseen reg seen < n
        → After (λ y. y ≡ x) seen (visit x seen)

    abbrev pub Wanted : List String → String → Type 0
    Wanted deps y = (has y deps ≡ true) × (has y excluded ≡ false)

    After-append :
        (dep : String) (deps seen seen' : List String) (w : Walk)
        → After (λ y. y ≡ dep) seen (found seen')
        → After (Wanted deps) seen' w
        → After (Wanted (dep ∷ deps)) seen w
    unfolding has
    After-append dep deps seen seen' (found seen'') (sub, goal, old, nodup)
          (sub', goal', old', nodup') =
        (
          λ s h. sub' s (sub s h),
          λ s h. elim (Bool-cases (str_eq dep s)) [
            | inl e ↦ sub' s (goal s (sym ((eq_iff dep s).0 e)))
            | inr e ↦ goal' s (rw e at h.0, h.1)
          ],
          λ s h. elim (old' s h) [
            | inr settled ↦ inr settled
            | inl h' ↦ elim (old s h') [
              | inl h'' ↦ inl h''
              | inr (r, c) ↦ inr (r, ClosedAt-mono excluded seen' seen'' (lookup s reg) sub' c)
            ]
          ],
          λ n. nodup' (nodup n),
        )
    After-append dep deps seen seen' (missing s) a b = b
    After-append dep deps seen seen' stuck a b = b

    After-target :
        (x : String) (seen : List String) → has x seen ≡ true → After (λ y. y ≡ x) seen (found seen)
    After-target x seen h = (λ s k. k, λ s e. rw e h, λ s k. inl k, λ n. n)

    -- An excluded dependency is passed over.
    After-skip :
        (dep : String) (deps seen : List String) (w : Walk)
        → has dep excluded ≡ true
        → After (Wanted deps) seen w
        → After (Wanted (dep ∷ deps)) seen w
    unfolding has
    After-skip dep deps seen (found seen') out (sub, goal, old, nodup) =
        (sub, λ s h. goal s (ground (arith, eq_iff dep s, h), h.1), old, nodup)
    After-skip dep deps seen (missing s) out a = a
    After-skip dep deps seen stuck out a = a

    -- The visit of a dependency, and then of those behind it.
    After-visit :
        (visit : String → List String → Walk) (dep : String) (deps seen : List String) (n : ℕ)
        (w : Walk)
        → After (λ y. y ≡ dep) seen w
        → unseen reg seen < n
        → ((seen' : List String)
            → unseen reg seen' < n
            → After (Wanted deps) seen' (resolve_deps_excluding visit excluded deps seen'))
        → After (Wanted (dep ∷ deps)) seen (elim w [
          | found seen' ↦ resolve_deps_excluding visit excluded deps seen'
          | missing seen' ↦ missing seen'
          | stuck ↦ stuck
        ])
    After-visit visit dep deps seen n (found seen') a lt rest =
        After-append dep deps seen seen' _ a
          (rest seen' (omega (arith, unseen_mono reg seen seen' a.0)))
    After-visit visit dep deps seen n (missing s) a lt rest = a
    After-visit visit dep deps seen n stuck a lt rest = a

    -- The loop over the dependencies, given the visit of one.
    pub resolve_deps-After :
        (visit : String → List String → Walk) (n : ℕ)
        → Visits visit n
        → (deps seen : List String) → ((y : String) → Wanted deps y → R y)
        → unseen reg seen < n
        → After (Wanted deps) seen (resolve_deps_excluding visit excluded deps seen)
    unfolding resolve_deps_excluding has
    resolve_deps-After visit n v [] seen r lt = (λ s h. h, λ s h. cc (h.0), λ s h. inl h, λ n. n)
    resolve_deps-After visit n v (dep ∷ deps) seen r lt = elim (Bool-cases (has dep excluded)) [
      | inl out ↦
          rw (out, After, resolve_deps_excluding)
            (After-skip dep deps seen _ out (
              resolve_deps-After visit n v deps seen
                (λ y w. r y (has-cons_mono y dep deps w.0, w.1)) lt))
      | inr ok ↦
          rw (ok, After, resolve_deps_excluding)
            (After-visit visit dep deps seen n (visit dep seen)
              (v dep seen (r dep (has-cons_self dep deps, ok)) ok lt) lt
              (λ seen' lt'.
                resolve_deps-After visit n v deps seen'
                  (λ y w. r y (has-cons_mono y dep deps w.0, w.1)) lt'))
    ]

    After-leave :
        (x : String) (def : T) (seen : List String) (w : Walk)
        → R x
        → lookup x reg ≡ some def
        → After (Wanted (m.task_deps def)) (add x seen) w
        → After (λ y. y ≡ x) seen (leave x w)
    unfolding leave
    After-leave x def seen (found seen') r e (sub, goal, old, nodup) = (
      λ s h. sub s (Subset-add x seen s h),
      λ s p. rw p (sub x (has-add_self x seen)),
      λ s h. elim (old s h) [
        | inr settled ↦ inr settled
        | inl h' ↦ elim (Bool-cases (str_eq x s)) [
          | inl p ↦ inr (subst (λ z. Settled seen' z) ((eq_iff x s).0 p) (r, rw e (entered)))
          | inr p ↦ inl (let k = has-add s x seen in ground (arith, k))
        ]
      ],
      λ n. nodup (add-NoDup x seen n),
    )
      where
        entered : Covers excluded (m.task_deps def) seen'
        entered y h = elim (Bool-cases (has y excluded)) [
          | inl out ↦ inl out
          | inr ok ↦ inr (goal y (h, ok))
        ]
    After-leave x def seen (missing s) r e a = a
    After-leave x def seen stuck r e a = a

    -- A visit, given that what it has to enter is closed under dependencies.
    pub resolve-Visits :
        ((x y : String) (def : T)
          → R x
          → lookup x reg ≡ some def
          → Wanted (m.task_deps def) y
          → R y)
        → (fuel : ℕ) → Visits (resolve_excluding fuel reg excluded) fuel
    unfolding resolve_excluding
    resolve-Visits closed zero x seen r ok lt = elim lt [ ]
    resolve-Visits closed (suc fuel) x seen r ok lt = elim (Bool-cases (has x seen)) [
      | inl old ↦ rw (old, After, resolve_excluding) (After-target x seen old)
      | inr fresh ↦
          rw (fresh, After, resolve_excluding)
            (rw (ok, After, resolve_excluding)
              (elim (Option-cases (lookup x reg)) [
                | inl e ↦ rw (e, After, resolve_excluding) (x, r, e)
                | inr (def, e) ↦
                    rw (e, After, resolve_excluding)
                      (After-leave x def seen _ r e (
                        resolve_deps-After (resolve_excluding fuel reg excluded) fuel
                          (resolve-Visits closed fuel) (m.task_deps def) (add x seen)
                          (λ y w. closed x y def r e w)
                          (omega (arith, unseen-add reg x def seen fresh e))))
              ]))
    ]
