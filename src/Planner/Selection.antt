-- ===== src/Planner/Selection.antt =====
-- What the selection of target tasks guarantees.
use text.Mathlib.Text.{starts_with}
use sonar_migration_tool.Common.{
  ◌≡◌, refl, ◌↔◌, ◌⊎◌, inl, inr, Bool, true, false, ◌&&◌, ◌||◌, Option, none, some, List, [], ◌∷◌,
  String, arith, has, has-keep, has-append, Bool-cases,
}
use sonar_migration_tool.Planner.Defs.{Registry}
use sonar_migration_tool.Planner.Ready.{has-sort}
use sonar_migration_tool.Planner.Targets.{
  Categories, Flags, contains, has_excluded_prefix, is_excluded_task, migrate_issue_sync_tasks,
  tasks_not_selected, excluded_tasks, names, default_keeps, default_migrate_target_tasks,
  migrate_project_data_tasks,
}

-- A category that is not selected lists the task.
abbrev pub Unselected : Categories → List String → String → Type 0
Unselected [] selected t = ⊥
Unselected ((category, tasks) ∷ rest) selected t =
    ((has category selected ≡ false) × (has t tasks ≡ true)) ⊎ Unselected rest selected t

pub has-tasks_not_selected :
    (categories : Categories) (selected : List String) (t : String)
    → has t (tasks_not_selected categories selected) ≡ true ↔ Unselected categories selected t
unfolding tasks_not_selected has
has-tasks_not_selected [] selected t = (λ h. absurd (cc), λ h. absurd h)
has-tasks_not_selected ((category, tasks) ∷ rest) selected t =
    let ih = has-tasks_not_selected rest selected t in
    elim (Bool-cases (has category selected)) [
      | inl e ↦ rw e (λ h. inr (ih.0 h), elim [ inl c ↦ absurd (cc (c.0)) | inr u ↦ ih.1 u ])
      | inr e ↦
          rw (e, has-append)
            (
              λ h. elim (Bool-cases (has t tasks)) [
                | inl k ↦ inl (refl, k)
                | inr k ↦ inr (ih.0 (rw k at h))
              ],
              elim [ inl c ↦ rw (c.1) refl | inr u ↦ ground (arith, ih.1 u) ],
            )
    ]

-- The names that a category outside the selection lists; without a selection there are none.
abbrev pub Deselected : Categories → Option (List String) → String → Type 0
Deselected categories none t = ⊥
Deselected categories (some selected) t = Unselected categories selected t

has-excluded_tasks :
    (categories : Categories) (objects : Option (List String)) (t : String)
    → has t (excluded_tasks categories objects) ≡ true ↔ Deselected categories objects t
unfolding excluded_tasks has
has-excluded_tasks categories none t = (λ h. absurd (cc), λ h. absurd h)
has-excluded_tasks categories (some selected) t = has-tasks_not_selected categories selected t

-- Why a default run leaves a task out, whatever objects are selected: its name says that it reads,
-- deletes or resets, it is about profiles and these are skipped, it carries project data and this is
-- skipped or not included, or it is one of the final syncs and these are skipped.
pub data Barred (flags : Flags) (t : String) : Type 0 where
  reads : starts_with t "get" ≡ true → Barred flags t
  deletes : starts_with t "delete" ≡ true → Barred flags t
  resets : starts_with t "reset" ≡ true → Barred flags t
  profiles :
      flags.skip_profiles ≡ true
      → (contains t "Profile" ≡ true) ⊎ (contains t "profile" ≡ true)
      → Barred flags t
  project_data :
      has t ("importProjectData" ∷ "syncHotspotMetadata" ∷ "syncIssueMetadata" ∷ []) ≡ true
      → (flags.skip_project_data_migration ≡ true) ⊎ (flags.include_project_data ≡ false)
      → Barred flags t
  issue_sync :
      flags.skip_issue_sync ≡ true
      → has t ("syncHotspotMetadata" ∷ "syncIssueMetadata" ∷ []) ≡ true
      → Barred flags t

Bool-or : (a b : Bool) → (a || b) ≡ true → (a ≡ true) ⊎ (b ≡ true)
Bool-or true b h = inl refl
Bool-or false b h = inr h

prefixed : (t : String) (flags : Flags) → has_excluded_prefix t ≡ true → Barred flags t
unfolding has_excluded_prefix
prefixed t flags h = elim (Bool-or _ _ h) [
  | inl e ↦ reads e
  | inr h' ↦ elim (Bool-or _ _ h') [ inl e ↦ deletes e | inr e ↦ resets e ]
]

syncs :
    (t : String) (flags : Flags)
    → (flags.skip_issue_sync && has t migrate_issue_sync_tasks) ≡ true
    → (flags.skip_issue_sync ≡ true) × (has t migrate_issue_sync_tasks ≡ true)
syncs t flags h = (ground (arith, h), ground (arith, h))

excluded→Barred : (t : String) (flags : Flags) → is_excluded_task t flags ≡ true → Barred flags t
unfolding is_excluded_task
excluded→Barred t flags h = elim (Bool-cases (has_excluded_prefix t)) [
  | inl e ↦ prefixed t flags e
  | inr no_prefix ↦
      elim (Bool-cases (flags.skip_profiles && (contains t "Profile" || contains t "profile"))) [
        | inl e ↦ profiles (ground (arith, e)) (Bool-or _ _ (ground (arith, e)))
        | inr no_profile ↦ elim (Bool-cases (has t migrate_project_data_tasks)) [
          | inl data_task ↦ elim (Bool-cases flags.skip_project_data_migration) [
            | inl skip ↦ project_data data_task (inl skip)
            | inr kept ↦ elim (Bool-cases flags.include_project_data) [
              | inr not_included ↦ project_data data_task (inr not_included)
              | inl included ↦ let both = syncs t flags (ground arith) in issue_sync both.0 both.1
            ]
          ]
          | inr other ↦ let both = syncs t flags (ground arith) in issue_sync both.0 both.1
        ]
      ]
]

Barred→excluded : (t : String) (flags : Flags) → Barred flags t → is_excluded_task t flags ≡ true
unfolding is_excluded_task has_excluded_prefix
Barred→excluded t flags (reads e) = ground (arith, e)
Barred→excluded t flags (deletes e) = ground (arith, e)
Barred→excluded t flags (resets e) = ground (arith, e)
Barred→excluded t flags (profiles skip (inl e)) = ground (arith, skip, e)
Barred→excluded t flags (profiles skip (inr e)) = ground (arith, skip, e)
Barred→excluded t flags (project_data e (inl skip)) = ground (arith, skip, e)
Barred→excluded t flags (project_data e (inr left_out)) = ground (arith, left_out, e)
Barred→excluded t flags (issue_sync skip e) = ground (arith, skip, e)

module _ {ℓ} {T : Type ℓ} (categories : Categories) (reg : Registry T) (flags : Flags) where
  -- The default run takes a task exactly if it is registered, no flag and no part of its name bars
  -- it, and no category that is left out of a selection of objects lists it; without such a selection
  -- no category does.
  pub default_migrate_target_tasks_iff :
      (objects : Option (List String)) (t : String)
      → has t (default_migrate_target_tasks categories reg flags objects) ≡ true
        ↔ ((has t (names reg) ≡ true) × (¬ Barred flags t) × (¬ Deselected categories objects t))
  unfolding default_migrate_target_tasks default_keeps
  default_migrate_target_tasks_iff objects t =
      let listed = has-excluded_tasks categories objects t in
      let barred = excluded→Barred t flags in
      rw (has-sort, has-keep)
        (
          λ h. (
            ground (arith, h),
            λ b. let e = Barred→excluded t flags b in ground (arith, h, e),
            λ u. let k = listed.1 u in ground (arith, h, k),
          ),
          λ h. elim (Bool-cases (has t (excluded_tasks categories objects))) [
            | inl k ↦ absurd (h.2 (listed.0 k))
            | inr k ↦ elim (Bool-cases (is_excluded_task t flags)) [
              | inl e ↦ absurd (h.1 (barred e))
              | inr e ↦ ground (arith, h.0, e, k)
            ]
          ],
        )
