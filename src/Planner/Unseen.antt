-- ===== src/Planner/Unseen.antt =====
-- The measure of the dependency walk: how many registered names are not yet in `seen`.
use sonar_migration_tool.Common.{
  ℕ, suc, ◌≤◌, ◌<◌, ◌≡◌, false, some, List, [], ◌∷◌, String, arith, eq_iff, has, add, lookup,
  length, Subset, if◌then◌else◌, has-add, Subset-add,
}
use sonar_migration_tool.Planner.Defs.{Registry}

module _ {ℓ} {T : Type ℓ} where
  pub unseen : Registry T → List String → ℕ
  unseen [] seen = 0
  unseen ((name, def) ∷ reg) seen = if has name seen then unseen reg seen else suc (unseen reg seen)

  pub unseen-le-length : (reg : Registry T) (seen : List String) → unseen reg seen ≤ length reg
  unfolding unseen
  unseen-le-length [] seen = omega arith
  unseen-le-length ((name, def) ∷ reg) seen = ground (arith, unseen-le-length reg seen)

  pub unseen_mono :
      (reg : Registry T) (seen seen' : List String)
      → Subset seen seen'
      → unseen reg seen' ≤ unseen reg seen
  unfolding unseen
  unseen_mono [] seen seen' sub = omega arith
  unseen_mono ((name, def) ∷ reg) seen seen' sub =
      ground (arith, unseen_mono reg seen seen' sub, sub name)

  -- Marking a registered name that was not marked makes the measure fall.
  pub unseen-add :
      (reg : Registry T) (task : String) (def : T) (seen : List String)
      → has task seen ≡ false
      → lookup task reg ≡ some def
      → unseen reg (add task seen) < unseen reg seen
  unfolding unseen lookup
  unseen-add [] task def seen fresh e = cc
  unseen-add ((name, d) ∷ reg) task def seen fresh e = ground (
    arith,
    unseen-add reg task def seen,
    unseen_mono reg seen (add task seen) (Subset-add task seen),
    has-add name task seen,
    eq_iff name task,
    eq_iff task name,
  )
