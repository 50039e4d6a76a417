-- ===== src/Common/Sets.antt =====
-- Laws of the sets of names: deletion, counting and the pigeonhole argument.
use Prim.Native.Nat.{◌≤◌, ◌<◌}
use Prim.Native.String.{String}
use mathlib.Core.Path.{subst, ◌≡◌, refl}
use mathlib.Core.Logic.{◌⊎◌, inl, inr}
use mathlib.Core.Bool.{Bool, true, false, not, ◌&&◌}
use mathlib.Core.List.{List, [], ◌∷◌}
use native.Mathlib.Omega.{arith}
use text.Mathlib.TextEquality.{eq_iff}
use text.Mathlib.TextPositions.{eq_refl}
use sonar_migration_tool.Common.Tests.{Bool-cases, if◌then◌else◌}
use sonar_migration_tool.Common.Lists.{length, All}
use sonar_migration_tool.Common.Names.{str_eq, has, add, delete, Subset, NoDup, has-add}

pub has-cons_self : (s : String) (xs : List String) → has s (s ∷ xs) ≡ true
unfolding has
has-cons_self s xs = rw eq_refl

pub has-cons_mono : (s t : String) (xs : List String) → has s xs ≡ true → has s (t ∷ xs) ≡ true
unfolding has
has-cons_mono s t xs h = ground arith

pub has-delete :
    (s t : String) (xs : List String) → has s (delete t xs) ≡ (has s xs && not (str_eq t s))
unfolding has delete
has-delete s t [] = refl
has-delete s t (x ∷ xs) = ground (arith, has-delete s t xs, eq_iff x t, eq_iff x s, eq_iff t s)

length-delete-le : (t : String) (xs : List String) → length (delete t xs) ≤ length xs
unfolding delete
length-delete-le t [] = omega arith
length-delete-le t (x ∷ xs) = ground (arith, length-delete-le t xs)

length-delete-lt :
    (t : String) (xs : List String) → has t xs ≡ true → length (delete t xs) < length xs
unfolding has delete
length-delete-lt t [] h = cc
length-delete-lt t (x ∷ xs) h = ground (arith, length-delete-lt t xs, length-delete-le t xs)

Subset-delete :
    (x : String) (xs ys : List String)
    → has x xs ≡ false
    → Subset (x ∷ xs) ys
    → Subset xs (delete x ys)
unfolding has
Subset-delete x xs ys fresh sub s h = rw has-delete (ground (arith, sub s, eq_iff x s))

-- A set inside another has at most as many elements.
pub length-le_of_Subset : (xs ys : List String) → NoDup xs → Subset xs ys → length xs ≤ length ys
length-le_of_Subset [] ys n sub = omega arith
length-le_of_Subset (x ∷ xs) ys (fresh, n) sub = omega (
  arith,
  length-le_of_Subset xs (delete x ys) n (Subset-delete x xs ys fresh sub),
  length-delete-lt x ys (sub x (has-cons_self x xs)),
)

Subset-cons :
    (y : String) (xs ys : List String) → has y ys ≡ true → Subset xs ys → Subset (y ∷ xs) ys
unfolding has
Subset-cons y xs ys h sub s k = ground (arith, sub s, eq_iff y s)

-- Pigeonhole: a set inside another that is no larger contains it.
pub Subset_of_length :
    (xs ys : List String) → NoDup xs → Subset xs ys → length ys ≤ length xs → Subset ys xs
Subset_of_length xs ys n sub le s h = elim (Bool-cases (has s xs)) [
  | inl here ↦ here
  | inr fresh ↦
      absurd (omega (arith, length-le_of_Subset (s ∷ xs) ys (fresh, n) (Subset-cons s xs ys h sub)))
]

pub add-NoDup : (s : String) (xs : List String) → NoDup xs → NoDup (add s xs)
unfolding add
add-NoDup s xs n = elim (Bool-cases (has s xs)) [ inl h ↦ rw h n | inr h ↦ rw h (h, n) ]

pub Subset-add : (s : String) (xs : List String) → Subset xs (add s xs)
Subset-add s xs t h = rw has-add (ground (arith, h))

pub has-add_self : (s : String) (xs : List String) → has s (add s xs) ≡ true
has-add_self s xs = rw (has-add, eq_refl)

pub has-eq_of_Subset :
    (xs ys : List String) → Subset xs ys → Subset ys xs → (s : String) → has s xs ≡ has s ys
has-eq_of_Subset xs ys sub sub' s = ground (arith, sub s, sub' s)

-- A set is inside another, or an element of it is outside.
pub Subset-or_outside :
    (xs ys : List String) → Subset xs ys ⊎ ((s : String) × (has s xs ≡ true) × (has s ys ≡ false))
unfolding has
Subset-or_outside [] ys = inl (λ s h. absurd (cc))
Subset-or_outside (x ∷ xs) ys = elim (Bool-cases (has x ys)) [
  | inr out ↦ inr (x, rw eq_refl, out)
  | inl inside ↦ elim (Subset-or_outside xs ys) [
    | inl sub ↦ inl (λ s h. ground (arith, sub s, eq_iff x s, inside, h))
    | inr (s, h, out) ↦ inr (s, has-cons_mono s x xs h, out)
  ]
]

-- A loop that appends the names that pass a test.
unfoldable pub keep : (String → Bool) → List String → List String
keep test [] = []
keep test (x ∷ xs) = let out = keep test xs in if test x then x ∷ out else out

pub has-keep :
    (test : String → Bool) (s : String) (xs : List String)
    → has s (keep test xs) ≡ (has s xs && test s)
unfolding keep has
has-keep test s [] = refl
has-keep test s (x ∷ xs) = ground (arith, has-keep test s xs, eq_iff x s)

-- What holds of each element of a set, for a name that is in it.
pub has-All {ℓ} :
    (P : String → Type ℓ) (xs : List String) → All P xs → (s : String) → has s xs ≡ true → P s
unfolding has
has-All P [] a s h = absurd (cc)
has-All P (x ∷ xs) (p, a) s h = elim (Bool-cases (str_eq x s)) [
  | inl e ↦ subst P ((eq_iff x s).0 e) p
  | inr e ↦ has-All P xs a s (rw e at h)
]
