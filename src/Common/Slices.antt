-- ===== src/Common/Slices.antt =====
-- Lemmas on `take` and `drop`, and on options.
use Prim.Native.Nat.{ℕ, zero, suc, ◌+◌, ◌-◌, ◌≤◌}
use mathlib.Core.Path.{◌≡◌, refl, sym, ap, ◌∙◌}
use mathlib.Core.List.{List, [], ◌∷◌, ◌++◌}
use mathlib.Core.Option.{Option, none, some}
use native.Mathlib.Omega.{arith}
use sonar_migration_tool.Common.Lists.{length, take, drop}

pub some-inj {ℓ} : {A : Type ℓ} {a b : A} → ◌≡◌ {A = Option A} (some a) (some b) → a ≡ b
some-inj {A} {a} {b} e = ap (λ (o : Option A). elim o [ none ↦ a | some x ↦ x ]) e

pub none_not_some {ℓ} : {A : Type ℓ} {a : A} → ◌≡◌ {A = Option A} none (some a) → ⊥
none_not_some e = cc

pub add_suc : (n m : ℕ) → suc (n + m) ≡ suc n + m
add_suc n m = omega arith

module _ {ℓ} {A : Type ℓ} where
  pub take_nil : (n : ℕ) → take {A = A} n [] ≡ []
  take_nil zero = refl
  take_nil (suc n) = refl

  pub drop_nil : (n : ℕ) → drop {A = A} n [] ≡ []
  drop_nil zero = refl
  drop_nil (suc n) = refl

  pub take-take_append : (n m : ℕ) (xs : List A) → take n xs ++ take m (drop n xs) ≡ take (n + m) xs
  take-take_append zero m xs = ap (λ k. take k xs) (omega arith)
  take-take_append (suc n) m [] = take_nil m ∙ sym (take_nil (suc n + m))
  take-take_append (suc n) m (x ∷ xs) =
      ap (λ ys. x ∷ ys) (take-take_append n m xs) ∙ ap (λ k. take k (x ∷ xs)) (add_suc n m)

  pub drop-drop : (n m : ℕ) (xs : List A) → drop n (drop m xs) ≡ drop (m + n) xs
  drop-drop n zero xs = ap (λ k. drop k xs) (omega arith)
  drop-drop n (suc m) [] = drop_nil n ∙ sym (drop_nil (suc m + n))
  drop-drop n (suc m) (x ∷ xs) = drop-drop n m xs ∙ ap (λ k. drop k (x ∷ xs)) (add_suc m n)

  pub take_all : (n : ℕ) (xs : List A) → length xs ≤ n → take n xs ≡ xs
  take_all zero [] h = refl
  take_all (suc n) [] h = refl
  take_all zero (x ∷ xs) h = absurd (omega arith)
  take_all (suc n) (x ∷ xs) h = ap (λ ys. x ∷ ys) (take_all n xs (omega arith))

  pub length-take_le :
      (n : ℕ) (ys : List A) → (length (take n ys) ≤ n) × (length (take n ys) ≤ length ys)
  length-take_le zero ys = (omega arith, omega arith)
  length-take_le (suc n) [] = (omega arith, omega arith)
  length-take_le (suc n) (y ∷ ys) = let (a, b) = length-take_le n ys in (omega arith, omega arith)

  pub length-take_exact : (n : ℕ) (ys : List A) → n ≤ length ys → length (take n ys) ≡ n
  length-take_exact zero ys h = refl
  length-take_exact (suc n) [] h = absurd (omega arith)
  length-take_exact (suc n) (y ∷ ys) h = ap suc (length-take_exact n ys (omega arith))

  pub length-drop : (n : ℕ) (ys : List A) → length (drop n ys) ≡ length ys - n
  length-drop zero ys = omega arith
  length-drop (suc n) [] = omega arith
  length-drop (suc n) (y ∷ ys) = omega (arith, length-drop n ys)

  pub take-take : (k n : ℕ) (ys : List A) → k ≤ n → take k (take n ys) ≡ take k ys
  take-take zero n ys h = refl
  take-take (suc k) zero ys h = absurd (omega arith)
  take-take (suc k) (suc n) [] h = refl
  take-take (suc k) (suc n) (y ∷ ys) h = ap (λ zs. y ∷ zs) (take-take k n ys (omega arith))

  pub append_nil : (xs : List A) → xs ++ [] ≡ xs
  append_nil [] = refl
  append_nil (x ∷ xs) = ap (λ ys. x ∷ ys) (append_nil xs)
