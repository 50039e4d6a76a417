-- ===== src/Matching/Align.antt =====
-- Alignments of two texts: an independent description of the edit distance.
use mathlib.Core.List.{append-nil}
use mathlib.Core.Path.{subst}
use sonar_migration_tool.Common.{
  ℕ, ◌+◌, ◌≤◌, ◌≡◌, refl, ◌∙◌, [], ◌∷◌, ◌++◌, length, arith, ltb, Bool-cases, inl, inr,
}
use sonar_migration_tool.Matching.Defs.{Text, min3, cost, abs_difference}

-- One text is turned into the other from left to right, by deleting, inserting, and keeping or
-- replacing runes; the number counts all steps but the kept runes.
pub data Align : Text → Text → ℕ → Type 0 where
  done : Align [] [] 0
  delete : {x : ℕ} {a b : Text} {n : ℕ} → Align a b n → Align (x ∷ a) b (n + 1)
  insert : {y : ℕ} {a b : Text} {n : ℕ} → Align a b n → Align a (y ∷ b) (n + 1)
  replace : {x y : ℕ} {a b : Text} {n : ℕ} → Align a b n → Align (x ∷ a) (y ∷ b) (n + cost x y)

-- The runes of the first text, last one first, before the second text.
abbrev pub reverse_onto : Text → Text → Text
reverse_onto [] c = c
reverse_onto (x ∷ a) c = reverse_onto a (x ∷ c)

reverse-reverse_onto : (a c d : Text) → reverse_onto (reverse_onto a c) d ≡ reverse_onto c (a ++ d)
reverse-reverse_onto [] c d = refl
reverse-reverse_onto (x ∷ a) c d = reverse-reverse_onto a (x ∷ c) d

recount : {a b : Text} {n m : ℕ} → n ≡ m → Align a b n → Align a b m
recount {a} {b} e f = subst (λ k. Align a b k) e f

Align-reverse_onto :
    {a b c d : Text} {n m : ℕ}
    → Align a b n
    → Align c d m
    → Align (reverse_onto a c) (reverse_onto b d) (n + m)
Align-reverse_onto done f = recount (omega arith) f
Align-reverse_onto (delete e) f = recount (omega arith) (Align-reverse_onto e (delete f))
Align-reverse_onto (insert e) f = recount (omega arith) (Align-reverse_onto e (insert f))
Align-reverse_onto (replace e) f = recount (omega arith) (Align-reverse_onto e (replace f))

pub Align-reverse :
    {a b : Text} {n : ℕ} → Align a b n → Align (reverse_onto a []) (reverse_onto b []) n
Align-reverse e = recount (omega arith) (Align-reverse_onto e done)

reverse_twice : (a : Text) → reverse_onto (reverse_onto a []) [] ≡ a
reverse_twice a = reverse-reverse_onto a [] [] ∙ append-nil a

pub Align_of-reverse :
    {a b : Text} {n : ℕ} → Align (reverse_onto a []) (reverse_onto b []) n → Align a b n
Align_of-reverse {a} {b} {n} e =
    subst (λ s. Align s b n) (reverse_twice a)
      (subst (λ s. Align (reverse_onto (reverse_onto a []) []) s n) (reverse_twice b)
        (Align-reverse e))

-- The least cost of an alignment.
pub record Best (a b : Text) (n : ℕ) : Type 0 where
  pub reached : Align a b n
  pub least : (m : ℕ) → Align a b m → n ≤ m

pub Align-abs_difference :
    {a b : Text} {n : ℕ} → Align a b n → abs_difference (length a) (length b) ≤ n
unfolding abs_difference
Align-abs_difference done = omega arith
Align-abs_difference (delete e) = omega (arith, Align-abs_difference e)
Align-abs_difference (insert e) = omega (arith, Align-abs_difference e)
Align-abs_difference (replace e) = omega (arith, Align-abs_difference e)

Align-nil_left : (b : Text) → Align [] b (length b)
Align-nil_left [] = done
Align-nil_left (y ∷ b) = recount (omega arith) (insert {y = y} (Align-nil_left b))

Align-nil_right : (a : Text) → Align a [] (length a)
Align-nil_right [] = done
Align-nil_right (x ∷ a) = recount (omega arith) (delete {x = x} (Align-nil_right a))

pub Best-nil_left : (b : Text) → Best [] b (length b)
unfolding abs_difference
Best-nil_left b = record {
  reached = Align-nil_left b;
  least = λ m e. omega (arith, Align-abs_difference e);
}

pub Best-nil_right : (a : Text) → Best a [] (length a)
unfolding abs_difference
Best-nil_right a = record {
  reached = Align-nil_right a;
  least = λ m e. omega (arith, Align-abs_difference e);
}

min3_reached : (P : ℕ → Type 0) (a b c : ℕ) → P a → P b → P c → P (min3 a b c)
unfolding min3
min3_reached P a b c pa pb pc = elim (Bool-cases (ltb b a)) [
  | inl first ↦ rw first (elim (Bool-cases (ltb c b)) [ inl k ↦ rw k pc | inr k ↦ rw k pb ])
  | inr first ↦ rw first (elim (Bool-cases (ltb c a)) [ inl k ↦ rw k pc | inr k ↦ rw k pa ])
]

min3_least : (a b c : ℕ) → (min3 a b c ≤ a) × (min3 a b c ≤ b) × (min3 a b c ≤ c)
unfolding min3
min3_least a b c = ground arith

cell_least :
    (x y : ℕ) (a b : Text) (l p d : ℕ)
    → Best (x ∷ a) b l
    → Best a (y ∷ b) p
    → Best a b d
    → (m : ℕ) → Align (x ∷ a) (y ∷ b) m
    → min3 (l + 1) (p + 1) (d + cost x y) ≤ m
cell_least x y a b l p d bl bp bd m (delete {n} e) =
    omega (arith, (min3_least (l + 1) (p + 1) (d + cost x y)).1, bp.least n e)
cell_least x y a b l p d bl bp bd m (insert {n} e) =
    omega (arith, (min3_least (l + 1) (p + 1) (d + cost x y)).0, bl.least n e)
cell_least x y a b l p d bl bp bd m (replace {n} e) =
    omega (arith, (min3_least (l + 1) (p + 1) (d + cost x y)).2, bd.least n e)

-- The cell of the table from its three neighbours.
pub Best-min3 :
    (x y : ℕ) (a b : Text) (l p d : ℕ)
    → Best (x ∷ a) b l
    → Best a (y ∷ b) p
    → Best a b d
    → Best (x ∷ a) (y ∷ b) (min3 (l + 1) (p + 1) (d + cost x y))
Best-min3 x y a b l p d bl bp bd = record {
  reached =
      min3_reached (λ n. Align (x ∷ a) (y ∷ b) n) (l + 1) (p + 1) (d + cost x y) (insert bl.reached)
        (delete bp.reached) (replace bd.reached);
  least = cell_least x y a b l p d bl bp bd;
}
