-- ===== src/Matching/Distance.antt =====
-- The table of levenshteinWithin in matchscore.go.
use mathlib.Core.Path.{subst}
use sonar_migration_tool.Common.{
  ℕ, suc, ◌+◌, ◌≤◌, ◌≡◌, refl, inl, inr, ◌↔◌, true, List, [], ◌∷◌, length, arith, ltb, ◌==◌,
  Bool-cases, leb→le, le→leb, ltb→lt,
}
use sonar_migration_tool.Matching.Defs.{
  Text, same, min3, cost, fill, rows, count_up, last_cell, abs_difference, levenshtein_within,
}
use sonar_migration_tool.Matching.Align.{
  Align, done, replace, Best, reverse_onto, Align-reverse, Align_of-reverse, Align-abs_difference,
  Best-nil_left, Best-nil_right, Best-min3,
}

-- A row of the table: `b` has been passed, last rune first, and `rb` is to come.
abbrev Row : Text → Text → Text → List ℕ → Type 0
Row a b rb [] = ⊥
Row a b [] (n ∷ []) = Best a b n
Row a b [] (n ∷ m ∷ row) = ⊥
Row a b (y ∷ rb) (n ∷ row) = Best a b n × Row a (y ∷ b) rb row

Row-head : (a b rb : Text) (q : ℕ) (prev : List ℕ) → Row a b rb (q ∷ prev) → Best a b q
Row-head a b [] q [] r = r
Row-head a b [] q (m ∷ prev) r = absurd r
Row-head a b (y ∷ rb) q prev (bq, r) = bq

fill-Row :
    (x left p : ℕ) (a b rb : Text) (prev : List ℕ)
    → Row a b rb (p ∷ prev)
    → Best (x ∷ a) b left
    → Row (x ∷ a) b rb (left ∷ fill x left (p ∷ prev) rb)
unfolding fill
fill-Row x left p a b [] [] r bl = bl
fill-Row x left p a b [] (q ∷ prev) r bl = absurd r
fill-Row x left p a b (y ∷ rb) [] (bp, r) bl = absurd r
fill-Row x left p a b (y ∷ rb) (q ∷ prev) (bp, r) bl =
    let cell = min3 (left + 1) (q + 1) (p + cost x y) in
    (
      bl,
      fill-Row x cell q a (y ∷ b) rb prev r
          (Best-min3 x y a b left q p bl (Row-head a (y ∷ b) rb q prev r) bp),
    )

rows-Row :
    (i : ℕ) (ra a rb : Text) (prev : List ℕ)
    → i ≡ length a + 1
    → Row a [] rb prev
    → Row (reverse_onto ra a) [] rb (rows i ra rb prev)
unfolding rows
rows-Row i [] a rb prev e r = r
rows-Row i (x ∷ ra) a rb [] e r = absurd r
rows-Row i (x ∷ ra) a rb (p ∷ prev) e r =
    rows-Row (suc i) ra (x ∷ a) rb (i ∷ fill x i (p ∷ prev) rb) (omega arith) (
      fill-Row x i p a [] rb prev r
        (subst (λ n. Best (x ∷ a) [] n) (omega arith) (Best-nil_right (x ∷ a))))

count_up-Row : (j : ℕ) (b rb : Text) → j ≡ length b → Row [] b rb (count_up j rb)
count_up-Row j b [] e = rw e (Best-nil_left b)
count_up-Row j b (y ∷ rb) e =
    (rw e (Best-nil_left b), count_up-Row (suc j) (y ∷ b) rb (omega arith))

Row-last_cell :
    (a b rb : Text) (row : List ℕ) → Row a b rb row → Best a (reverse_onto rb b) (last_cell row)
Row-last_cell a b rb [] r = absurd r
Row-last_cell a b [] (n ∷ []) r = r
Row-last_cell a b [] (n ∷ m ∷ row) r = absurd r
Row-last_cell a b (y ∷ rb) (n ∷ []) (_, r) = absurd r
Row-last_cell a b (y ∷ rb) (n ∷ m ∷ row) (_, r) = Row-last_cell a (y ∷ b) rb (m ∷ row) r

-- The last cell of the last row is the least cost of an alignment.
pub last_cell-Best : (a b : Text) → Best a b (last_cell (rows 1 a b (count_up 0 b)))
last_cell-Best a b =
    let best =
      Row-last_cell (reverse_onto a []) [] b (rows 1 a b (count_up 0 b))
        (rows-Row 1 a [] b (count_up 0 b) refl (count_up-Row 0 [] b refl)) in
    record {
      reached = Align_of-reverse best.reached;
      least = λ m e. best.least m (Align-reverse e);
    }

pub Align-same : (a b : Text) → same a b ≡ true → Align a b 0
unfolding same
Align-same [] [] e = done
Align-same [] (y ∷ b) e = absurd (cc)
Align-same (x ∷ a) [] e = absurd (cc)
Align-same (x ∷ a) (y ∷ b) e = elim (Bool-cases (x == y)) [
  | inl k ↦
      subst (λ n. Align (x ∷ a) (y ∷ b) n) (rw k refl)
        (replace {x = x} {y = y} (Align-same a b (rw k at e)))
  | inr k ↦ absurd (let e' = rw k at e in cc)
]

-- Two messages are within a distance exactly when one is turned into the other by at most that many
-- deletions, insertions and replacements of runes.
pub levenshtein_within_iff :
    (a b : Text) (max_dist : ℕ)
    → (levenshtein_within a b max_dist ≡ true) ↔ ((n : ℕ) × (n ≤ max_dist) × Align a b n)
unfolding levenshtein_within
levenshtein_within_iff a b max_dist =
    let best = last_cell-Best a b in
    let cells = last_cell (rows 1 a b (count_up 0 b)) in
    elim (Bool-cases (same a b)) [
      | inl e ↦ rw e (λ _. (0, omega arith, Align-same a b e), λ _. refl)
      | inr e ↦ rw e (elim (Bool-cases (ltb max_dist (abs_difference (length a) (length b)))) [
        | inl far ↦ rw far (
          λ k. absurd (cc),
          λ (n, le, al). absurd (
              omega (
                arith,
                Align-abs_difference al,
                ltb→lt max_dist (abs_difference (length a) (length b)) far,
                le,
              )),
        )
        | inr near ↦ rw near (
          λ k. (cells, leb→le cells max_dist k, best.reached),
          λ (n, le, al). le→leb cells max_dist (omega (arith, best.least n al, le)),
        )
      ])
    ]
