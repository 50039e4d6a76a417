-- ===== src/History/Duplication.antt =====
-- distributeInt and buildSyntheticDuplication of history.go.
use mathlib.Core.Path.{subst}
use native.Mathlib.Nat.{div-mul-le_self, le-div_iff_mul-le}
use sonar_migration_tool.Common.{
  ℕ, zero, suc, ◌+◌, ◌-◌, ◌*◌, ◌/◌, ◌≤◌, ◌<◌, ◌≡◌, refl, ap, ◌∙◌, ◌⊎◌, inl, inr, true, false, List,
  [], ◌∷◌, arith, ltb, ◌||◌, All,
}
use sonar_migration_tool.History.Defs.{
  MeasureInput, measure_int_value, snapshot_line_count, clamp, TextRange, buckets, distribute_int,
  ranges_from, duplication_of, build_synthetic_duplication,
}
use sonar_migration_tool.History.Measures.{snapshot_line_count-duplicated_lines}

abbrev pub sum : List ℕ → ℕ
sum [] = 0
sum (n ∷ ns) = n + sum ns

abbrev pub count {ℓ} : {A : Type ℓ} → List A → ℕ
count [] = 0
count (x ∷ xs) = suc (count xs)

buckets-All :
    (n base last : ℕ) → 0 < base → base ≤ last → All (λ size. 0 < size) (buckets n base last)
unfolding buckets
buckets-All zero base last h k = tt
buckets-All (suc zero) base last h k = (omega arith, tt)
buckets-All (suc (suc n)) base last h k = (h, buckets-All (suc n) base last h k)

buckets-sum :
    (n base last : ℕ)
    → (sum (buckets (suc n) base last) ≡ base * n + last)
      × (count (buckets (suc n) base last) ≡ suc n)
unfolding buckets
buckets-sum zero base last = (omega arith, refl)
buckets-sum (suc n) base last =
    let (s, c) = buckets-sum n base last in (omega (arith, s), omega (arith, c))

-- The buckets sum back to the total, there are n of them, and none is empty if the total is enough.
pub distribute_int-sum :
    (total n : ℕ)
    → 0 < n
    → n ≤ total
    → (sum (distribute_int total n) ≡ total)
      × (count (distribute_int total n) ≡ n)
      × All (λ size. 0 < size) (distribute_int total n)
unfolding distribute_int
distribute_int-sum total zero h k = absurd (omega arith)
distribute_int-sum total (suc n) h k =
    let base = total / suc n in
    let fits : base * suc n ≤ total = div-mul-le_self total (suc n) in
    let positive : 1 ≤ base =
      (le-div_iff_mul-le {k = suc n} {x = 1} {y = total} h).1 (omega arith) in
    let (s, c) = buckets-sum n base (base + (total - base * suc n)) in
    (
      omega (arith, s, fits),
      c,
      buckets-All (suc n) base (base + (total - base * suc n)) positive (omega arith),
    )

-- The ranges follow each other from `line` on without gap or overlap, none is empty, and the last one
-- ends before `end`.
abbrev pub Tiles : ℕ → List TextRange → ℕ → Type 0
Tiles line [] end = line ≡ end
Tiles line (r ∷ rs) end =
    (r.start_line ≡ line) × (r.start_line ≤ r.end_line) × Tiles (r.end_line + 1) rs end

ranges_from-Tiles :
    (line : ℕ) (sizes : List ℕ)
    → All (λ size. 0 < size) sizes
    → Tiles line (ranges_from line sizes) (line + sum sizes)
      × (count (ranges_from line sizes) ≡ count sizes)
unfolding ranges_from
ranges_from-Tiles line [] h = (omega arith, refl)
ranges_from-Tiles line (size ∷ sizes) (h, hs) =
    let (tiles, n) = ranges_from-Tiles (line + size) sizes hs in
    let next : line + size ≡ line + size - 1 + 1 = omega arith in
    let total : line + size + sum sizes ≡ line + (size + sum sizes) = omega arith in
    let moved = subst (λ e. Tiles (line + size) (ranges_from (line + size) sizes) e) total tiles in
    (
      (
        refl,
        omega arith,
        subst (λ l. Tiles l (ranges_from (line + size) sizes) (line + (size + sum sizes))) next
            moved,
      ),
      ap suc n,
    )

one_of : (a b : ℕ) → (a < 2) ⊎ (b < 2) → (ltb a 2 || ltb b 2) ≡ true
one_of a b (inl h) = ground (arith, h)
one_of a b (inr h) = ground (arith, h)

-- From two duplicated lines and two blocks on, the ranges tile the lines from 1 to the number of
-- duplicated lines, which the file has; there is one range for each block, or for each line if there
-- are fewer lines; below that there is no duplication.
pub build_synthetic_duplication-Tiles :
    (ms : List MeasureInput)
    → let lines = measure_int_value ms "duplicated_lines" in
      let blocks = measure_int_value ms "duplicated_blocks" in
      (2 ≤ lines
        → 2 ≤ blocks
        → Tiles 1 (build_synthetic_duplication ms) (1 + lines)
          × (count (build_synthetic_duplication ms) ≡ clamp blocks lines)
          × (lines ≤ snapshot_line_count ms))
      × ((lines < 2) ⊎ (blocks < 2) → build_synthetic_duplication ms ≡ [])
unfolding build_synthetic_duplication duplication_of clamp
build_synthetic_duplication-Tiles ms =
    let lines = measure_int_value ms "duplicated_lines" in
    let blocks = measure_int_value ms "duplicated_blocks" in
    let n = clamp blocks lines in
    (
      λ h k.
          let valid : (ltb lines 2 || ltb blocks 2) ≡ false = ground (arith, h, k) in
          let (s, c, positive) =
            distribute_int-sum lines n (ground (arith, h, k)) (ground (arith, h, k)) in
          let (tiles, counted) = ranges_from-Tiles 1 (distribute_int lines n) positive in
          rw valid (
            subst (λ t. Tiles 1 (ranges_from 1 (distribute_int lines n)) (1 + t)) s tiles,
            counted ∙ c,
            snapshot_line_count-duplicated_lines ms,
          ),
      λ few.
          let invalid : (ltb lines 2 || ltb blocks 2) ≡ true = one_of lines blocks few in
          rw invalid refl,
    )
