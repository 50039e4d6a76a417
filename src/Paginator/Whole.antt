-- ===== src/Paginator/Whole.antt =====
-- All against a server that cuts one list into pages.
use mathlib.Core.Path.{subst}
use sonar_migration_tool.Common.{
  ℕ, zero, suc, ◌+◌, ◌-◌, ◌*◌, ◌≤◌, ◌<◌, ◌≡◌, sym, ap, ◌∙◌, Bool, false, some, List, ◌++◌, arith,
  length, take, drop, take-take_append, drop-drop, take_all,
}
use sonar_migration_tool.Paginator.Defs.{FetchPageFunc, Paginator, total_pages, all_items}
use sonar_migration_tool.Paginator.Count.{total_pages_enough}
use sonar_migration_tool.Paginator.All.{Fetched, all_items_iff}

module _ {ℓ} {A : Type ℓ} where
  -- The documented contract of a listing: page i + 1 is the i-th run of `size` items of one list, and
  -- every page names the length of the list.
  abbrev pub Lists : List A → FetchPageFunc A → ℕ → Type ℓ
  Lists xs fetch size =
      (i : ℕ) → fetch (suc i) size ≡ some (take size (drop (i * size) xs), length xs)

module _ {ℓ} {A : Type ℓ} (p : Paginator A) (cancelled : ℕ → Bool) (xs : List A)
    (lists : Lists xs p.fetch p.page_size) (going : (page : ℕ) → cancelled page ≡ false) where
  none_left : 0 * p.page_size ≡ 0
  none_left = omega arith

  one_more : (i : ℕ) → i * p.page_size + p.page_size ≡ suc i * p.page_size
  one_more i = omega arith

  -- A page and those after it.
  take_page :
      (left i : ℕ)
      → take (suc left * p.page_size) (drop (i * p.page_size) xs)
        ≡ take p.page_size (drop (i * p.page_size) xs)
          ++ take (left * p.page_size) (drop (suc i * p.page_size) xs)
  take_page left i =
      let rest = drop (i * p.page_size) xs in
      let sizes : suc left * p.page_size ≡ p.page_size + left * p.page_size = omega arith in
      ap (λ k. take k rest) sizes
      ∙ sym (take-take_append p.page_size (left * p.page_size) rest)
      ∙ ap (λ ys. take p.page_size rest ++ take (left * p.page_size) ys)
          (drop-drop p.page_size (i * p.page_size) xs ∙ ap (λ k. drop k xs) (one_more i))

  Fetched-Lists :
      (left i : ℕ)
      → Fetched p cancelled left (suc i) (take (left * p.page_size) (drop (i * p.page_size) xs))
  Fetched-Lists zero i = ap (λ k. take k (drop (i * p.page_size) xs)) none_left
  Fetched-Lists (suc left) i = (
    going (suc i),
    take p.page_size (drop (i * p.page_size) xs),
    length xs,
    lists i,
    take (left * p.page_size) (drop (suc i * p.page_size) xs),
    Fetched-Lists left (suc i),
    take_page left i,
  )

  whole :
      (pages : ℕ) → length xs ≤ pages * p.page_size → take (suc (pages - 1) * p.page_size) xs ≡ xs
  whole zero enough = take_all (suc (0 - 1) * p.page_size) xs (omega arith)
  whole (suc k) enough =
      let same : suc (suc k - 1) ≡ suc k = omega arith in
      rw same (take_all (suc k * p.page_size) xs enough)

  -- From a server that keeps to the contract of a listing, All returns the whole list, each item once
  -- and in the server's order, whatever the page size, unless the context is done.
  pub all_items-Lists : 0 < p.page_size → all_items p cancelled ≡ some xs
  all_items-Lists h =
      let pages = total_pages (length xs) p.page_size in
      let first = take p.page_size xs in
      let rest = take ((pages - 1) * p.page_size) (drop (1 * p.page_size) xs) in
      let enough = (total_pages_enough (length xs) p.page_size h).0 in
      let same : xs ≡ first ++ rest =
        sym (whole pages enough)
        ∙ subst
            (λ k.
              take (suc (pages - 1) * p.page_size) (drop k xs)
              ≡ take p.page_size (drop k xs)
                ++ take ((pages - 1) * p.page_size) (drop (1 * p.page_size) xs))
            none_left (take_page (pages - 1) 0) in
      (all_items_iff p cancelled xs).1 (
        first,
        length xs,
        subst (λ k. p.fetch 1 p.page_size ≡ some (take p.page_size (drop k xs), length xs))
            none_left (lists 0),
        rest,
        Fetched-Lists (pages - 1) 1,
        same,
      )
