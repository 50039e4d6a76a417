-- ===== src/Paginator/Defs.antt =====
-- The paginator of pagination.go. Pages is the sequence of what it yields to a consumer that does not
-- stop it; All is such a consumer. A fetch that returns an error is `none`, and `cancelled page` is
-- whether ctx.Err() is set when the loop looks at it before that page.
use sonar_migration_tool.Common.{
  ℕ, zero, suc, ◌+◌, ◌-◌, ◌/◌, Bool, true, false, Option, none, some, List, [], ◌∷◌, ◌++◌, ◌==◌,
  if◌then◌else◌, ◌||◌,
}

abbrev pub page_size_default : ℕ
page_size_default = 500

-- FetchPageFunc: the items of a page and the number of items in all.
abbrev pub FetchPageFunc {ℓ} : Type ℓ → Type ℓ
FetchPageFunc A = ℕ → ℕ → Option (List A × ℕ)

pub record Paginator {ℓ} (A : Type ℓ) : Type ℓ where
  pub fetch : FetchPageFunc A
  pub page_size : ℕ

-- NewPaginator. A negative page size is treated as 0 is.
unfoldable pub new_paginator {ℓ} : {A : Type ℓ} → FetchPageFunc A → ℕ → Paginator A
new_paginator fetch page_size = record {
  fetch = fetch;
  page_size = if page_size == 0 then page_size_default else page_size;
}

-- totalPages: the quotient rounded up, which is what the float64 division and math.Ceil give for
-- totals below 2 ^ 53.
unfoldable pub total_pages : ℕ → ℕ → ℕ
total_pages total page_size =
    if total == 0 || page_size == 0 then 0 else (total + page_size - 1) / page_size

-- One call of the consumer's function: a page, or an error.
pub data Yielded {ℓ} (A : Type ℓ) : Type ℓ where
  page_of : List A → Yielded A
  error : Yielded A

module _ {ℓ} {A : Type ℓ} (p : Paginator A) (cancelled : ℕ → Bool) where
  -- The loop of Pages, with `left` pages to go, from the given page.
  unfoldable pub pages_from : ℕ → ℕ → List (Yielded A)
  pages_from zero page = []
  pages_from (suc left) page = elim (cancelled page) [
    | true ↦ error ∷ []
    | false ↦ elim (p.fetch page p.page_size) [
      | none ↦ error ∷ []
      | some (items, total) ↦ page_of items ∷ pages_from left (suc page)
    ]
  ]

  -- Pages
  unfoldable pub pages : List (Yielded A)
  unfolding pages_from total_pages
  pages = elim (p.fetch 1 p.page_size) [
    | none ↦ error ∷ []
    | some (items, total) ↦ page_of items ∷ pages_from (total_pages total p.page_size - 1) 2
  ]

-- The body of All's loop.
unfoldable pub append_all {ℓ} : {A : Type ℓ} → List (Yielded A) → List A → Option (List A)
append_all [] all = some all
append_all (error ∷ ys) all = none
append_all (page_of items ∷ ys) all = append_all ys (all ++ items)

-- All
unfoldable pub all_items {ℓ} : {A : Type ℓ} → Paginator A → (ℕ → Bool) → Option (List A)
unfolding pages append_all
all_items p cancelled = append_all (pages p cancelled) []
