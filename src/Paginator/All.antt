-- ===== src/Paginator/All.antt =====
-- Paginator.All of pagination.go.

use mathlib.Core.List.{append_assoc, append-nil}
use sonar_migration_tool.Common.{
  some-inj, none_not_some, ℕ, zero, suc, ◌-◌, ◌≡◌, refl, sym, ap, ◌∙◌, inl, inr, ◌↔◌, Bool, true,
  false, none, some, List, [], ◌∷◌, ◌++◌, Bool-cases, Option-cases,
}
use sonar_migration_tool.Paginator.Defs.{
  Paginator, total_pages, page_of, error, pages_from, pages, append_all, all_items,
}

module _ {ℓ} {A : Type ℓ} (p : Paginator A) (cancelled : ℕ → Bool) where
  -- The given number of pages, from the given one, were fetched in order before any cancellation, and
  -- their items are `all` together.
  abbrev pub Fetched : ℕ → ℕ → List A → Type ℓ
  Fetched zero page all = all ≡ []
  Fetched (suc left) page all =
      (cancelled page ≡ false)
      × (items : List A) × (total : ℕ) × (p.fetch page p.page_size ≡ some (items, total))
      × (rest : List A) × Fetched left (suc page) rest
      × (all ≡ items ++ rest)

  -- What All returns on success: page 1 gives the number of pages, and all others follow it.
  abbrev pub FetchedAll : List A → Type ℓ
  FetchedAll all =
      (items : List A) × (total : ℕ) × (p.fetch 1 p.page_size ≡ some (items, total))
      × (rest : List A) × Fetched (total_pages total p.page_size - 1) 2 rest
      × (all ≡ items ++ rest)

  pages_from-next :
      (left page : ℕ) (items : List A) (total : ℕ)
      → cancelled page ≡ false
      → p.fetch page p.page_size ≡ some (items, total)
      → pages_from p cancelled (suc left) page
        ≡ page_of items ∷ pages_from p cancelled left (suc page)
  unfolding pages_from
  pages_from-next left page items total going got = rw (going, got, pages_from) refl

  pages_from-cancelled :
      (left page : ℕ) → cancelled page ≡ true → pages_from p cancelled (suc left) page ≡ error ∷ []
  unfolding pages_from
  pages_from-cancelled left page done = rw (done, pages_from) refl

  pages_from-failed :
      (left page : ℕ)
      → cancelled page ≡ false
      → p.fetch page p.page_size ≡ none
      → pages_from p cancelled (suc left) page ≡ error ∷ []
  unfolding pages_from
  pages_from-failed left page going failed = rw (going, failed, pages_from) refl

  pages-first :
      (items : List A) (total : ℕ)
      → p.fetch 1 p.page_size ≡ some (items, total)
      → pages p cancelled
        ≡ page_of items ∷ pages_from p cancelled (total_pages total p.page_size - 1) 2
  unfolding pages
  pages-first items total got = rw (got, pages) refl

  pages-failed : p.fetch 1 p.page_size ≡ none → pages p cancelled ≡ error ∷ []
  unfolding pages
  pages-failed failed = rw (failed, pages) refl

  append_all-Fetched :
      (left page : ℕ) (acc rest : List A)
      → Fetched left page rest
      → append_all (pages_from p cancelled left page) acc ≡ some (acc ++ rest)
  unfolding append_all pages_from
  append_all-Fetched zero page acc rest e = ap some (sym (ap (λ r. acc ++ r) e ∙ append-nil acc))
  append_all-Fetched (suc left) page acc rest (going, items, total, got, later, fetched, e) =
      ap (λ ys. append_all ys acc) (pages_from-next left page items total going got)
      ∙ append_all-Fetched left (suc page) (acc ++ items) later fetched
      ∙ ap some (append_assoc acc items later ∙ ap (λ r. acc ++ r) (sym e))

  -- One page and then the rest, as the loop adds them up.
  Fetched_of-append_all :
      (left page : ℕ) (acc all : List A)
      → append_all (pages_from p cancelled left page) acc ≡ some all
      → (rest : List A) × Fetched left page rest × (all ≡ acc ++ rest)
  unfolding append_all pages_from
  Fetched_of-append_all zero page acc all e = ([], refl, sym (some-inj e) ∙ sym (append-nil acc))
  Fetched_of-append_all (suc left) page acc all e =
      let error_out : pages_from p cancelled (suc left) page ≡ error ∷ [] → ⊥ =
        λ k. none_not_some (ap (λ ys. append_all ys acc) (sym k) ∙ e) in
      elim (Bool-cases (cancelled page)) [
        | inl done ↦ absurd (error_out (pages_from-cancelled left page done))
        | inr going ↦ elim (Option-cases (p.fetch page p.page_size)) [
          | inl failed ↦ absurd (error_out (pages_from-failed left page going failed))
          | inr ((items, total), got) ↦
              let (rest, fetched, same) = Fetched_of-append_all left (suc page) (acc ++ items) all (
                ap (λ ys. append_all ys acc) (sym (pages_from-next left page items total going got))
                ∙ e) in
              (
                items ++ rest,
                (going, items, total, got, rest, fetched, refl),
                same ∙ append_assoc acc items rest,
              )
        ]
      ]

  -- All returns a list exactly when it fetched page 1, and then every page that the total of page 1
  -- asks for, in order and before the context was done, and the list is their items in that order.
  -- In every other case it returns an error and no items.
  pub all_items_iff : (all : List A) → (all_items p cancelled ≡ some all) ↔ FetchedAll all
  unfolding all_items append_all
  all_items_iff all = (
    λ e. elim (Option-cases (p.fetch 1 p.page_size)) [
      | inl failed ↦
          absurd (none_not_some (ap (λ ys. append_all ys []) (sym (pages-failed failed)) ∙ e))
      | inr ((items, total), got) ↦
          let (rest, fetched, same) =
            Fetched_of-append_all (total_pages total p.page_size - 1) 2 items all
              (ap (λ ys. append_all ys []) (sym (pages-first items total got)) ∙ e) in
          (items, total, got, rest, fetched, same)
    ],
    λ (items, total, got, rest, fetched, e).
        ap (λ ys. append_all ys []) (pages-first items total got)
        ∙ append_all-Fetched (total_pages total p.page_size - 1) 2 items rest fetched
        ∙ ap some (sym e),
  )
