-- ===== src/Paginator/Examples.antt =====
-- A listing of five items in pages of two, and the theorems there.
use sonar_migration_tool.Common.{
  ℕ, suc, ◌-◌, ◌*◌, ◌≡◌, refl, ◌↔◌, Bool, false, none, some, List, [], ◌∷◌, arith, length, take,
  drop, ltb,
}
use sonar_migration_tool.Paginator.Defs.{
  FetchPageFunc, Paginator, total_pages, pages_from, pages, append_all, all_items,
}
use sonar_migration_tool.Paginator.All.{FetchedAll, all_items_iff}
use sonar_migration_tool.Paginator.Whole.{all_items-Lists}

abbrev items : List ℕ
items = 4 ∷ 8 ∷ 15 ∷ 16 ∷ 23 ∷ []

abbrev serve : FetchPageFunc ℕ
serve page size = some (take size (drop ((page - 1) * size) items), length items)

abbrev in_twos : Paginator ℕ
in_twos = record { fetch = serve; page_size = 2 }

abbrev never : ℕ → Bool
never page = false

abbrev cancelled_at_3 : ℕ → Bool
cancelled_at_3 page = ltb 2 page

all_items_run : all_items in_twos never ≡ some items
unfolding all_items pages pages_from append_all total_pages
all_items_run = refl

cancelled_run : all_items in_twos cancelled_at_3 ≡ none
unfolding all_items pages pages_from append_all total_pages
cancelled_run = refl

serve-Lists : (i : ℕ) → serve (suc i) 2 ≡ some (take 2 (drop (i * 2) items), length items)
serve-Lists i = let same : suc i - 1 ≡ i = omega arith in rw same refl

all_items-Lists_example : all_items in_twos never ≡ some items
all_items-Lists_example =
    all_items-Lists in_twos never items serve-Lists (λ page. refl) (omega arith)

all_items_iff_example : (all_items in_twos never ≡ some items) ↔ FetchedAll in_twos never items
all_items_iff_example = all_items_iff in_twos never items
