-- ===== src/Fallback/Keeps.antt =====
-- What a walk holds, against a server that cuts one list into pages of any size.

use native.Mathlib.Nat.{mul-div_cancel, div-mul-le_self}
use sonar_migration_tool.Common.{
  ℕ, zero, suc, ◌+◌, ◌*◌, ◌/◌, ◌≤◌, ◌<◌, ◌≡◌, refl, sym, ap, ◌∙◌, ◌⊎◌, inl, inr, Bool, true, false,
  Option, none, some, List, [], ◌++◌, leb, ◌==◌, ==_iff, arith, ◌&&◌, Bool-cases, length, take,
  drop, take-take_append, length-take_le, length-take_exact, length-drop, take-take,
}
use sonar_migration_tool.Fallback.Defs.{
  FetchError, refused, answered, Env, PaginationWalk, resize, add_page, start_walk, read_pages_loop,
  count_request,
}

module _ {ℓ} {A : Type ℓ} where
  -- The documented contract of a listing: a page is the run of the list that the page number and the
  -- page size name, with the length of the list as the total, whatever the size. Any request may fail
  -- instead.
  abbrev pub Serves : List A → Env A → Type ℓ
  Serves xs env =
      (request i size : ℕ)
      → ((e : FetchError) × (env.answer request (suc i) size ≡ refused e))
        ⊎ (env.answer request (suc i) size
            ≡ answered (some (length xs)) (take size (drop (i * size) xs)))

module _ {ℓ} {A : Type ℓ} (xs : List A) where
  -- A walk whose pages so far have the given size and of which page 1 was read.
  pub record Reads (size : ℕ) (w : PaginationWalk A) : Type ℓ where
    pub read : ℕ
    pub position : w.next_page ≡ suc read
    pub holds : w.items ≡ take (read * size) xs
    pub total : w.total ≡ length xs
    pub known : w.total_known ≡ true
    pub full : w.aligned ≡ true → read * size ≤ length xs

  abbrev pub Keeps : ℕ → PaginationWalk A → Type ℓ
  Keeps size w = ((w.started ≡ false) × (w.next_page ≡ 1)) ⊎ ((w.started ≡ true) × Reads size w)

  next_run :
      (size read : ℕ) (items : List A)
      → items ≡ take (read * size) xs
      → items ++ take size (drop (read * size) xs) ≡ take (suc read * size) xs
  next_run size read items e =
      let sizes : read * size + size ≡ suc read * size = omega arith in
      ap (λ ys. ys ++ take size (drop (read * size) xs)) e
      ∙ take-take_append (read * size) size xs
      ∙ ap (λ k. take k xs) sizes

  next_full :
      (size read : ℕ) (aligned : Bool)
      → (aligned ≡ true → read * size ≤ length xs)
      → (aligned && (length (take size (drop (read * size) xs)) == size)) ≡ true
      → suc read * size ≤ length xs
  next_full size read false h e = absurd (cc)
  next_full size read true h e =
      let page = take size (drop (read * size) xs) in
      let fits : length page ≡ size = (==_iff (length page) size).0 e in
      omega (
        arith,
        h refl,
        fits,
        (length-take_le size (drop (read * size) xs)).1,
        length-drop (read * size) xs,
      )

  pub add_page-Reads :
      (size : ℕ) (w : PaginationWalk A) (r : Reads size w)
      → Reads size (add_page w (take size (drop (r.read * size) xs)) size)
  unfolding add_page
  add_page-Reads size w r = record {
    read = suc r.read;
    position = omega (arith, r.position);
    holds = next_run size r.read w.items r.holds;
    total = r.total;
    known = r.known;
    full = λ e. next_full size r.read w.aligned r.full e;
  }

  pub resize-Keeps :
      (size new : ℕ) (w : PaginationWalk A) → 0 < new → Keeps size w → Keeps new (resize w new)
  unfolding resize
  resize-Keeps size new w pos (inl (e, first)) = rw (e, resize) (inl (refl, refl))
  resize-Keeps size new w pos (inr (e, r)) = elim (Bool-cases w.aligned) [
    | inr short ↦ rw (e, short, resize) (inl (refl, refl))
    | inl full ↦
        let n = length w.items in
        let keep = n / new * new in
        elim (Bool-cases (keep == 0)) [
          | inl nothing ↦ rw (e, full, nothing, resize) (inl (refl, refl))
          | inr some_kept ↦
              let whole : n ≡ r.read * size =
                ap length r.holds ∙ length-take_exact (r.read * size) xs (r.full full) in
              let below : keep ≤ n = div-mul-le_self n new in
              let back : keep / new * new ≡ keep =
                ap (λ q. q * new) (mul-div_cancel (n / new) pos) in
              rw (e, full, some_kept, resize)
                (inr (
                  refl,
                  record {
                    read = keep / new;
                    position = omega arith;
                    holds =
                        ap (λ ys. take keep ys) r.holds
                        ∙ take-take keep (r.read * size) xs (omega (arith, whole, below))
                        ∙ ap (λ k. take k xs) (sym back);
                    total = r.total;
                    known = r.known;
                    full = λ _. omega (arith, back, below, whole, r.full full);
                  },
                ))
        ]
  ]

module _ {ℓ} {A : Type ℓ} (xs : List A) (env : Env A) (serves : Serves xs env) where
  -- Page 1 is read, or the walk is as it was but for the count of requests.
  nothing_read : (size : ℕ) → 0 ≡ 0 * size
  nothing_read size = omega arith

  abbrev pub Started : ℕ → Option FetchError × PaginationWalk A → Type ℓ
  Started size o = Keeps xs size o.1 × (o.0 ≡ none → (o.1.started ≡ true) × Reads xs size o.1)

  abbrev first_page : PaginationWalk A → PaginationWalk A
  first_page w = record (count_request w) {
    items = [];
    total = length xs;
    total_known = true;
    started = true;
  }

  pub start_walk-Started :
      (size : ℕ) (w : PaginationWalk A)
      → w.started ≡ false
      → w.next_page ≡ 1
      → Started size (start_walk env size w)
  unfolding start_walk add_page
  start_walk-Started size w fresh first = elim (serves w.requests 0 size) [
    | inl (e, refused_) ↦ rw (refused_, start_walk) (inl (fresh, first), λ k. absurd (cc))
    | inr served ↦
        let page_one = add_page-Reads xs size (first_page w) (record {
          read = 0;
          position = first;
          holds = ap (λ k. take k xs) (nothing_read size);
          total = refl;
          known = refl;
          full = λ _. omega arith;
        }) in
        rw (served, start_walk) (inr (refl, page_one), λ _. (refl, page_one))
  ]

  counted : (size : ℕ) (w : PaginationWalk A) → Reads xs size w → Reads xs size (count_request w)
  counted size w r = record {
    read = r.read;
    position = r.position;
    holds = r.holds;
    total = r.total;
    known = r.known;
    full = r.full;
  }

  le_false : (a b : ℕ) → leb a b ≡ false → b < a
  le_false a b h = ground arith

  pub read_pages_loop-Reads :
      (left size pages : ℕ) (w : PaginationWalk A)
      → w.started ≡ true
      → Reads xs size w
      → ((read_pages_loop left env size pages w).1.started ≡ true)
        × Reads xs size (read_pages_loop left env size pages w).1
        × ((read_pages_loop left env size pages w).0 ≡ none
            → pages + 1 ≤ left + w.next_page
            → pages < (read_pages_loop left env size pages w).1.next_page)
  unfolding read_pages_loop add_page counted
  read_pages_loop-Reads zero size pages w e r = (e, r, λ _ h. omega arith)
  read_pages_loop-Reads (suc left) size pages w e r = elim (Bool-cases (leb w.next_page pages)) [
    | inr past ↦
        rw (past, read_pages_loop) (e, r, λ _ h. omega (arith, le_false w.next_page pages past))
    | inl inside ↦ elim (Bool-cases (env.cancelled w.requests)) [
      | inl done ↦ rw (inside, r.known, done, read_pages_loop) (e, r, λ k h. absurd (cc))
      | inr going ↦ elim (serves w.requests r.read size) [
        | inl (err, refused_) ↦
            let answer = ap (λ p. env.answer w.requests p size) r.position ∙ refused_ in
            rw (inside, r.known, going, answer, read_pages_loop)
              (e, counted size w r, λ k h. absurd (cc))
        | inr served ↦
            let answer = ap (λ p. env.answer w.requests p size) r.position ∙ served in
            let page = take size (drop (r.read * size) xs) in
            let (e', r', ends) =
              read_pages_loop-Reads left size pages (add_page (count_request w) page size) e
                (add_page-Reads xs size (count_request w) (counted size w r)) in
            rw (inside, r.known, going, answer, read_pages_loop)
              (e', r', λ k h. ends k (omega arith))
      ]
    ]
  ]
