-- ===== src/Fallback/Whole.antt =====
-- What GetPaginatedResult returns, against a server that cuts one list into pages of any size.
use mathlib.Core.Path.{subst}
use native.Mathlib.Nat.{mul-le-mul_right}
use sonar_migration_tool.Common.{
  ℕ, zero, suc, ◌+◌, ◌-◌, ◌*◌, ◌≤◌, ◌<◌, ◌≡◌, refl, sym, ap, ◌∙◌, ◌⊎◌, inl, inr, Bool, true, false,
  Option, none, some, List, ltb, if◌then◌else◌, arith, ◌&&◌, Bool-cases, Option-cases, length, take,
  take_all,
}
use sonar_migration_tool.Paginator.Defs.{total_pages as pages_needed}
use sonar_migration_tool.Paginator.Count.{total_pages_enough}
use sonar_migration_tool.Fallback.Sizes.{total_pages, page_limit_at}
use sonar_migration_tool.Fallback.Table.{PageSizeTable, LearnedPageSize, size_for, size_for_learned}
use sonar_migration_tool.Fallback.Defs.{
  FetchError, Env, PaginationWalk, PageResult, TruncationReason, complete, unknown_total,
  page_limit_clamp, stamp, result, bounds, finish_paginated, start_walk, read_pages, read_on,
  read_within, after_read, after_start, walk_pages, Attempt, attempt_failed, attempt_done,
  fallback_next, attempts, Fetched, ok, failed, get_paginated_result, apply_defaults, max_attempts,
  new_pagination_walk, resize, FallbackState,
}
use sonar_migration_tool.Fallback.Ends.{fallback_next-less, Attempt-cases}
use sonar_migration_tool.Fallback.Keeps.{
  Serves, Reads, Keeps, resize-Keeps, start_walk-Started, read_pages_loop-Reads,
}

total_pages_same : (total size : ℕ) → total_pages total size ≡ pages_needed total size
unfolding total_pages pages_needed
total_pages_same total size = refl

not_less : (next size : ℕ) → next ≤ size → ltb next size ≡ false → size ≡ next
not_less next size le e = ground arith

next_positive : (next size : ℕ) → 0 < size → (next ≡ size) ⊎ (0 < next) → 0 < next
next_positive next size pos (inl e) = omega arith
next_positive next size pos (inr h) = h

size_for_learned_positive :
    (l : LearnedPageSize) (max_page_size now : ℕ)
    → 0 < size_for_learned l (apply_defaults max_page_size) now
unfolding apply_defaults
size_for_learned_positive l max_page_size now = ground arith

module _ {ℓ} {A : Type ℓ} where
  ok_same :
      (a b : PageResult A) (t u : PageSizeTable)
      → ◌≡◌ {A = Option (Fetched A)} (some (ok a t)) (some (ok b u))
      → a ≡ b
  ok_same a b t u e =
      ap
        (λ (o : Option (Fetched A)). elim o [
          | none ↦ a
          | some f ↦ elim f [ ok r v ↦ r | failed n s l k ↦ a ]
        ])
        e

  failed_not_ok :
      {n s l : ℕ} {k : FetchError} {r : PageResult A} {t : PageSizeTable}
      → ◌≡◌ {A = Option (Fetched A)} (some (failed n s l k)) (some (ok r t))
      → ⊥
  failed_not_ok e = cc

module _ {ℓ} {A : Type ℓ} (xs : List A) (env : Env A) where
  -- What a result holds: a first part of the list; all of it if it is complete; where the page cap
  -- stopped the fetch, no fewer pages than the cap, unless the caller asked to stop; and the length of
  -- the list as its total.
  pub record Held (res : PageResult A) : Type ℓ where
    pub part : (k : ℕ) × (res.items ≡ take k xs)
    pub all : res.reason ≡ complete → res.items ≡ xs
    pub capped :
        env.stop_on_truncation ≡ false
        → res.reason ≡ page_limit_clamp
        → (pages : ℕ) × (res.page_limit ≤ pages) × (res.items ≡ take (pages * res.page_size) xs)
    pub known : res.reason ≡ unknown_total → ⊥
    pub total : (res.total_known ≡ true) × (res.total ≡ length xs)

  -- Besides, a result that is not reported as truncated is complete.
  pub record Honest (res : PageResult A) : Type ℓ where
    pub held : Held res
    pub open held use *
    pub told : res.truncated ≡ false → res.reason ≡ complete

  stamp_told :
      (reason : TruncationReason) (res : PageResult A) (suppress : Bool)
      → res.reason ≡ reason
      → (stamp reason res suppress).truncated ≡ false
      → (stamp reason res suppress).reason ≡ complete
  stamp_told complete res suppress e h = e
  stamp_told unknown_total res suppress e h = absurd (cc)
  stamp_told page_limit_clamp res suppress e h = absurd (cc)

  stamp-Held :
      (reason : TruncationReason) (res : PageResult A) (suppress : Bool)
      → Held res
      → Held (stamp reason res suppress)
  stamp-Held complete res suppress h = h
  stamp-Held unknown_total res suppress h = record {
    part = h.part;
    all = h.all;
    capped = h.capped;
    known = h.known;
    total = h.total;
  }
  stamp-Held page_limit_clamp res suppress h = record {
    part = h.part;
    all = h.all;
    capped = h.capped;
    known = h.known;
    total = h.total;
  }

  reads_all :
      (size read : ℕ) (items : List A)
      → 0 < size
      → items ≡ take (read * size) xs
      → total_pages (length xs) size ≤ read
      → items ≡ xs
  reads_all size read items pos e h =
      let pages = total_pages (length xs) size in
      let enough : length xs ≤ pages * size =
        rw (total_pages_same (length xs) size) (total_pages_enough (length xs) size pos).0 in
      e ∙ take_all (read * size) xs (omega (arith, enough, mul-le-mul_right size h))

  result-Held :
      (size cap : ℕ) (clamped : Bool) (w : PaginationWalk A) (r : Reads xs size w)
      → (clamped ≡ false → w.items ≡ xs)
      → (clamped ≡ true → env.stop_on_truncation ≡ false → cap ≤ r.read)
      → Held (result w size cap clamped)
  unfolding result
  result-Held size cap true w r whole enough = rw r.known (record {
    part = (r.read * size, r.holds);
    all = λ e. absurd (cc);
    capped = λ going _. (r.read, enough refl going, r.holds);
    known = λ e. cc;
    total = (refl, r.total);
  })
  result-Held size cap false w r whole enough = rw r.known (record {
    part = (r.read * size, r.holds);
    all = λ e. whole refl;
    capped = λ going e. absurd (cc);
    known = λ e. cc;
    total = (refl, r.total);
  })

  abbrev AttemptHonest : ℕ → Attempt A → Type ℓ
  AttemptHonest size (attempt_failed e w) = Keeps xs size w
  AttemptHonest size (attempt_done res) = Honest res

  -- What reading on comes to, the pages it was to read being given.
  abbrev ReadUpTo : ℕ → ℕ → Option FetchError × PaginationWalk A → Type ℓ
  ReadUpTo size pages o =
      (o.1.started ≡ true) × (r : Reads xs size o.1) × (o.0 ≡ none → pages ≤ r.read)

  after_read-Honest :
      (size pages cap : ℕ) (clamped : Bool) (o : Option FetchError × PaginationWalk A)
      → 0 < size
      → ReadUpTo size pages o
      → (clamped ≡ false → total_pages (length xs) size ≤ pages)
      → (clamped ≡ true → env.stop_on_truncation ≡ false → cap ≤ pages)
      → AttemptHonest size (after_read env size (o, (cap, clamped)))
  unfolding finish_paginated
  after_read-Honest size pages cap clamped (some e, w) pos (going, r, far) whole enough =
      inr (going, r)
  after_read-Honest size pages cap clamped (none, w) pos (going, r, far) whole enough =
      let res = result w size cap clamped in
      record {
        held = stamp-Held res.reason res env.suppress_record (
            result-Held size cap clamped w r
              (λ e. reads_all size r.read w.items pos r.holds (omega (arith, whole e, far refl)))
              (λ e k. omega (arith, enough e k, far refl)));
        told = stamp_told res.reason res env.suppress_record refl;
      }

module _ {ℓ} {A : Type ℓ} (xs : List A) (env : Env A) (serves : Serves xs env)
    (requested_size : ℕ) where
  read_pages-Reads :
      (size pages : ℕ) (w : PaginationWalk A)
      → w.started ≡ true
      → Reads xs size w
      → ReadUpTo xs env size pages (read_pages env size pages w)
  unfolding read_pages
  read_pages-Reads size pages w going r =
      let (going', r', ends) =
        read_pages_loop-Reads xs env serves (pages + 1 - w.next_page) size pages w going r in
      (going', r', λ k. omega (arith, ends k (omega arith), r'.position))

  bounds-known :
      (size : ℕ) (w : PaginationWalk A) (total : w.total ≡ length xs) (known : w.total_known ≡ true)
      → let cap = page_limit_at env.page_limit requested_size size in
        let pages = total_pages (length xs) size in
        (bounds w env.page_limit requested_size size ≡ (cap, cap, true))
        ⊎ (bounds w env.page_limit requested_size size ≡ (pages, cap, false))
  unfolding bounds
  bounds-known size w total known =
      let cap = page_limit_at env.page_limit requested_size size in
      let pages = total_pages (length xs) size in
      elim (Bool-cases (ltb 0 cap && ltb cap pages)) [
        | inl over ↦ inl (rw (known, total, over) refl)
        | inr within ↦ inr (rw (known, total, within) refl)
      ]

  read_within-Honest :
      (size pages cap : ℕ) (clamped : Bool) (w : PaginationWalk A)
      → 0 < size
      → w.started ≡ true
      → Reads xs size w
      → (clamped ≡ false → total_pages (length xs) size ≤ pages)
      → (clamped ≡ true → env.stop_on_truncation ≡ false → cap ≤ pages)
      → AttemptHonest xs env size
          (after_read env size (read_within env size w (pages, cap, clamped)))
  read_within-Honest size pages cap true w pos going r whole enough =
      elim (Bool-cases env.stop_on_truncation) [
        | inl stop ↦ simp (stop) (
            after_read-Honest xs env size r.read cap true (none, w) pos (going, r, λ _. omega arith)
              (λ e. absurd (cc)) (λ _ k. absurd (cc)))
        | inr on ↦ simp (on) (
            after_read-Honest xs env size pages cap true (read_pages env size pages w) pos
              (read_pages-Reads size pages w going r) whole enough)
      ]
  read_within-Honest size pages cap false w pos going r whole enough =
      after_read-Honest xs env size pages cap false (read_pages env size pages w) pos
        (read_pages-Reads size pages w going r) whole enough

  read_on-Honest :
      (size : ℕ) (w : PaginationWalk A)
      → 0 < size
      → w.started ≡ true
      → Reads xs size w
      → AttemptHonest xs env size (after_read env size (read_on env requested_size size w))
  unfolding read_on
  read_on-Honest size w pos going r =
      let cap = page_limit_at env.page_limit requested_size size in
      let pages = total_pages (length xs) size in
      let Goal : ℕ × ℕ × Bool → Type ℓ =
        λ b. AttemptHonest xs env size (after_read env size (read_within env size w b)) in
      elim (bounds-known size w r.total r.known) [
        | inl over ↦ subst Goal (sym over) (
            read_within-Honest size cap cap true w pos going r (λ e. absurd (cc))
              (λ _ _. omega arith))
        | inr within ↦ subst Goal (sym within) (
            read_within-Honest size pages cap false w pos going r (λ _. omega arith)
              (λ e. absurd (cc)))
      ]

  after_start-Honest :
      (size : ℕ) (o : Option FetchError × PaginationWalk A)
      → 0 < size
      → Keeps xs size o.1
      → (o.0 ≡ none → (o.1.started ≡ true) × Reads xs size o.1)
      → AttemptHonest xs env size (after_start env requested_size size o)
  after_start-Honest size (some e, w) pos keeps ready = keeps
  after_start-Honest size (none, w) pos keeps ready =
      let (going, r) = ready refl in read_on-Honest size w pos going r

  walk_pages-Honest :
      (size : ℕ) (w : PaginationWalk A)
      → 0 < size
      → Keeps xs size w
      → AttemptHonest xs env size (walk_pages env requested_size size w)
  unfolding walk_pages
  walk_pages-Honest size w pos (inl (fresh, first)) =
      let (keeps, ready) = start_walk-Started xs env serves size w fresh first in
      simp (fresh) (after_start-Honest size (start_walk env size w) pos keeps ready)
  walk_pages-Honest size w pos (inr (going, r)) =
      simp (going) (after_start-Honest size (none, w) pos (inr (going, r)) (λ _. (going, r)))

  resized :
      (next size : ℕ) (w : PaginationWalk A)
      → 0 < next
      → next ≤ size
      → Keeps xs size w
      → Keeps xs next (if ltb next size then resize w next else w)
  resized next size w pos le keeps = elim (Bool-cases (ltb next size)) [
    | inl smaller ↦ rw smaller (resize-Keeps xs size next w pos keeps)
    | inr again ↦
        let same : size ≡ next = not_less next size le again in
        rw again (subst (λ s. Keeps xs s w) same keeps)
  ]

  module _ (table : PageSizeTable) (start_size : ℕ) where
    -- The result of a fetch that ends well is honest.
    abbrev AllHonest : Option (Fetched A) → Type ℓ
    AllHonest o = (res : PageResult A) (t : PageSizeTable) → o ≡ some (ok res t) → Honest xs env res

    attempts-Honest :
        (fuel size : ℕ) (w : PaginationWalk A) (st : FallbackState)
        → 0 < size
        → Keeps xs size w
        → AllHonest (attempts env table requested_size start_size fuel size w st)
    unfolding attempts
    attempts-Honest zero size w st pos keeps res t e = absurd (cc)
    attempts-Honest (suc fuel) size w st pos keeps res t e =
        let honest = walk_pages-Honest size w pos keeps in
        elim (Attempt-cases (walk_pages env requested_size size w)) [
          | inl (res', done) ↦
              let e' = rw (done, attempts) at e in
              subst (λ r. Honest xs env r) (ok_same res' res _ t e')
                (subst (AttemptHonest xs env size) done honest)
          | inr (err, w', failing) ↦
              let keeps' : Keeps xs size w' = subst (AttemptHonest xs env size) failing honest in
              let e' = rw (failing, attempts) at e in
              elim (Option-cases (fallback_next st size err).0) [
                | inl none_left ↦ absurd (failed_not_ok (rw none_left at e'))
                | inr (next, more) ↦
                    let (_, le, kind) = fallback_next-less st size err next more in
                    let pos' : 0 < next = next_positive next size pos kind in
                    attempts-Honest fuel next (if ltb next size then resize w' next else w')
                      (fallback_next st size err).1 pos' (resized next size w' pos' le keeps') res t
                      (rw more at e')
              ]
        ]

-- A fetch that ends well returns a first part of the server's list, nothing twice and nothing left out
-- between, however often requests failed and the page size fell; the whole list, unless it reports a
-- truncation; and where the page cap stopped it, at least as many pages as the cap, unless the caller
-- asked it to stop there. Its total is the length of the list.
pub get_paginated_result-Honest {ℓ} :
    {A : Type ℓ} (xs : List A) (env : Env A) (table : PageSizeTable) (res : PageResult A)
    (t : PageSizeTable)
    → Serves xs env
    → get_paginated_result env table ≡ some (ok res t)
    → Honest xs env res
unfolding get_paginated_result apply_defaults size_for
get_paginated_result-Honest xs env table res t serves e =
    let requested_size = apply_defaults env.max_page_size in
    let start_size = size_for table env.path requested_size env.started_at in
    attempts-Honest xs env serves requested_size table start_size max_attempts start_size
      new_pagination_walk (record { slow_failed_at = 0; min_size_retries = 0 })
      (size_for_learned_positive (table env.path) env.max_page_size env.started_at)
      (inl (refl, refl)) res t e
