-- ===== src/Slicer/Books.antt =====
-- What a walk of extract/slice.go knows of the items that it has handed on and of the losses that it
-- has recorded.
use sonar_migration_tool.Common.{
  ℕ, suc, ◌+◌, ◌≤◌, ◌≡◌, refl, ap, Bool, true, Option, none, some, String, List, [], ◌∷◌, ◌++◌,
  length, length-append, arith, ◌==◌, if◌then◌else◌, Bool-cases, Option-cases, inl, inr, str_eq,
  has, NoDup, All,
}
use sonar_migration_tool.Fallback.Defs.{PageResult, Fetched, get_paginated_result}
use sonar_migration_tool.Slicer.Windows.{IssueWindow, Query}
use sonar_migration_tool.Slicer.State.{
  SliceReason, TruncationRecord, World, Slicer, success, outcome_of, state_of,
}
use sonar_migration_tool.Slicer.Requests.{
  adopt, take_in, absorb_loop, give_to_sink, absorb_fresh, absorb, record_truncation, count_window,
  count_slicer_request, latch, record_shortfall, fully_booked, unaccounted, run_search,
  issue_search,
}
use sonar_migration_tool.Slicer.Keeps.{Stable}

-- The sum of the losses that the records state.
abbrev pub sum_lost : List TruncationRecord → ℕ
sum_lost [] = 0
sum_lost (rec ∷ recs) = rec.lost + sum_lost recs

-- A shortfall that is not recorded is booked already, and then there is a record too.
module _ {ℓ} {A : Type ℓ} (reason : SliceReason) (s : Slicer A) where
  pub shortfall_recorded :
      s.expected_loss ≡ sum_lost s.records → (record_shortfall reason s).records ≡ [] → ⊥
  unfolding record_shortfall record_truncation fully_booked
  shortfall_recorded booked e = elim (Bool-cases (fully_booked s)) [
    | inl all_booked ↦
        let none_lost : sum_lost s.records ≡ 0 = ap sum_lost (simp (all_booked) at e) in
        ground (arith, all_booked, booked, none_lost)
    | inr short ↦ let k = simp (short) at e in absurd (cc)
  ]

  pub shortfall_covers :
      let s' = record_shortfall reason s in
      s'.total_known ≡ true → s'.initial_total ≤ s'.unique + s'.expected_loss
  unfolding record_shortfall record_truncation fully_booked unaccounted
  shortfall_covers known = elim (Bool-cases (fully_booked s)) [
    | inl all_booked ↦
        let known' : s.total_known ≡ true = simp (all_booked) at known in
        simp (all_booked) (ground (arith, all_booked, known'))
    | inr short ↦
        let known' : s.total_known ≡ true = simp (short) at known in
        simp (short) (ground (arith, known'))
  ]

module _ {ℓ} {A : Type ℓ} (world : World A) where
  -- The keys of the items that have one, and how many have none.
  unfoldable pub keys_of : List A → List String
  keys_of [] = []
  keys_of (x ∷ xs) =
      let rest = keys_of xs in if str_eq (world.key_of x) "" then rest else world.key_of x ∷ rest

  unfoldable pub keyless_of : List A → ℕ
  keyless_of [] = 0
  keyless_of (x ∷ xs) =
      let rest = keyless_of xs in if str_eq (world.key_of x) "" then suc rest else rest

module _ {ℓ} {A : Type ℓ} (world : World A) (In : A → Type ℓ) (opening : ℕ) (opened : Bool) where
  -- No key is handed on twice; the counts are those of the items handed on; the losses add up. Items
  -- that wait for the sink count too, but for `unique`. The opening total does not change.
  pub record PendingOf (waiting sunk : List A) (seen : List String) (unique keyless loss : ℕ)
      (records : List TruncationRecord) (total : ℕ) (known : Bool) : Type ℓ where
    pub seen_keys : seen ≡ keys_of world (waiting ++ sunk)
    pub seen_once : NoDup seen
    pub counted : unique ≡ length sunk
    pub without_key : keyless ≡ keyless_of world (waiting ++ sunk)
    pub booked : loss ≡ sum_lost records
    pub from : All In (waiting ++ sunk)
    pub total_stays : total ≡ opening
    pub known_stays : known ≡ opened

  abbrev pub Pending : List A → Slicer A → Type ℓ
  Pending waiting s =
      PendingOf waiting s.sunk s.seen s.unique s.keyless s.expected_loss s.records s.initial_total
        s.total_known

  abbrev pub Books : Slicer A → Type ℓ
  Books = Pending []

  abbrev AllPending : List A × Slicer A → Type ℓ
  AllPending o = Pending o.0 o.1

  absorb_loop-Pending :
      (items fresh : List A) (s : Slicer A)
      → All In items
      → Pending fresh s
      → AllPending (absorb_loop world items fresh s)
  unfolding absorb_loop keys_of keyless_of
  absorb_loop-Pending [] fresh s fit p = p
  absorb_loop-Pending (raw ∷ items) fresh s (here, fit) p =
      elim (Bool-cases (str_eq (world.key_of raw) "")) [
        | inl no_key ↦
            simp (no_key, absorb_loop)
              (absorb_loop-Pending items (raw ∷ fresh) (record s { keyless = s.keyless + 1 }) fit
                (record {
                  seen_keys = simp (no_key) p.seen_keys;
                  seen_once = p.seen_once;
                  counted = p.counted;
                  without_key = simp (no_key) (omega (arith, p.without_key));
                  booked = p.booked;
                  from = (here, p.from);
                  total_stays = p.total_stays;
                  known_stays = p.known_stays;
                }))
        | inr keyed ↦ elim (Bool-cases (has (world.key_of raw) s.seen)) [
          | inl again ↦
              simp (keyed, again, absorb_loop)
                (absorb_loop-Pending items fresh (record s { duplicates = s.duplicates + 1 }) fit p)
          | inr new ↦
              simp (keyed, new, absorb_loop)
                (absorb_loop-Pending items (raw ∷ fresh)
                  (record s { seen = world.key_of raw ∷ s.seen }) fit
                  (record {
                    seen_keys = simp (keyed, p.seen_keys) refl;
                    seen_once = (new, p.seen_once);
                    counted = p.counted;
                    without_key = simp (keyed) p.without_key;
                    booked = p.booked;
                    from = (here, p.from);
                    total_stays = p.total_stays;
                    known_stays = p.known_stays;
                  }))
        ]
      ]

  absorb_fresh-Books :
      (fresh : List A) (s : Slicer A)
      → Pending fresh s
      → Books (state_of (absorb_fresh world (fresh, s)))
  unfolding absorb_fresh give_to_sink
  absorb_fresh-Books [] s p = p
  absorb_fresh-Books (x ∷ fresh) s p =
      let handed : Books (record s {
        unique = s.unique + length (x ∷ fresh);
        sunk = (x ∷ fresh) ++ s.sunk;
        chunks = s.chunks + 1;
      }) =
        record {
          seen_keys = p.seen_keys;
          seen_once = p.seen_once;
          counted = omega (arith, p.counted, length-append (x ∷ fresh) s.sunk);
          without_key = p.without_key;
          booked = p.booked;
          from = p.from;
          total_stays = p.total_stays;
          known_stays = p.known_stays;
        } in
      elim (Bool-cases (world.sink_fails s.chunks)) [
        | inl broken ↦ simp (broken) handed
        | inr fine ↦ simp (fine) handed
      ]

  pub absorb-Books :
      (items : List A) (s : Slicer A)
      → All In items
      → Books s
      → Books (state_of (absorb world items s))
  unfolding absorb
  absorb-Books items s fit b =
      let o = absorb_loop world items [] s in
      absorb_fresh-Books o.0 o.1 (absorb_loop-Pending items [] s fit b)

  adopt-Books :
      (requests page_size page_limit : ℕ) (s : Slicer A)
      → Books s
      → Books (adopt requests page_size page_limit s)
  unfolding adopt
  adopt-Books requests page_size page_limit s b = elim (Bool-cases (page_size == 0)) [
    | inl nothing ↦ rw nothing b
    | inr sized ↦ rw sized b
  ]

  take_in-Books :
      (w : IssueWindow) (s : Slicer A) (o : Option (Fetched A))
      → Books s
      → Books (state_of (take_in world w s o))
  unfolding take_in
  take_in-Books w s none b = b
  take_in-Books w s (some (Fetched.ok res table)) b =
      adopt-Books res.requests res.page_size res.page_limit s b
  take_in-Books w s (some (Fetched.failed requests page_size page_limit e)) b =
      adopt-Books requests page_size page_limit s b

  latch-Books : (reason : SliceReason) (s : Slicer A) → Books s → Books (latch reason s)
  unfolding latch
  latch-Books reason s b = elim (Option-cases s.degraded_reason) [
    | inl first ↦ simp (first, latch) b
    | inr (earlier, e) ↦ simp (e, latch) b
  ]

  -- Whatever the fetches of a world return satisfies In.
  abbrev pub AllFrom : Type ℓ
  AllFrom =
      (w : IssueWindow) (q : Query) (stop : Bool) (s : Slicer A) (res : PageResult A)
      → outcome_of (run_search world w q stop s) ≡ success res
      → All In res.items

  pub Books-Stable : AllFrom → Stable world Books (All In)
  unfolding run_search count_window count_slicer_request record_truncation
  Books-Stable from = record {
    on_search = λ w q stop s b. (
      take_in-Books w s (get_paginated_result (issue_search world s.requests q stop) s.table) b,
      λ res e. from w q stop s res e,
    );
    on_absorb = λ items fit s b. absorb-Books items s fit b;
    on_window = λ s b. b;
    on_request = λ s b. b;
    on_record = λ rec s b. record {
      seen_keys = b.seen_keys;
      seen_once = b.seen_once;
      counted = b.counted;
      without_key = b.without_key;
      booked = omega (arith, b.booked);
      from = b.from;
      total_stays = b.total_stays;
      known_stays = b.known_stays;
    };
    on_latch = λ reason s b. latch-Books reason s b;
    on_fall_back = λ s b. b;
    on_audit = λ audit s b. b;
  }
