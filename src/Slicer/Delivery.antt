-- ===== src/Slicer/Delivery.antt =====
-- What fetchProjectIssues of extract/slice.go delivers from a server that has a fixed list of issues.
use mathlib.Core.Path.{subst}
use sonar_migration_tool.Common.{
  ℕ, zero, suc, ◌+◌, ◌≡◌, refl, sym, ap, ◌∙◌, Bool, true, Option, none, some, List, [], ◌∷◌, ◌++◌,
  append_nil, length, take, ◌==◌, Bool-cases, inl, inr, NoDup, All, Subset,
}
use sonar_migration_tool.Fallback.Table.{PageSizeTable}
use sonar_migration_tool.Fallback.Defs.{
  Env, PageResult, Fetched, get_paginated_result, TruncationReason,
}
use sonar_migration_tool.Fallback.Keeps.{Serves}
use sonar_migration_tool.Fallback.Whole.{Honest, get_paginated_result-Honest}
use sonar_migration_tool.Slicer.Windows.{
  IssueWindow, root_issue_window, Query, window_params, safe_to_request,
}
use sonar_migration_tool.Slicer.State.{
  of_fetch, answer_of, World, Slicer, success, outcome_of, state_of, bind_outcome, modify, ◌>>=◌,
  ◌>>◌,
}
use sonar_migration_tool.Slicer.Requests.{
  adopt, take_in, run_search, issue_search, fetch_window, give_to_sink, degrade, record_degradation,
}
use sonar_migration_tool.Slicer.Walk.{
  slice_project_issues, is_counted_clamp, after_entry, fetch_project_issues, initial_slicer,
}
use sonar_migration_tool.Slicer.Keeps.{Leads, bind-Leads, test-Leads, degrade-Keeps}
use sonar_migration_tool.Slicer.Books.{keys_of, keyless_of, PendingOf, Books, AllFrom, Books-Stable}
use sonar_migration_tool.Slicer.Silent.{
  IsNamed, IsKeyed, Everything, Whole, slice_project_issues-Whole, record_degradation-recorded,
  fails_Whole,
}

module _ {A : Type 0} (world : World A) (xs : List A) where
  -- A server with the issues `xs`: a search without dates and filters pages all of them, any other
  -- search pages some of them, in whatever way it reads its parameters, and a count that it gives
  -- without dates is that of the issues. Every issue has a key of its own. Any request may fail.
  pub record Offers : Type 0 where
    pub whole :
        (n : ℕ) (stop : Bool)
        → Serves xs (issue_search world n (window_params root_issue_window) stop)
    pub part :
        (n : ℕ) (q : Query) (stop : Bool)
        → (ys : List A) × All (IsNamed world xs) ys × Serves ys (issue_search world n q stop)
    pub counted :
        (n total : ℕ)
        → world.total_of n (window_params root_issue_window) ≡ answer_of total
        → total ≡ length xs
    pub keyed : All (IsKeyed world xs) xs
    pub once : NoDup (keys_of world xs)

  take_in-ok :
      (w : IssueWindow) (s : Slicer A) (o : Option (Fetched A)) (res : PageResult A)
      → outcome_of (take_in world w s o) ≡ success res
      → (table : PageSizeTable) × (o ≡ some (Fetched.ok res table))
  unfolding take_in
  take_in-ok w s none res e = absurd (cc)
  take_in-ok w s (some (Fetched.ok res' table)) res e = (table, cc)
  take_in-ok w s (some (Fetched.failed n l m k)) res e = absurd (cc)

  All-take : (P : A → Type 0) (k : ℕ) (ys : List A) → All P ys → All P (take k ys)
  All-take P zero ys a = tt
  All-take P (suc k) [] a = tt
  All-take P (suc k) (y ∷ ys) (p, a) = (p, All-take P k ys a)

  module _ (offers : Offers) where
    searched-IsNamed : AllFrom world (IsNamed world xs) (length xs) true
    unfolding run_search
    searched-IsNamed w q stop s res e =
        let env = issue_search world s.requests q stop in
        let (table, done) = take_in-ok w s (get_paginated_result env s.table) res e in
        let (ys, names, serves) = offers.part s.requests q stop in
        let (k, first) = (get_paginated_result-Honest ys env s.table res table serves done).part in
        subst (All (IsNamed world xs)) (sym first) (All-take (IsNamed world xs) k ys names)

    abbrev Walked : Slicer A → Type 0
    Walked = Books world (IsNamed world xs) (length xs) true

    -- A walk that has delivered nothing yet.
    abbrev Opening : Slicer A → Type 0
    Opening s = Walked s × (s.sunk ≡ []) × (s.seen ≡ [])

    adopt-Opening :
        (requests page_size page_limit : ℕ) (table : PageSizeTable) (res : PageResult A)
        → res.total ≡ length xs
        → res.total_known ≡ true
        → Opening (record (adopt requests page_size page_limit (initial_slicer world table)) {
          initial_total = res.total;
          total_known = res.total_known;
        })
    unfolding adopt keys_of keyless_of
    adopt-Opening requests page_size page_limit table res e k =
        let start : PendingOf world (IsNamed world xs) (length xs) true [] [] [] 0 0 0 [] res.total
            res.total_known =
          record {
            seen_keys = refl;
            seen_once = tt;
            counted = refl;
            without_key = refl;
            booked = refl;
            from = tt;
            total_stays = e;
            known_stays = k;
          } in
        elim (Bool-cases (page_size == 0)) [
          | inl none_reported ↦ rw none_reported (start, refl, refl)
          | inr reported ↦ rw reported (start, refl, refl)
        ]

    delivered : (s : Slicer A) → s.sunk ≡ xs → Everything world xs s
    delivered s e =
        subst
          (λ l.
            Subset (keys_of world xs) (keys_of world l)
            × NoDup (keys_of world l)
            × (length l ≡ length xs))
          (sym e) ((λ k h. h), offers.once, refl)

    handed_Whole :
        (items : List A) → items ≡ xs → Leads Opening (Whole world xs) (give_to_sink world items)
    unfolding give_to_sink
    handed_Whole items e s (p, empty, _) = elim (Bool-cases (world.sink_fails s.chunks)) [
      | inl broken ↦ simp (broken) (λ h. absurd (cc))
      | inr fine ↦ simp (fine) (λ h k.
          delivered (record s { sunk = items ++ s.sunk; chunks = s.chunks + 1 })
            (ap (λ l. items ++ l) empty ∙ append_nil items ∙ e))
    ]

    sliced_Whole : Leads Opening (Whole world xs) (slice_project_issues world)
    sliced_Whole s (p, empty, unseen) =
        slice_project_issues-Whole world xs (Books-Stable world _ _ _ searched-IsNamed) offers.keyed
          offers.counted s
          (subst
            (λ k.
              PendingOf world (IsNamed world xs) (length xs) true [] s.sunk k s.unique s.keyless
                s.expected_loss s.records s.initial_total s.total_known)
            unseen p)

    degraded_Whole :
        (reason : TruncationReason)
        → Leads Walked
            (Whole world xs)
            (degrade world (of_fetch reason) >> modify record_degradation)
    degraded_Whole reason =
        let stable = Books-Stable world _ _ _ searched-IsNamed in
        bind-Leads Walked (Whole world xs) _ _ (fails_Whole world xs)
          (degrade-Keeps world Walked (All (IsNamed world xs)) stable (of_fetch reason))
          (λ _ s p h e.
            absurd (record_degradation-recorded world xs stable offers.keyed offers.counted s p e))

    after_entry-Whole :
        (env : Env A) (res : PageResult A)
        → Honest xs env res
        → Leads Opening (Whole world xs) (after_entry world res)
    unfolding after_entry
    after_entry-Whole env res honest =
        test-Leads Opening (Whole world xs) res.truncated _ _
          (λ _.
            test-Leads Opening (Whole world xs) (is_counted_clamp world res.reason res.total_known)
              _ _ (λ _. sliced_Whole) (λ _ s o. degraded_Whole res.reason s o.0))
          (λ whole. handed_Whole res.items (honest.all (honest.told whole)))

    entered_Whole :
        (table : PageSizeTable) (env : Env A) (o : Option (Fetched A))
        → ((res : PageResult A) (t : PageSizeTable)
            → o ≡ some (Fetched.ok res t)
            → Honest xs env res)
        → Whole world xs (
            bind_outcome (take_in world root_issue_window (initial_slicer world table) o) (λ res.
              modify (λ s. record s { initial_total = res.total; total_known = res.total_known })
              >> after_entry world res))
    unfolding take_in ◌>>=◌
    entered_Whole table env none honest h = absurd (cc)
    entered_Whole table env (some (Fetched.failed n l m k)) honest h = absurd (cc)
    entered_Whole table env (some (Fetched.ok res t)) honest h =
        let good = honest res t refl in
        after_entry-Whole env res good
          (record (adopt res.requests res.page_size res.page_limit (initial_slicer world table)) {
            table = t;
            initial_total = res.total;
            total_known = res.total_known;
          })
          (adopt-Opening res.requests res.page_size res.page_limit table res good.total.1
            good.total.0)
          h

-- No silent loss: against a server with a fixed list of issues, whatever it makes of dates and facets,
-- a fetch that returns no error and leaves no truncation record has handed every issue to the sink,
-- and none twice.
pub fetch_project_issues-Whole :
    {A : Type 0} (world : World A) (xs : List A) (table : PageSizeTable)
    → Offers world xs
    → outcome_of (fetch_project_issues world table) ≡ success tt
    → (state_of (fetch_project_issues world table)).records ≡ []
    → Everything world xs (state_of (fetch_project_issues world table))
unfolding fetch_project_issues fetch_window run_search safe_to_request ◌>>=◌
fetch_project_issues-Whole world xs table offers h e =
    let env = issue_search world 0 (window_params root_issue_window) true in
    entered_Whole world xs offers table env (get_paginated_result env table)
      (λ res t. get_paginated_result-Honest xs env table res t (offers.whole 0 true)) h e
