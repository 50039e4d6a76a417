-- ===== src/Matching/Score.antt =====
-- issueMatchScore and classifyIssueCandidatesByScore of matchscore.go.
use mathlib.Core.List.{head-eq_of_cons-eq, tail-eq_of_cons-eq}
use sonar_migration_tool.Common.{
  ℕ, ◌+◌, ◌≤◌, ◌≡◌, refl, sym, ap, ◌∙◌, ◌⊎◌, inl, inr, Bool, true, false, not, List, [], ◌∷◌, ◌++◌,
  arith, All, ◌==◌, Bool-cases, leb→le,
}
use sonar_migration_tool.Matching.Defs.{
  Text, same, levenshtein_within, message_approx_distance, MatchableIssue, strip_project_key_prefix,
  point, message_points, issue_match_score, synced, line_mismatch, not_found, select, is_exact,
  is_approx, pick, classify_issue_candidates_by_score,
}
use sonar_migration_tool.Matching.Align.{Align}
use sonar_migration_tool.Matching.Distance.{Align-same, levenshtein_within_iff}

-- The number of the other fields that differ: file, line, type, severity and author.
abbrev pub differences : MatchableIssue → MatchableIssue → ℕ
differences s c =
    point (not (same (strip_project_key_prefix s.component) (strip_project_key_prefix c.component)))
    + point (not (s.line == c.line))
    + point (not (same s.type_ c.type_))
    + point (not (same s.severity c.severity))
    + point (not (same s.author c.author))

abbrev pub Close : Text → Text → Type 0
Close a b = (n : ℕ) × (n ≤ message_approx_distance) × Align a b n

count_points :
    (f l t v a : Bool) (base : ℕ)
    → 6 ≤ base + point f + point l + point t + point v + point a
    → 6 + (point (not f) + point (not l) + point (not t) + point (not v) + point (not a)) ≤ base + 5
count_points f l t v a base h = ground (arith, h)

enough_points :
    (equal near f l t v a : Bool)
    → 6 ≤ message_points equal near + point f + point l + point t + point v + point a
    → let differ = point (not f) + point (not l) + point (not t) + point (not v) + point (not a) in
      ((equal ≡ true) ⊎ (near ≡ true)) × (differ ≤ 1) × (equal ≡ false → differ ≡ 0)
enough_points true near f l t v a h =
    (inl refl, omega (arith, count_points f l t v a 2 h), λ e. absurd (cc))
enough_points false true f l t v a h = (
  inr refl,
  omega (arith, count_points f l t v a 1 h),
  λ e. omega (arith, count_points f l t v a 1 h),
)
enough_points false false f l t v a h = absurd (omega (arith, count_points f l t v a 0 h))

-- A candidate that the score lets qualify has the source's rule, its message is at most five edits
-- away, and at most one of file, line, type, severity and author differs, none if the message does.
pub is_approx-Close :
    (source c : MatchableIssue)
    → is_approx source c ≡ true
    → (same source.rule c.rule ≡ true)
      × Close source.message c.message
      × (differences source c ≤ 1)
      × (same source.message c.message ≡ false → differences source c ≡ 0)
unfolding is_approx issue_match_score
is_approx-Close source c e =
    let f =
      same (strip_project_key_prefix source.component) (strip_project_key_prefix c.component) in
    let l = source.line == c.line in
    let t = same source.type_ c.type_ in
    let v = same source.severity c.severity in
    let a = same source.author c.author in
    let equal = same source.message c.message in
    let near = levenshtein_within source.message c.message message_approx_distance in
    elim (Bool-cases (same source.rule c.rule)) [
      | inr other ↦ absurd (let k = rw (other, is_approx) at e in cc)
      | inl rule ↦
          let total =
            leb→le 6 (message_points equal near + point f + point l + point t + point v + point a)
              (rw (rule, is_approx) at e) in
          let (message, few, none_left) = enough_points equal near f l t v a total in
          (
            rule,
            elim message [
              | inl k ↦ (0, omega arith, Align-same source.message c.message k)
              | inr k ↦
                  (levenshtein_within_iff source.message c.message message_approx_distance).0 k
            ],
            few,
            none_left,
          )
    ]

-- One candidate, at one position, passes the test and all others fail it.
abbrev pub Only : (MatchableIssue → Bool) → MatchableIssue → List MatchableIssue → Type 0
Only test c candidates =
    (before : List MatchableIssue) × (after : List MatchableIssue) × (candidates
      ≡ before ++ c ∷ after)
    × (test c ≡ true)
    × All (λ d. test d ≡ false) before
    × All (λ d. test d ≡ false) after

select-nil :
    (test : MatchableIssue → Bool) (cs : List MatchableIssue)
    → select test cs ≡ []
    → All (λ d. test d ≡ false) cs
unfolding select
select-nil test [] e = tt
select-nil test (c ∷ cs) e = elim (Bool-cases (test c)) [
  | inl k ↦ absurd (let e' = rw k at e in cc)
  | inr k ↦ (k, select-nil test cs (rw k at e))
]

select-Only :
    (test : MatchableIssue → Bool) (c : MatchableIssue) (cs : List MatchableIssue)
    → select test cs ≡ c ∷ []
    → Only test c cs
unfolding select
select-Only test c [] e = absurd (cc)
select-Only test c (d ∷ cs) e = elim (Bool-cases (test d)) [
  | inl k ↦
      let e' = rw k at e in
      let same_one : d ≡ c = head-eq_of_cons-eq e' in
      (
        [],
        cs,
        ap (λ x. x ∷ cs) same_one,
        ap test (sym same_one) ∙ k,
        tt,
        select-nil test cs (tail-eq_of_cons-eq e'),
      )
  | inr k ↦
      let (before, after, split, passes, fails, fails') = select-Only test c cs (rw k at e) in
      (d ∷ before, after, ap (λ ds. d ∷ ds) split, passes, (k, fails), fails')
]

same_pick : (d c : MatchableIssue) → synced d ≡ synced c → d ≡ c
same_pick d c e = ap (λ o. elim o [ synced x ↦ x | line_mismatch ↦ d | not_found ↦ d ]) e

pick-synced :
    (exact approx : List MatchableIssue) (c : MatchableIssue)
    → pick exact approx ≡ synced c
    → (exact ≡ c ∷ []) ⊎ ((exact ≡ []) × (approx ≡ c ∷ []))
pick-synced [] [] c e = absurd (cc)
pick-synced [] (d ∷ []) c e = inr (refl, ap (λ x. x ∷ []) (same_pick d c e))
pick-synced [] (d ∷ d' ∷ ds) c e = absurd (cc)
pick-synced (d ∷ []) approx c e = inl (ap (λ x. x ∷ []) (same_pick d c e))
pick-synced (d ∷ d' ∷ ds) approx c e = absurd (cc)

-- A source issue is synced only with a candidate of the list, and only where the choice is clear:
-- it is the one candidate that agrees exactly, or none does and it is the one whose score qualifies.
pub classify-Only :
    (candidates : List MatchableIssue) (source c : MatchableIssue)
    → classify_issue_candidates_by_score candidates source ≡ synced c
    → Only (is_exact source) c candidates
      ⊎ (All (λ d. is_exact source d ≡ false) candidates × Only (is_approx source) c candidates)
unfolding classify_issue_candidates_by_score
classify-Only candidates source c e =
    let exact = select (is_exact source) candidates in
    elim (pick-synced exact (select (is_approx source) candidates) c e) [
      | inl one ↦ inl (select-Only (is_exact source) c candidates one)
      | inr (nothing, one) ↦ inr (
        select-nil (is_exact source) candidates nothing,
        select-Only (is_approx source) c candidates one,
      )
    ]
