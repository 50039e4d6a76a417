-- ===== src/Matching/Defs.antt =====
-- The matching of matchscore.go. Texts are lists of runes: the code compares two messages as strings
-- and walks them as runes, which is the same for valid UTF-8.
use sonar_migration_tool.Common.{
  ℕ, zero, suc, ◌+◌, ◌-◌, Bool, true, false, Option, none, some, List, [], ◌∷◌, length, ltb, leb,
  ◌==◌, if◌then◌else◌, ◌&&◌, ◌||◌,
}

abbrev pub Text : Type 0
Text = List ℕ

unfoldable pub same : Text → Text → Bool
same [] [] = true
same [] (y ∷ ys) = false
same (x ∷ xs) [] = false
same (x ∷ xs) (y ∷ ys) = if x == y then same xs ys else false

-- min3
unfoldable pub min3 : ℕ → ℕ → ℕ → ℕ
min3 a b c = let m = if ltb b a then b else a in if ltb c m then c else m

-- abs of a difference.
unfoldable pub abs_difference : ℕ → ℕ → ℕ
abs_difference a b = (a - b) + (b - a)

abbrev pub cost : ℕ → ℕ → ℕ
cost a b = if a == b then 0 else 1

-- The inner loop of levenshteinWithin, after curr[j - 1] is `left`: what it puts into curr[j] and
-- the cells after it. The first of `prev` is prev[j - 1].
unfoldable pub fill : ℕ → ℕ → List ℕ → Text → List ℕ
unfolding min3
fill x left [] rb = []
fill x left (p ∷ []) rb = []
fill x left (p ∷ q ∷ prev) [] = []
fill x left (p ∷ q ∷ prev) (y ∷ rb) =
    let cell = min3 (left + 1) (q + 1) (p + cost x y) in cell ∷ fill x cell (q ∷ prev) rb

-- The outer loop: row i of the table from row i - 1. Every cell of curr is written before it is read,
-- so that its earlier contents do not matter.
unfoldable pub rows : ℕ → Text → Text → List ℕ → List ℕ
unfolding fill
rows i [] rb prev = prev
rows i (x ∷ ra) rb prev = rows (suc i) ra rb (i ∷ fill x i prev rb)

abbrev pub count_up : ℕ → Text → List ℕ
count_up j [] = j ∷ []
count_up j (y ∷ rb) = j ∷ count_up (suc j) rb

abbrev pub last_cell : List ℕ → ℕ
last_cell [] = 0
last_cell (n ∷ []) = n
last_cell (n ∷ m ∷ row) = last_cell (m ∷ row)

-- levenshteinWithin
unfoldable pub levenshtein_within : Text → Text → ℕ → Bool
unfolding same abs_difference rows
levenshtein_within a b max_dist =
    if same a b
    then true
    else if ltb max_dist (abs_difference (length a) (length b))
    then false
    else leb (last_cell (rows 1 a b (count_up 0 b))) max_dist

abbrev pub message_approx_distance : ℕ
message_approx_distance = 5

abbrev pub issue_approx_match_threshold : ℕ
issue_approx_match_threshold = 6

-- The fields of matchableIssue that the matching reads.
pub record MatchableIssue : Type 0 where
  pub rule : Text
  pub component : Text
  pub line : ℕ
  pub message : Text
  pub type_ : Text
  pub severity : Text
  pub author : Text

-- strings.Index of ":", as the text before it and the text after it.
unfoldable pub cut_colon : Text → Option (Text × Text)
cut_colon [] = none
cut_colon (c ∷ s) =
    let rest = cut_colon s in
    if c == b':' then some ([], s) else elim rest [ none ↦ none | some p ↦ some (c ∷ p.0, p.1) ]

unfoldable pub has_slash : Text → Bool
has_slash [] = false
has_slash (c ∷ s) = c == b'/' || has_slash s

-- The loop of stripProjectKeyPrefix. It ends when the fuel does, too, but each iteration shortens
-- the component.
unfoldable pub strip_loop : ℕ → Text → Text
unfolding cut_colon has_slash
strip_loop zero component = component
strip_loop (suc fuel) component = elim (cut_colon component) [
  | none ↦ component
  | some p ↦ if has_slash p.0 then component else strip_loop fuel p.1
]

-- stripProjectKeyPrefix
unfoldable pub strip_project_key_prefix : Text → Text
unfolding strip_loop
strip_project_key_prefix component = strip_loop (length component) component

abbrev pub point : Bool → ℕ
point true = 1
point false = 0

-- The points of the message: whether it is equal, and whether it is similar.
abbrev pub message_points : Bool → Bool → ℕ
message_points equal similar = if equal then 2 else if similar then 1 else 0

-- issueMatchScore; `none` is the score -1 of a candidate with another rule.
unfoldable pub issue_match_score : MatchableIssue → MatchableIssue → Option ℕ
unfolding same levenshtein_within strip_project_key_prefix
issue_match_score source candidate =
    if same source.rule candidate.rule
    then some (
        message_points (same source.message candidate.message)
          (levenshtein_within source.message candidate.message message_approx_distance)
        + point (
            same (strip_project_key_prefix source.component)
              (strip_project_key_prefix candidate.component))
        + point (source.line == candidate.line)
        + point (same source.type_ candidate.type_)
        + point (same source.severity candidate.severity)
        + point (same source.author candidate.author))
    else none

-- syncOutcome, as far as the matching returns it, with the issue that was picked.
pub data SyncOutcome : Type 0 where
  synced : MatchableIssue → SyncOutcome
  line_mismatch not_found : SyncOutcome

unfoldable pub select : (MatchableIssue → Bool) → List MatchableIssue → List MatchableIssue
select test [] = []
select test (c ∷ cs) = let rest = select test cs in if test c then c ∷ rest else rest

unfoldable pub is_exact : MatchableIssue → MatchableIssue → Bool
unfolding same strip_project_key_prefix
is_exact source c =
    same (strip_project_key_prefix c.component) (strip_project_key_prefix source.component)
    && (c.line == source.line && same c.message source.message)

unfoldable pub is_approx : MatchableIssue → MatchableIssue → Bool
unfolding issue_match_score
is_approx source c = elim (issue_match_score source c) [
  | none ↦ false
  | some score ↦ leb issue_approx_match_threshold score
]

abbrev pub pick_approx : List MatchableIssue → SyncOutcome
pick_approx [] = not_found
pick_approx (c ∷ []) = synced c
pick_approx (c ∷ d ∷ cs) = line_mismatch

abbrev pub pick : List MatchableIssue → List MatchableIssue → SyncOutcome
pick [] approx = pick_approx approx
pick (c ∷ []) approx = synced c
pick (c ∷ d ∷ cs) approx = line_mismatch

-- classifyIssueCandidatesByScore
unfoldable pub classify_issue_candidates_by_score :
    List MatchableIssue → MatchableIssue → SyncOutcome
unfolding select is_exact is_approx
classify_issue_candidates_by_score candidates source =
    pick (select (is_exact source) candidates) (select (is_approx source) candidates)
