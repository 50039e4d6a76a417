-- ===== src/Triage/Defs.antt =====
-- The pure decisions of tasks_issuesync.go: the transition of an issue, whether it was triaged by
-- hand, and the tags that are written.
use Prim.Native.Char.{code}
use sonar_migration_tool.Common.{
  upper_rune, is_space_rune, ℕ, ◌+◌, String, Bool, true, false, not, ◌&&◌, ◌||◌, List, [], ◌∷◌,
  ◌++◌, map, length, ltb, if◌then◌else◌, str_eq, has, codes,
}
use sonar_migration_tool.Matching.Defs.{same}
use sonar_migration_tool.Planner.Defs.{sort}

-- issueComment
pub record IssueComment : Type 0 where
  pub login : String
  pub html_text : String
  pub markdown : String
  pub created_at : String

-- matchableIssue, without the fields that play no role here.
pub record TriagedIssue : Type 0 where
  pub status : String
  pub resolution : String
  pub issue_status : String
  pub tags : List String
  pub all_tags : List String
  pub comments : List IssueComment
  pub manual_severity : Bool

-- A case of a switch on strings.ToUpper of a text.
unfoldable pub is_word : String → String → Bool
unfolding same upper_rune
is_word s word = same (map upper_rune (codes s)) (codes word)

abbrev pub accept_transition : String
accept_transition = "accept"

-- The switch on the legacy status.
unfoldable pub status_transition : String → String
status_transition status =
    if is_word status "CONFIRMED"
    then "confirm"
    else if is_word status "REOPENED"
    then "reopen"
    else if is_word status "OPEN"
    then ""
    else if is_word status "RESOLVED" || is_word status "CLOSED"
    then "resolve"
    else if is_word status "ACCEPTED"
    then accept_transition
    else if is_word status "FALSE_POSITIVE"
    then "falsepositive"
    else ""

-- The switch on the legacy resolution.
unfoldable pub resolution_transition : String → String → String
resolution_transition resolution status =
    if is_word resolution "FALSE-POSITIVE"
    then "falsepositive"
    else if is_word resolution "WONTFIX"
    then "wontfix"
    else status_transition status

-- getFallbackTransition
unfoldable pub get_fallback_transition : String → String → String → String
get_fallback_transition issue_status resolution status =
    if is_word issue_status "ACCEPTED"
    then accept_transition
    else if is_word issue_status "FALSE_POSITIVE"
    then "falsepositive"
    else if is_word issue_status "CONFIRMED"
    then "confirm"
    else if is_word issue_status "OPEN" || is_word issue_status "FIXED"
    then ""
    else resolution_transition resolution status

-- resolveTransition: the transition, and whether it was downgraded.
unfoldable pub resolve_transition : TriagedIssue → List String → String × Bool
resolve_transition src cloud_transitions =
    let desired = get_fallback_transition src.issue_status src.resolution src.status in
    if str_eq desired accept_transition
      && (ltb 0 (length cloud_transitions) && not (has accept_transition cloud_transitions))
    then ("", true)
    else (desired, false)

-- The three tests that hasManualChanges and classifyActionableReasons share.
unfoldable pub accepted_or_fp : TriagedIssue → Bool
accepted_or_fp iss =
    (is_word iss.issue_status "ACCEPTED" || is_word iss.issue_status "FALSE_POSITIVE")
    || ((is_word iss.status "ACCEPTED" || is_word iss.status "FALSE_POSITIVE")
        || (is_word iss.resolution "FALSE-POSITIVE" || is_word iss.resolution "WONTFIX"))

-- hasManualChanges
unfoldable pub has_manual_changes : TriagedIssue → Bool
has_manual_changes iss =
    if accepted_or_fp iss
    then true
    else if iss.manual_severity
    then true
    else if ltb 0 (length iss.tags)
    then true
    else ltb 0 (length iss.comments)

-- actionableReasonBreakdown
pub record ActionableReasonBreakdown : Type 0 where
  pub accepted_or_fp_count : ℕ
  pub custom_tags : ℕ
  pub manual_severity : ℕ
  pub comments : ℕ

abbrev pub no_reasons : ActionableReasonBreakdown
no_reasons = record { accepted_or_fp_count = 0; custom_tags = 0; manual_severity = 0; comments = 0 }

abbrev count_if : Bool → ℕ → ℕ
count_if test n = if test then n + 1 else n

-- One turn of the loop of classifyActionableReasons.
unfoldable pub count_reasons : TriagedIssue → ActionableReasonBreakdown → ActionableReasonBreakdown
count_reasons iss b = record {
  accepted_or_fp_count = count_if (accepted_or_fp iss) b.accepted_or_fp_count;
  custom_tags = count_if (ltb 0 (length iss.tags)) b.custom_tags;
  manual_severity = count_if iss.manual_severity b.manual_severity;
  comments = count_if (ltb 0 (length iss.comments)) b.comments;
}

unfoldable pub count_all_reasons :
    List TriagedIssue → ActionableReasonBreakdown → ActionableReasonBreakdown
unfolding count_reasons
count_all_reasons [] b = b
count_all_reasons (iss ∷ actionable) b = count_all_reasons actionable (count_reasons iss b)

-- classifyActionableReasons
unfoldable pub classify_actionable_reasons : List TriagedIssue → ActionableReasonBreakdown
classify_actionable_reasons actionable = count_all_reasons actionable no_reasons

-- tagsToApply
unfoldable pub tags_to_apply : TriagedIssue → List String
tags_to_apply m = if ltb 0 (length m.all_tags) then m.all_tags else m.tags

unfoldable pub trim_left : String → String
unfolding is_space_rune
trim_left String.[] = String.[]
trim_left (String.◌∷◌ c s) =
    let rest = trim_left s in if is_space_rune (code c) then rest else String.◌∷◌ c s

-- A rune is kept if it is no space or one follows it that is none.
unfoldable pub trim_right : String → String
unfolding is_space_rune
trim_right String.[] = String.[]
trim_right (String.◌∷◌ c s) =
    let rest = trim_right s in
    if is_space_rune (code c) && str_eq rest "" then String.[] else String.◌∷◌ c rest

-- strings.TrimSpace
unfoldable pub trim_space : String → String
unfolding trim_left trim_right
trim_space s = trim_right (trim_left s)

abbrev pub metadata_sync_tag : String
metadata_sync_tag = "metadata-synchronized"

-- The closure `add` of mergeIssueTags, after the trimming. What it has seen is what is in `out`.
unfoldable pub add_trimmed : String → List String → List String
unfolding has
add_trimmed t out = if str_eq t "" then out else if has t out then out else out ++ t ∷ []

unfoldable pub add_tags : List String → List String → List String
unfolding trim_space add_trimmed
add_tags [] out = out
add_tags (t ∷ ts) out = add_tags ts (add_trimmed (trim_space t) out)

-- mergeIssueTags
unfoldable pub merge_issue_tags : List String → List String → List String
unfolding add_tags sort
merge_issue_tags source_tags cloud_tags =
    sort (add_tags (metadata_sync_tag ∷ []) (add_tags source_tags (add_tags cloud_tags [])))
