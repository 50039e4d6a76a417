-- ===== src/Triage/Reasons.antt =====
-- classifyActionableReasons: what its counts add up to.
use sonar_migration_tool.Common.{ℕ, ◌+◌, ◌≤◌, ◌≡◌, true, List, [], ◌∷◌, length, All, arith}
use sonar_migration_tool.Triage.Defs.{
  TriagedIssue, has_manual_changes, ActionableReasonBreakdown, count_reasons, no_reasons,
  count_all_reasons, classify_actionable_reasons,
}

-- The sum of the four counts.
abbrev pub reasons : ActionableReasonBreakdown → ℕ
reasons b = (b.accepted_or_fp_count + b.custom_tags) + (b.manual_severity + b.comments)

-- Each count within a bound.
abbrev pub Within : ActionableReasonBreakdown → ℕ → Type 0
Within b n =
    (b.accepted_or_fp_count ≤ n) × (b.custom_tags ≤ n) × (b.manual_severity ≤ n) × (b.comments ≤ n)

count_reasons-reasons :
    (iss : TriagedIssue) (b : ActionableReasonBreakdown)
    → has_manual_changes iss ≡ true
    → 1 + reasons b ≤ reasons (count_reasons iss b)
unfolding count_reasons has_manual_changes
count_reasons-reasons iss b h = ground (arith, h)

count_reasons-Within :
    (iss : TriagedIssue) (b : ActionableReasonBreakdown) (n : ℕ)
    → Within b n
    → Within (count_reasons iss b) (1 + n)
unfolding count_reasons
count_reasons-Within iss b n (h, i, j, k) =
    (ground (arith, h), ground (arith, i), ground (arith, j), ground (arith, k))

count_all_reasons-reasons :
    (actionable : List TriagedIssue) (b : ActionableReasonBreakdown)
    → All (λ iss. has_manual_changes iss ≡ true) actionable
    → length actionable + reasons b ≤ reasons (count_all_reasons actionable b)
unfolding count_all_reasons
count_all_reasons-reasons [] b all = omega arith
count_all_reasons-reasons (iss ∷ actionable) b (h, all) = omega (
  arith,
  count_all_reasons-reasons actionable (count_reasons iss b) all,
  count_reasons-reasons iss b h,
)

Within-shift : (b : ActionableReasonBreakdown) (n m : ℕ) → n ≤ m → Within b n → Within b m
Within-shift b n m l (h, i, j, k) = (omega arith, omega arith, omega arith, omega arith)

count_all_reasons-Within :
    (actionable : List TriagedIssue) (b : ActionableReasonBreakdown) (n : ℕ)
    → Within b n
    → Within (count_all_reasons actionable b) (length actionable + n)
unfolding count_all_reasons
count_all_reasons-Within [] b n w = Within-shift b n (0 + n) (omega arith) w
count_all_reasons-Within (iss ∷ actionable) b n w =
    Within-shift _ (length actionable + (1 + n)) _ (omega arith) (
      count_all_reasons-Within actionable (count_reasons iss b) (1 + n)
        (count_reasons-Within iss b n w))

-- Where every issue is one that hasManualChanges lets through, the four counts of
-- classifyActionableReasons add up to at least the number of issues, and each count is at most that.
pub classify_actionable_reasons-Within :
    (actionable : List TriagedIssue)
    → All (λ iss. has_manual_changes iss ≡ true) actionable
    → (length actionable ≤ reasons (classify_actionable_reasons actionable))
      × Within (classify_actionable_reasons actionable) (length actionable)
unfolding classify_actionable_reasons
classify_actionable_reasons-Within actionable all = (
  omega (arith, count_all_reasons-reasons actionable no_reasons all),
  Within-shift _ (length actionable + 0) _ (omega arith) (
      count_all_reasons-Within actionable no_reasons 0
        (omega arith, omega arith, omega arith, omega arith)),
)
