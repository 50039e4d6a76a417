-- ===== src/Triage/Examples.antt =====
-- Issues that were triaged on the server, and their tags.
use sonar_migration_tool.Common.{◌≤◌, ◌≡◌, refl, true, false, [], ◌∷◌}
use sonar_migration_tool.Triage.Defs.{
  TriagedIssue, get_fallback_transition, is_word, merge_issue_tags, accepted_or_fp,
  has_manual_changes, classify_actionable_reasons, tags_to_apply,
}
use sonar_migration_tool.Triage.Reasons.{reasons, Within, classify_actionable_reasons-Within}
use sonar_migration_tool.Triage.Tags.{Union, merge_issue_tags-Union}

abbrev accepted_issue : TriagedIssue
accepted_issue = record {
  status = "RESOLVED";
  resolution = "WONTFIX";
  issue_status = "Accepted";
  tags = "mine" ∷ [];
  all_tags = "bug" ∷ "mine" ∷ [];
  comments = [];
  manual_severity = false;
}

accepted_issue_desired : get_fallback_transition "Accepted" "WONTFIX" "RESOLVED" ≡ "accept"
unfolding get_fallback_transition is_word
accepted_issue_desired = refl

merged_tags :
    merge_issue_tags ("mine " ∷ "bug" ∷ "" ∷ []) ("cwe" ∷ "bug" ∷ [])
    ≡ "bug" ∷ "cwe" ∷ "metadata-synchronized" ∷ "mine" ∷ []
unfolding merge_issue_tags
merged_tags = refl

applied_tags : tags_to_apply accepted_issue ≡ "bug" ∷ "mine" ∷ []
unfolding tags_to_apply
applied_tags = refl

merge_issue_tags-Union_example :
    Union
      ("mine " ∷ "bug" ∷ "" ∷ [])
      ("cwe" ∷ "bug" ∷ [])
      (merge_issue_tags ("mine " ∷ "bug" ∷ "" ∷ []) ("cwe" ∷ "bug" ∷ []))
merge_issue_tags-Union_example =
    merge_issue_tags-Union ("mine " ∷ "bug" ∷ "" ∷ []) ("cwe" ∷ "bug" ∷ [])

abbrev tagged_issue : TriagedIssue
tagged_issue = record accepted_issue {
  status = "OPEN";
  resolution = "";
  issue_status = "OPEN";
  manual_severity = true;
}

accepted_is_manual : has_manual_changes accepted_issue ≡ true
unfolding has_manual_changes accepted_or_fp is_word
accepted_is_manual = refl

tagged_is_manual : has_manual_changes tagged_issue ≡ true
unfolding has_manual_changes accepted_or_fp is_word
tagged_is_manual = refl

classify_actionable_reasons-Within_example :
    (2 ≤ reasons (classify_actionable_reasons (accepted_issue ∷ tagged_issue ∷ [])))
    × Within (classify_actionable_reasons (accepted_issue ∷ tagged_issue ∷ [])) 2
classify_actionable_reasons-Within_example =
    classify_actionable_reasons-Within (accepted_issue ∷ tagged_issue ∷ [])
      (accepted_is_manual, (tagged_is_manual, tt))
