-- ===== src/Hotspots/Examples.antt =====
-- One hotspot on two branches, and the theorem there.
use sonar_migration_tool.Common.{◌≡◌, refl, List, [], ◌∷◌, codes, map}
use sonar_migration_tool.Matching.Defs.{Text, same}
use sonar_migration_tool.Hotspots.Defs.{
  HotspotComment, MatchableHotspot, trim_left, trim_right, word, hotspot_resolution_priority,
  same_group, key_less, insert_by_key, sort_by_key, merge_into, put, put_all,
  dedupe_actionable_hotspots, acknowledged, excluded, classify_hotspot_for_sync,
  hotspot_sync_eligibility, hotspot_has_user_comment,
}
use sonar_migration_tool.Hotspots.Dedupe.{Deduped, dedupe_actionable_hotspots-Deduped}

abbrev comment : HotspotComment
comment = record {
  login = codes "ann";
  html_text = [];
  markdown = codes "checked";
  created_at = [];
}

abbrev hotspot : Text → Text → Text → List HotspotComment → MatchableHotspot
hotspot key status resolution comments = record {
  key = key;
  rule_key = codes "python:S4823";
  component = codes "p:src/a.py";
  line = 3;
  offset = 4;
  status = status;
  resolution = resolution;
  comments = comments;
}

abbrev safe : MatchableHotspot
safe = hotspot (codes "a") (codes "REVIEWED") (codes "SAFE") (comment ∷ [])

abbrev acknowledged_one : MatchableHotspot
acknowledged_one = hotspot (codes "b") (codes "reviewed ") (codes "ACKNOWLEDGED") (comment ∷ [])

abbrev fresh : MatchableHotspot
fresh = hotspot (codes "c") (codes "TO_REVIEW") [] []

dedupe_run :
    dedupe_actionable_hotspots (acknowledged_one ∷ safe ∷ [])
    ≡ hotspot (codes "b") (codes "reviewed ") (codes "ACKNOWLEDGED") (comment ∷ comment ∷ []) ∷ []
unfolding dedupe_actionable_hotspots put_all put merge_into same_group same sort_by_key
    insert_by_key key_less hotspot_resolution_priority word trim_left trim_right
dedupe_run = refl

classify_run :
    map classify_hotspot_for_sync (acknowledged_one ∷ fresh ∷ []) ≡ acknowledged ∷ excluded ∷ []
unfolding classify_hotspot_for_sync hotspot_sync_eligibility hotspot_has_user_comment word trim_left
    trim_right same
classify_run = refl

dedupe_actionable_hotspots-Deduped_example :
    Deduped
      (acknowledged_one ∷ safe ∷ fresh ∷ [])
      (dedupe_actionable_hotspots (acknowledged_one ∷ safe ∷ fresh ∷ []))
dedupe_actionable_hotspots-Deduped_example =
    dedupe_actionable_hotspots-Deduped (acknowledged_one ∷ safe ∷ fresh ∷ [])
