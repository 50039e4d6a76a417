-- ===== src/Hotspots/Defs.antt =====
-- The classification and the deduplication of hotspots in tasks_hotspotsync.go. Texts are lists of
-- runes.
use sonar_migration_tool.Common.{
  upper_rune, is_space_rune, ℕ, Bool, true, false, not, List, [], ◌∷◌, ◌++◌, map, length, ltb, ◌==◌,
  if◌then◌else◌, ◌&&◌, ◌||◌, codes,
}
use sonar_migration_tool.Matching.Defs.{Text, same}

-- hotspotComment
pub record HotspotComment : Type 0 where
  pub login : Text
  pub html_text : Text
  pub markdown : Text
  pub created_at : Text

-- matchableHotspot, without the fields that play no role here.
pub record MatchableHotspot : Type 0 where
  pub key : Text
  pub rule_key : Text
  pub component : Text
  pub line : ℕ
  pub offset : ℕ
  pub status : Text
  pub resolution : Text
  pub comments : List HotspotComment

unfoldable pub trim_left : Text → Text
unfolding is_space_rune
trim_left [] = []
trim_left (c ∷ s) = let rest = trim_left s in if is_space_rune c then rest else c ∷ s

abbrev blank : Text → Bool
blank [] = true
blank (c ∷ s) = false

-- TrimSpace: a rune is kept if it is no space or one follows it that is none.
unfoldable pub trim_right : Text → Text
unfolding is_space_rune
trim_right [] = []
trim_right (c ∷ s) =
    let rest = trim_right s in if is_space_rune c && blank rest then [] else c ∷ rest

unfoldable pub word : Text → Text
unfolding upper_rune trim_left trim_right
word s = map upper_rune (trim_right (trim_left s))

-- hotspotHasUserComment
unfoldable pub hotspot_has_user_comment : List HotspotComment → Bool
unfolding trim_left trim_right
hotspot_has_user_comment [] = false
hotspot_has_user_comment (c ∷ comments) =
    let rest = hotspot_has_user_comment comments in
    if not (blank (trim_right (trim_left c.login))) then true else rest

-- HotspotSyncEligibility: eligible, acknowledged.
unfoldable pub hotspot_sync_eligibility : Text → Text → Bool → Bool × Bool
unfolding word same
hotspot_sync_eligibility status resolution has_user_comment = (
  not (same (word status) (codes "TO_REVIEW")) || has_user_comment,
  same (word status) (codes "REVIEWED") && same (word resolution) (codes "ACKNOWLEDGED"),
)

-- hotspotSyncCategory
pub data HotspotSyncCategory : Type 0 where
  excluded acknowledged eligible : HotspotSyncCategory

-- classifyHotspotForSync
unfoldable pub classify_hotspot_for_sync : MatchableHotspot → HotspotSyncCategory
unfolding hotspot_sync_eligibility hotspot_has_user_comment
classify_hotspot_for_sync h =
    let (is_eligible, is_acknowledged) =
      hotspot_sync_eligibility h.status h.resolution (hotspot_has_user_comment h.comments) in
    if is_acknowledged then acknowledged else if is_eligible then eligible else excluded

-- hotspotResolutionPriority
unfoldable pub hotspot_resolution_priority : MatchableHotspot → ℕ
unfolding word same
hotspot_resolution_priority h =
    let status = word h.status in
    let resolution = word h.resolution in
    if same status (codes "REVIEWED") && same resolution (codes "ACKNOWLEDGED")
    then 0
    else if same status (codes "TO_REVIEW")
    then 1
    else if same status (codes "REVIEWED") && same resolution (codes "FIXED")
    then 2
    else if same status (codes "REVIEWED") && same resolution (codes "SAFE")
    then 3
    else 4

-- Equality of groupKey.
unfoldable pub same_group : MatchableHotspot → MatchableHotspot → Bool
unfolding same
same_group h g =
    same h.component g.component
    && (same h.rule_key g.rule_key && (h.line == g.line && h.offset == g.offset))

-- The order of keys, and sort.SliceStable by it.
unfoldable pub key_less : Text → Text → Bool
key_less xs [] = false
key_less [] (y ∷ ys) = true
key_less (x ∷ xs) (y ∷ ys) = if ltb x y then true else if ltb y x then false else key_less xs ys

unfoldable pub insert_by_key : MatchableHotspot → List MatchableHotspot → List MatchableHotspot
unfolding key_less
insert_by_key h [] = h ∷ []
insert_by_key h (g ∷ gs) =
    let rest = insert_by_key h gs in if key_less g.key h.key then g ∷ rest else h ∷ g ∷ gs

unfoldable pub sort_by_key : List MatchableHotspot → List MatchableHotspot
unfolding insert_by_key
sort_by_key [] = []
sort_by_key (h ∷ hs) = insert_by_key h (sort_by_key hs)

-- A record that meets the representative of its group.
unfoldable pub merge_into : MatchableHotspot → MatchableHotspot → MatchableHotspot
unfolding hotspot_resolution_priority
merge_into h rep =
    if ltb (hotspot_resolution_priority h) (hotspot_resolution_priority rep)
    then record h { comments = h.comments ++ rep.comments }
    else record rep { comments = rep.comments ++ h.comments }

-- The representatives, in the order of the groups: the map and the list `order` in one.
unfoldable pub put : MatchableHotspot → List MatchableHotspot → List MatchableHotspot
unfolding same_group merge_into
put h [] = h ∷ []
put h (g ∷ gs) = let rest = put h gs in if same_group h g then merge_into h g ∷ gs else g ∷ rest

unfoldable pub put_all : List MatchableHotspot → List MatchableHotspot → List MatchableHotspot
unfolding put
put_all [] groups = groups
put_all (h ∷ hs) groups = put_all hs (put h groups)

-- dedupeActionableHotspots
unfoldable pub dedupe_actionable_hotspots : List MatchableHotspot → List MatchableHotspot
unfolding put_all sort_by_key
dedupe_actionable_hotspots hotspots =
    if ltb (length hotspots) 2 then hotspots else put_all (sort_by_key hotspots) []
