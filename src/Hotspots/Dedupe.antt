-- ===== src/Hotspots/Dedupe.antt =====
-- dedupeActionableHotspots as a whole.

use sonar_migration_tool.Common.{
  ◌+◌, ◌≡◌, refl, inl, inr, false, List, [], ◌∷◌, arith, ltb, Bool-cases, All, length,
}
use sonar_migration_tool.Hotspots.Defs.{
  MatchableHotspot, key_less, insert_by_key, sort_by_key, put, put_all, dedupe_actionable_hotspots,
}
use sonar_migration_tool.Hotspots.Groups.{Represented, Distinct, comment_count}
use sonar_migration_tool.Hotspots.Put.{put-Represented, put-keeps, put-Distinct, put-count}

put_all-keeps :
    (x : MatchableHotspot) (hs gs : List MatchableHotspot)
    → Represented x gs
    → Represented x (put_all hs gs)
unfolding put_all
put_all-keeps x [] gs r = r
put_all-keeps x (h ∷ hs) gs r = put_all-keeps x hs (put h gs) (put-keeps h x gs r)

put_all-Represented : (hs gs : List MatchableHotspot) → All (λ h. Represented h (put_all hs gs)) hs
unfolding put_all
put_all-Represented [] gs = tt
put_all-Represented (h ∷ hs) gs =
    (put_all-keeps h hs (put h gs) (put-Represented h gs), put_all-Represented hs (put h gs))

put_all-Distinct : (hs gs : List MatchableHotspot) → Distinct gs → Distinct (put_all hs gs)
unfolding put_all
put_all-Distinct [] gs d = d
put_all-Distinct (h ∷ hs) gs d = put_all-Distinct hs (put h gs) (put-Distinct h gs d)

put_all-count :
    (hs gs : List MatchableHotspot)
    → comment_count (put_all hs gs) ≡ comment_count hs + comment_count gs
unfolding put_all
put_all-count [] gs = omega arith
put_all-count (h ∷ hs) gs = omega (arith, put_all-count hs (put h gs), put-count h gs)

module _ (P : MatchableHotspot → Type 0) where
  insert-All :
      (h : MatchableHotspot) (gs : List MatchableHotspot)
      → All P (insert_by_key h gs)
      → P h × All P gs
  unfolding insert_by_key
  insert-All h [] (p, ps) = (p, ps)
  insert-All h (g ∷ gs) ps = elim (Bool-cases (key_less g.key h.key)) [
    | inl k ↦
        let (q, qs) = rw (k, insert_by_key) at ps in
        let (p, rest) = insert-All h gs qs in (p, (q, rest))
    | inr k ↦ rw (k, insert_by_key) at ps
  ]

  sort-All : (hs : List MatchableHotspot) → All P (sort_by_key hs) → All P hs
  unfolding sort_by_key
  sort-All [] ps = tt
  sort-All (h ∷ hs) ps = let (p, rest) = insert-All h (sort_by_key hs) ps in (p, sort-All hs rest)

insert-count :
    (h : MatchableHotspot) (gs : List MatchableHotspot)
    → comment_count (insert_by_key h gs) ≡ length h.comments + comment_count gs
unfolding insert_by_key
insert-count h [] = refl
insert-count h (g ∷ gs) = elim (Bool-cases (key_less g.key h.key)) [
  | inl k ↦ rw (k, insert_by_key) (omega (arith, insert-count h gs))
  | inr k ↦ rw (k, insert_by_key) refl
]

sort-count : (hs : List MatchableHotspot) → comment_count (sort_by_key hs) ≡ comment_count hs
unfolding sort_by_key
sort-count [] = refl
sort-count (h ∷ hs) = omega (arith, insert-count h (sort_by_key hs), sort-count hs)

-- The outcome of a deduplication of `hotspots`.
pub record Deduped (hotspots out : List MatchableHotspot) : Type 0 where
  pub one_each : Distinct out
  pub all_represented : All (λ h. Represented h out) hotspots
  pub comments_kept : comment_count out ≡ comment_count hotspots

-- Each group of source hotspots that share component, rule, line and offset comes out as one. It is at
-- least as cautious as every hotspot of the group, so that an acknowledged one is never downgraded, and
-- has the comments of all of them; and no comment is lost or doubled.
pub dedupe_actionable_hotspots-Deduped :
    (hotspots : List MatchableHotspot) → Deduped hotspots (dedupe_actionable_hotspots hotspots)
unfolding dedupe_actionable_hotspots
dedupe_actionable_hotspots-Deduped [] = record {
  one_each = tt;
  all_represented = tt;
  comments_kept = refl;
}
dedupe_actionable_hotspots-Deduped (h ∷ []) = record {
  one_each = (tt, tt);
  all_represented =
      (inl (record { group = refl; cautious = omega arith; comments = λ c i. i }), tt);
  comments_kept = refl;
}
dedupe_actionable_hotspots-Deduped (h ∷ g ∷ hs) =
    let hotspots = h ∷ g ∷ hs in
    let sorted = sort_by_key hotspots in
    let several : ltb (length hotspots) 2 ≡ false = ground arith in
    rw several (record {
      one_each = put_all-Distinct sorted [] tt;
      all_represented =
          sort-All (λ x. Represented x (put_all sorted [])) hotspots
            (put_all-Represented sorted []);
      comments_kept = omega (arith, put_all-count sorted [], sort-count hotspots);
    })
