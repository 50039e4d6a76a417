-- ===== src/Hotspots/Put.antt =====
-- dedupeActionableHotspots: a record meets the representatives.
use mathlib.Core.Path.{subst}
use sonar_migration_tool.Common.{
  ℕ, ◌+◌, ◌≤◌, ◌≡◌, refl, sym, ◌∙◌, inl, inr, false, List, [], ◌∷◌, ◌++◌, arith, ltb, ltb→lt,
  Bool-cases, length, length-append,
}
use sonar_migration_tool.Matching.Defs.{Text}
use sonar_migration_tool.Hotspots.Defs.{
  HotspotComment, MatchableHotspot, hotspot_resolution_priority, same_group, merge_into, put,
}
use sonar_migration_tool.Hotspots.Groups.{
  group_key, same_group→eq, same_group_of-eq, true_not_false, In-append_left, In-append_right,
  SpeaksFor, Represented, Absent, Distinct, comment_count,
}

priority_less : (a b : ℕ) → ltb a b ≡ false → b ≤ a
priority_less a b e = ground arith

merge_into-group :
    (h g : MatchableHotspot) → group_key h ≡ group_key g → group_key (merge_into h g) ≡ group_key g
unfolding merge_into
merge_into-group h g e =
    elim (Bool-cases (ltb (hotspot_resolution_priority h) (hotspot_resolution_priority g))) [
      | inl k ↦ rw (k, merge_into) e
      | inr k ↦ rw (k, merge_into) refl
    ]

priority-comments :
    (h : MatchableHotspot) (cs : List HotspotComment)
    → hotspot_resolution_priority (record h { comments = cs }) ≡ hotspot_resolution_priority h
unfolding hotspot_resolution_priority
priority-comments h cs = refl

merge_into-SpeaksFor :
    (h g : MatchableHotspot) → group_key h ≡ group_key g → SpeaksFor (merge_into h g) h
unfolding merge_into
merge_into-SpeaksFor h g e =
    elim (Bool-cases (ltb (hotspot_resolution_priority h) (hotspot_resolution_priority g))) [
      | inl k ↦
          rw (k, merge_into)
            (record {
              group = refl;
              cautious = omega (arith, priority-comments h (h.comments ++ g.comments));
              comments = λ c i. In-append_left c h.comments g.comments i;
            })
      | inr k ↦
          rw (k, merge_into)
            (record {
              group = e;
              cautious = omega (
                arith,
                priority-comments g (g.comments ++ h.comments),
                priority_less (hotspot_resolution_priority h) (hotspot_resolution_priority g) k,
              );
              comments = λ c i. In-append_right c g.comments h.comments i;
            })
    ]

merge_into-keeps :
    (h g x : MatchableHotspot)
    → group_key h ≡ group_key g
    → SpeaksFor g x
    → SpeaksFor (merge_into h g) x
unfolding merge_into
merge_into-keeps h g x e s =
    elim (Bool-cases (ltb (hotspot_resolution_priority h) (hotspot_resolution_priority g))) [
      | inl k ↦
          rw (k, merge_into)
            (record {
              group = s.group ∙ sym e;
              cautious = omega (
                arith,
                priority-comments h (h.comments ++ g.comments),
                s.cautious,
                ltb→lt (hotspot_resolution_priority h) (hotspot_resolution_priority g) k,
              );
              comments = λ c i. In-append_right c h.comments g.comments (s.comments c i);
            })
      | inr k ↦
          rw (k, merge_into)
            (record {
              group = s.group;
              cautious = omega (arith, priority-comments g (g.comments ++ h.comments), s.cautious);
              comments = λ c i. In-append_left c g.comments h.comments (s.comments c i);
            })
    ]

merge_into-count :
    (h g : MatchableHotspot)
    → length (merge_into h g).comments ≡ length h.comments + length g.comments
unfolding merge_into
merge_into-count h g =
    elim (Bool-cases (ltb (hotspot_resolution_priority h) (hotspot_resolution_priority g))) [
      | inl k ↦ rw (k, merge_into) (length-append h.comments g.comments)
      | inr k ↦ rw (k, merge_into) (omega (arith, length-append g.comments h.comments))
    ]

pub put-Represented : (h : MatchableHotspot) (gs : List MatchableHotspot) → Represented h (put h gs)
unfolding put
put-Represented h [] = inl (record { group = refl; cautious = omega arith; comments = λ c i. i })
put-Represented h (g ∷ gs) = elim (Bool-cases (same_group h g)) [
  | inl k ↦ rw (k, put) (inl (merge_into-SpeaksFor h g (same_group→eq h g k)))
  | inr k ↦ rw (k, put) (inr (put-Represented h gs))
]

pub put-keeps :
    (h x : MatchableHotspot) (gs : List MatchableHotspot)
    → Represented x gs
    → Represented x (put h gs)
unfolding put
put-keeps h x [] r = absurd r
put-keeps h x (g ∷ gs) r = elim (Bool-cases (same_group h g)) [
  | inl k ↦
      rw (k, put)
        (elim r [
          | inl s ↦ inl (merge_into-keeps h g x (same_group→eq h g k) s)
          | inr later ↦ inr later
        ])
  | inr k ↦ rw (k, put) (elim r [ inl s ↦ inl s | inr later ↦ inr (put-keeps h x gs later) ])
]

put-Absent :
    (h : MatchableHotspot) (k : Text × Text × ℕ × ℕ) (gs : List MatchableHotspot)
    → (group_key h ≡ k → ⊥)
    → Absent k gs
    → Absent k (put h gs)
unfolding put
put-Absent h k [] n a = (n, tt)
put-Absent h k (g ∷ gs) n (m, a) = elim (Bool-cases (same_group h g)) [
  | inl s ↦ rw (s, put) (λ e. m (sym (merge_into-group h g (same_group→eq h g s)) ∙ e), a)
  | inr s ↦ rw (s, put) (m, put-Absent h k gs n a)
]

pub put-Distinct :
    (h : MatchableHotspot) (gs : List MatchableHotspot) → Distinct gs → Distinct (put h gs)
unfolding put
put-Distinct h [] d = (tt, tt)
put-Distinct h (g ∷ gs) (a, d) = elim (Bool-cases (same_group h g)) [
  | inl s ↦
      rw (s, put) (subst (λ k. Absent k gs) (sym (merge_into-group h g (same_group→eq h g s))) a, d)
  | inr s ↦
      rw (s, put)
        (
          put-Absent h (group_key g) gs (λ e. true_not_false (sym (same_group_of-eq h g e) ∙ s)) a,
          put-Distinct h gs d,
        )
]

pub put-count :
    (h : MatchableHotspot) (gs : List MatchableHotspot)
    → comment_count (put h gs) ≡ length h.comments + comment_count gs
unfolding put
put-count h [] = refl
put-count h (g ∷ gs) = elim (Bool-cases (same_group h g)) [
  | inl s ↦ rw (s, put) (omega (arith, merge_into-count h g))
  | inr s ↦ rw (s, put) (omega (arith, put-count h gs))
]
