-- ===== src/Hotspots/Groups.antt =====
-- The groups of hotspots that dedupeActionableHotspots makes.

use sonar_migration_tool.Common.{
  ℕ, ◌+◌, ◌≤◌, ◌≡◌, refl, ap, ◌∙◌, ◌⊎◌, inl, inr, Bool, true, false, List, [], ◌∷◌, ◌++◌, ◌==◌,
  ==_iff, ◌&&◌, Bool-cases, All, length,
}
use sonar_migration_tool.Matching.Defs.{Text, same}
use sonar_migration_tool.Hotspots.Defs.{
  HotspotComment, MatchableHotspot, hotspot_resolution_priority, same_group,
}

-- groupKey
abbrev pub group_key : MatchableHotspot → Text × Text × ℕ × ℕ
group_key h = (h.component, h.rule_key, h.line, h.offset)

pub same→eq : (a b : Text) → same a b ≡ true → a ≡ b
unfolding same
same→eq [] [] e = refl
same→eq [] (y ∷ b) e = absurd (cc)
same→eq (x ∷ a) [] e = absurd (cc)
same→eq (x ∷ a) (y ∷ b) e = elim (Bool-cases (x == y)) [
  | inr k ↦ absurd (let e' = rw k at e in cc)
  | inl k ↦
      let head : x ≡ y = (==_iff x y).0 k in
      ap (λ z. z ∷ a) head ∙ ap (λ s. y ∷ s) (same→eq a b (rw k at e))
]

same_refl : (a : Text) → same a a ≡ true
unfolding same
same_refl [] = refl
same_refl (x ∷ a) = rw ((==_iff x x).1 refl) (same_refl a)

and-true : (a b : Bool) → (a && b) ≡ true → (a ≡ true) × (b ≡ true)
and-true true b e = (refl, e)
and-true false b e = absurd (cc)

pub true_not_false : true ≡ false → ⊥
true_not_false e = cc

four_equal :
    (a b c d : Text) (m n o p : ℕ)
    → (same a b && (same c d && (m == n && o == p))) ≡ true
    → ◌≡◌ {A = Text × Text × ℕ × ℕ} (a, c, m, o) (b, d, n, p)
four_equal a b c d m n o p e =
    let (e1, e') = and-true (same a b) (same c d && (m == n && o == p)) e in
    let (e2, e'') = and-true (same c d) (m == n && o == p) e' in
    let (e3, e4) = and-true (m == n) (o == p) e'' in
    ap (λ z. (z, c, m, o)) (same→eq a b e1)
    ∙ ap (λ z. (b, z, m, o)) (same→eq c d e2)
    ∙ ap (λ z. (b, d, z, o)) ((==_iff m n).0 e3)
    ∙ ap (λ z. (b, d, n, z)) ((==_iff o p).0 e4)

equal_four :
    (a b c d : Text) (m n o p : ℕ)
    → a ≡ b
    → c ≡ d
    → m ≡ n
    → o ≡ p
    → (same a b && (same c d && (m == n && o == p))) ≡ true
equal_four a b c d m n o p e1 e2 e3 e4 =
    rw (e1, e2, e3, e4, same_refl b, same_refl d, (==_iff n n).1 refl, (==_iff p p).1 refl) refl

pub same_group→eq : (h g : MatchableHotspot) → same_group h g ≡ true → group_key h ≡ group_key g
unfolding same_group
same_group→eq h g e =
    four_equal h.component g.component h.rule_key g.rule_key h.line g.line h.offset g.offset e

pub same_group_of-eq : (h g : MatchableHotspot) → group_key h ≡ group_key g → same_group h g ≡ true
unfolding same_group
same_group_of-eq h g e =
    equal_four h.component g.component h.rule_key g.rule_key h.line g.line h.offset g.offset
      (ap (λ k. k.0) e) (ap (λ k. k.1) e) (ap (λ k. k.2) e) (ap (λ k. k.3) e)

-- A comment is in a list, and one list is in another.
abbrev pub In : HotspotComment → List HotspotComment → Type 0
In c [] = ⊥
In c (d ∷ ds) = (c ≡ d) ⊎ In c ds

pub In-append_left : (c : HotspotComment) (xs ys : List HotspotComment) → In c xs → In c (xs ++ ys)
In-append_left c [] ys i = absurd i
In-append_left c (x ∷ xs) ys (inl e) = inl e
In-append_left c (x ∷ xs) ys (inr i) = inr (In-append_left c xs ys i)

pub In-append_right : (c : HotspotComment) (xs ys : List HotspotComment) → In c ys → In c (xs ++ ys)
In-append_right c [] ys i = i
In-append_right c (x ∷ xs) ys i = inr (In-append_right c xs ys i)

-- A representative speaks for a record: it is of its group, it is at least as cautious, and it has
-- all its comments.
pub record SpeaksFor (g h : MatchableHotspot) : Type 0 where
  pub group : group_key h ≡ group_key g
  pub cautious : hotspot_resolution_priority g ≤ hotspot_resolution_priority h
  pub comments : (c : HotspotComment) → In c h.comments → In c g.comments

abbrev pub Represented : MatchableHotspot → List MatchableHotspot → Type 0
Represented h [] = ⊥
Represented h (g ∷ gs) = SpeaksFor g h ⊎ Represented h gs

abbrev pub Absent : Text × Text × ℕ × ℕ → List MatchableHotspot → Type 0
Absent k gs = All (λ g. group_key g ≡ k → ⊥) gs

abbrev pub Distinct : List MatchableHotspot → Type 0
Distinct [] = Unit
Distinct (g ∷ gs) = Absent (group_key g) gs × Distinct gs

abbrev pub comment_count : List MatchableHotspot → ℕ
comment_count [] = 0
comment_count (g ∷ gs) = length g.comments + comment_count gs
