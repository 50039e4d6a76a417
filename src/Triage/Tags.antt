-- ===== src/Triage/Tags.antt =====
-- mergeIssueTags: what the written list of tags holds, and its order.
use text.Mathlib.Text.{is_le}
use Prim.Native.Nat.{Ordering, compare as compare_ℕ}
use Prim.Native.Char.{code}
use Prim.Native.String.compare
use Prim.Native.String.{compare, then}
use sonar_migration_tool.Common.{
  ℕ, String, ◌≡◌, refl, ap, Bool, true, false, not, ◌&&◌, ◌||◌, List, [], ◌∷◌, ◌++◌, arith, str_eq,
  eq_iff, has, has-append, NoDup, Bool-cases, inl, inr,
}
use sonar_migration_tool.Planner.Defs.{insert_sorted, sort}
use sonar_migration_tool.Planner.Ready.{has-sort, sort-NoDup}
use sonar_migration_tool.Triage.Defs.{
  trim_space, metadata_sync_tag, add_trimmed, add_tags, merge_issue_tags,
}

-- A tag is one of a list, once the list's tags are trimmed; the blank ones do not count.
unfoldable pub named : String → List String → Bool
named s [] = false
named s (t ∷ ts) = (str_eq (trim_space t) s && not (str_eq s "")) || named s ts

has-add_trimmed :
    (s t : String) (out : List String)
    → has s (add_trimmed t out) ≡ (has s out || (str_eq t s && not (str_eq s "")))
unfolding add_trimmed has
has-add_trimmed s t out =
    ground (arith, has-append s out (t ∷ []), eq_iff t s, eq_iff s "", eq_iff t "")

has-add_tags :
    (s : String) (ts out : List String) → has s (add_tags ts out) ≡ (has s out || named s ts)
unfolding add_tags named
has-add_tags s [] out = ground arith
has-add_tags s (t ∷ ts) out = ground (
  arith,
  has-add_tags s ts (add_trimmed (trim_space t) out),
  has-add_trimmed s (trim_space t) out,
)

snoc-NoDup :
    (t : String) (out : List String) → has t out ≡ false → NoDup out → NoDup (out ++ t ∷ [])
unfolding has
snoc-NoDup t [] h n = (refl, tt)
snoc-NoDup t (x ∷ out) h (fresh, n) = (
  ground (arith, has-append x out (t ∷ []), eq_iff t x, eq_iff x t),
  snoc-NoDup t out (ground arith) n,
)

add_trimmed-NoDup : (t : String) (out : List String) → NoDup out → NoDup (add_trimmed t out)
unfolding add_trimmed
add_trimmed-NoDup t out n = elim (Bool-cases (str_eq t "")) [
  | inl blank ↦ rw blank n
  | inr word ↦ elim (Bool-cases (has t out)) [
    | inl dup ↦ rw (word, dup) n
    | inr fresh ↦ rw (word, fresh) (snoc-NoDup t out fresh n)
  ]
]

add_tags-NoDup : (ts out : List String) → NoDup out → NoDup (add_tags ts out)
unfolding add_tags
add_tags-NoDup [] out n = n
add_tags-NoDup (t ∷ ts) out n =
    add_tags-NoDup ts (add_trimmed (trim_space t) out) (add_trimmed-NoDup (trim_space t) out n)

-- In the order of slices.Sort.
abbrev pub Ascending : List String → Type 0
Ascending [] = Unit
Ascending (x ∷ []) = Unit
Ascending (x ∷ y ∷ ys) = (is_le (compare x y) ≡ true) × Ascending (y ∷ ys)

later :
    (a b : ℕ) (o p : Ordering)
    → (is_le o ≡ false → is_le p ≡ true)
    → is_le (then (compare_ℕ a b) o) ≡ false
    → is_le (then (compare_ℕ b a) p) ≡ true
later a b o p f h = ground arith

compare-total : (x y : String) → is_le (compare x y) ≡ false → is_le (compare y x) ≡ true
compare-total String.[] String.[] h = ap is_le compare.nil-nil
compare-total String.[] (String.◌∷◌ d t) h = absurd (cc (h, compare.nil-cons d t))
compare-total (String.◌∷◌ c s) String.[] h = ap is_le (compare.nil-cons c s)
compare-total (String.◌∷◌ c s) (String.◌∷◌ d t) h = rw (compare.cons-cons d c t s) (
    later (code c) (code d) (compare s t) (compare t s) (compare-total s t)
      (rw (compare.cons-cons c d s t) at h))

-- The head of what insertion leaves, at or after a bound.
insert_sorted-above :
    (b x : String) (ys : List String)
    → is_le (compare b x) ≡ true
    → Ascending (b ∷ ys)
    → Ascending (b ∷ insert_sorted x ys)
unfolding insert_sorted
insert_sorted-above b x [] h a = (h, tt)
insert_sorted-above b x (y ∷ ys) h (k, a) = elim (Bool-cases (is_le (compare x y))) [
  | inl le ↦ rw le (h, (le, a))
  | inr gt ↦ rw gt (k, insert_sorted-above y x ys (compare-total x y gt) a)
]

insert_sorted-Ascending :
    (x : String) (ys : List String) → Ascending ys → Ascending (insert_sorted x ys)
unfolding insert_sorted
insert_sorted-Ascending x [] a = tt
insert_sorted-Ascending x (y ∷ ys) a = elim (Bool-cases (is_le (compare x y))) [
  | inl le ↦ rw le (le, a)
  | inr gt ↦ rw gt (insert_sorted-above y x ys (compare-total x y gt) a)
]

sort-Ascending : (xs : List String) → Ascending (sort xs)
unfolding sort
sort-Ascending [] = tt
sort-Ascending (x ∷ xs) = insert_sorted-Ascending x (sort xs) (sort-Ascending xs)

named-marker : (s : String) → named s (metadata_sync_tag ∷ []) ≡ str_eq metadata_sync_tag s
unfolding named trim_space
named-marker s =
    let trimmed : trim_space metadata_sync_tag ≡ metadata_sync_tag = refl in
    let word : str_eq metadata_sync_tag "" ≡ false = refl in
    ground
      (arith, trimmed, word, eq_iff metadata_sync_tag s, eq_iff metadata_sync_tag "", eq_iff s "")

has-nil : (s : String) → has s [] ≡ false
unfolding has
has-nil s = refl

-- A list of tags that is the union of two and the marker, each once and in order.
abbrev pub Union : List String → List String → List String → Type 0
Union source cloud out =
    ((s : String) → has s out ≡ ((named s cloud || named s source) || str_eq metadata_sync_tag s))
    × NoDup out
    × Ascending out

-- mergeIssueTags writes exactly the trimmed tags of both issues that are not blank, and the marker,
-- each of them once, in ascending order: no tag of the cloud issue is lost.
pub merge_issue_tags-Union :
    (source cloud : List String) → Union source cloud (merge_issue_tags source cloud)
unfolding merge_issue_tags
merge_issue_tags-Union source cloud =
    let marker = metadata_sync_tag ∷ [] in
    let both = add_tags source (add_tags cloud []) in
    (
      λ s. rw has-sort (
          ground (
            arith,
            has-add_tags s marker both,
            has-add_tags s source (add_tags cloud []),
            has-add_tags s cloud [],
            named-marker s,
            has-nil s,
          )),
      sort-NoDup _ (
          add_tags-NoDup marker both
            (add_tags-NoDup source (add_tags cloud []) (add_tags-NoDup cloud [] tt))),
      sort-Ascending (add_tags marker both),
    )
