-- ===== src/Truncation/Again.antt =====
-- Merging the same records again, which a resumed run does (common/truncation.go).
use mathlib.Core.Path.{subst}
use sonar_migration_tool.Common.{
  ℕ, ◌≤◌, ◌≡◌, refl, sym, ap, ◌∙◌, false, Option, none, some, List, [], ◌∷◌, ◌++◌, arith, eq_iff,
  ltb, Bool-cases, inl, inr, str_eq, str_eq_refl, has, NoDup, All, append_nil,
}
use sonar_migration_tool.Truncation.Defs.{
  ScopedRecord, identity, sum_lost_of, merge_record, merge_records, TruncationState,
  merge_truncation_states,
}
use sonar_migration_tool.Truncation.Merge.{
  identities, more, largest_loss, stated_loss, own_loss, has-merge_record, merge_records-once,
  stated-merge_records,
}

-- A loss of at least so much.
abbrev AtLeast : ℕ → Option ℕ → Type 0
AtLeast v none = ⊥
AtLeast v (some n) = v ≤ n

more-AtLeast_left : (v : ℕ) (a b : Option ℕ) → AtLeast v a → AtLeast v (more a b)
more-AtLeast_left v none b h = absurd h
more-AtLeast_left v (some m) none h = h
more-AtLeast_left v (some m) (some n) h = ground (arith, h)

more-AtLeast_right : (v : ℕ) (a b : Option ℕ) → AtLeast v b → AtLeast v (more a b)
more-AtLeast_right v none b h = h
more-AtLeast_right v (some m) none h = absurd h
more-AtLeast_right v (some m) (some n) h = ground (arith, h)

-- The loss of a record is observed.
abbrev Observed : List ScopedRecord → ScopedRecord → Type 0
Observed given rec = AtLeast rec.lost (largest_loss (identity rec) given)

later_losses :
    (r : ScopedRecord) (given recs : List ScopedRecord)
    → All (Observed given) recs
    → All (Observed (r ∷ given)) recs
unfolding largest_loss
later_losses r given [] a = tt
later_losses r given (rec ∷ recs) (o, a) = (
  more-AtLeast_right rec.lost (own_loss (identity rec) r) (largest_loss (identity rec) given) o,
  later_losses r given recs a,
)

own_losses : (recs : List ScopedRecord) → All (Observed recs) recs
unfolding largest_loss
own_losses [] = tt
own_losses (rec ∷ recs) = (
  rw (str_eq_refl (identity rec))
      (more-AtLeast_left rec.lost (some rec.lost) (largest_loss (identity rec) recs) (omega arith)),
  later_losses rec recs recs (own_losses recs),
)

losses_after : (base recs : List ScopedRecord) → All (Observed (base ++ recs)) recs
losses_after [] recs = own_losses recs
losses_after (r ∷ base) recs = later_losses r (base ++ recs) recs (losses_after base recs)

-- A record whose loss is stated already changes nothing.
merge_record-stated :
    (l : List ScopedRecord) (rec : ScopedRecord)
    → AtLeast rec.lost (stated_loss (identity rec) l)
    → merge_record l rec ≡ l
unfolding merge_record stated_loss
merge_record-stated [] rec h = absurd h
merge_record-stated (r ∷ l) rec h = elim (Bool-cases (str_eq (identity r) (identity rec))) [
  | inl e ↦
      let h' : rec.lost ≤ r.lost = rw e at h in
      let fine : ltb r.lost rec.lost ≡ false = ground (arith, h') in rw (e, fine) refl
  | inr e ↦ rw e (ap (λ k. r ∷ k) (merge_record-stated l rec (rw e at h)))
]

merge_records-stated :
    (l recs : List ScopedRecord)
    → All (λ rec. AtLeast rec.lost (stated_loss (identity rec) l)) recs
    → merge_records l recs ≡ l
unfolding merge_records
merge_records-stated l [] a = refl
merge_records-stated l (rec ∷ recs) (h, a) =
    ap (λ k. merge_records k recs) (merge_record-stated l rec h) ∙ merge_records-stated l recs a

merge_records-append :
    (l xs ys : List ScopedRecord)
    → merge_records l (xs ++ ys) ≡ merge_records (merge_records l xs) ys
unfolding merge_records
merge_records-append l [] ys = refl
merge_records-append l (x ∷ xs) ys = merge_records-append (merge_record l x) xs ys

merge_record-new :
    (l : List ScopedRecord) (rec : ScopedRecord)
    → has (identity rec) (identities l) ≡ false
    → merge_record l rec ≡ l ++ (rec ∷ [])
unfolding merge_record has
merge_record-new [] rec h = refl
merge_record-new (r ∷ l) rec h =
    let apart : str_eq (identity r) (identity rec) ≡ false = ground (arith, h) in
    rw apart (ap (λ k. r ∷ k) (merge_record-new l rec (ground (arith, h))))

append_one :
    (l : List ScopedRecord) (x : ScopedRecord) (m : List ScopedRecord)
    → (l ++ (x ∷ [])) ++ m ≡ l ++ (x ∷ m)
append_one [] x m = refl
append_one (r ∷ l) x m = ap (λ k. r ∷ k) (append_one l x m)

-- Records whose identities are not in a list.
abbrev Outside : List ScopedRecord → List ScopedRecord → Type 0
Outside l m = All (λ y. has (identity y) (identities l) ≡ false) m

apart_more :
    (l : List ScopedRecord) (x : ScopedRecord) (m : List ScopedRecord)
    → has (identity x) (identities m) ≡ false
    → Outside l m
    → Outside (merge_record l x) m
unfolding has
apart_more l x [] h a = tt
apart_more l x (y ∷ m) h (o, a) = (
  rw (has-merge_record (identity y) l x)
      (ground (arith, h, o, eq_iff (identity x) (identity y), eq_iff (identity y) (identity x))),
  apart_more l x m (ground (arith, h)) a,
)

merge_records-new :
    (l m : List ScopedRecord) → Outside l m → NoDup (identities m) → merge_records l m ≡ l ++ m
unfolding merge_records
merge_records-new l [] a n = sym (append_nil l)
merge_records-new l (x ∷ m) (o, a) (h, n) =
    merge_records-new (merge_record l x) m (apart_more l x m h a) n
    ∙ ap (λ k. k ++ m) (merge_record-new l x o)
    ∙ append_one l x m

apart_nil : (m : List ScopedRecord) → Outside [] m
unfolding has
apart_nil [] = tt
apart_nil (y ∷ m) = (refl, apart_nil m)

stated_losses :
    (given recs : List ScopedRecord)
    → All (Observed given) recs
    → All (λ rec. AtLeast rec.lost (stated_loss (identity rec) (merge_records [] given))) recs
unfolding stated_loss
stated_losses given [] a = tt
stated_losses given (rec ∷ recs) (o, a) = (
  subst (AtLeast rec.lost) (sym (stated-merge_records (identity rec) [] given)) o,
  stated_losses given recs a,
)

records_again :
    (base recs : List ScopedRecord)
    → let m = merge_records [] (base ++ recs) in merge_records [] (m ++ recs) ≡ m
records_again base recs =
    let m = merge_records [] (base ++ recs) in
    merge_records-append [] m recs
    ∙ ap (λ k. merge_records k recs)
        (merge_records-new [] m (apart_nil m) (merge_records-once [] (base ++ recs) tt))
    ∙ merge_records-stated m recs (stated_losses (base ++ recs) recs (losses_after base recs))

-- Merging a state in again, as a resumed run does that observes the same truncations, changes neither
-- the records nor the total.
pub merge_truncation_states_idempotent :
    (base incoming : TruncationState)
    → let merged = merge_truncation_states base incoming in
      let again = merge_truncation_states merged incoming in
      (again.records ≡ merged.records) × (again.total_lost ≡ merged.total_lost)
unfolding merge_truncation_states
merge_truncation_states_idempotent base incoming =
    let same = records_again base.records incoming.records in (same, ap sum_lost_of same)
