-- ===== src/Truncation/Merge.antt =====
-- What MergeTruncationStates of common/truncation.go makes of the records.
use sonar_migration_tool.Common.{
  ℕ, ◌≡◌, refl, ap, ◌∙◌, true, false, Option, none, some, String, List, [], ◌∷◌, ◌++◌, arith,
  eq_iff, ltb, ◌||◌, if◌then◌else◌, Bool-cases, inl, inr, str_eq, has, NoDup, All, map,
}
use sonar_migration_tool.Truncation.Defs.{
  ScopedRecord, identity, sum_lost_of, merge_record, merge_records, TruncationState,
  merge_truncation_states,
}

abbrev pub identities : List ScopedRecord → List String
identities rs = map identity rs

-- The larger of two losses, if there are any.
abbrev pub more : Option ℕ → Option ℕ → Option ℕ
more none b = b
more (some m) none = some m
more (some m) (some n) = some (if ltb m n then n else m)

more_assoc : (a b c : Option ℕ) → more (more a b) c ≡ more a (more b c)
more_assoc none b c = refl
more_assoc (some a) none c = refl
more_assoc (some a) (some b) none = refl
more_assoc (some a) (some b) (some c) = ap some (ground arith)

more_none : (a : Option ℕ) → a ≡ more a none
more_none none = refl
more_none (some a) = refl

abbrev pub own_loss : String → ScopedRecord → Option ℕ
own_loss id r = if str_eq (identity r) id then some r.lost else none

-- The largest loss that is observed under an identity.
unfoldable pub largest_loss : String → List ScopedRecord → Option ℕ
largest_loss id [] = none
largest_loss id (r ∷ rs) = more (own_loss id r) (largest_loss id rs)

-- The loss that the record with an identity states.
unfoldable pub stated_loss : String → List ScopedRecord → Option ℕ
stated_loss id [] = none
stated_loss id (r ∷ rs) =
    let rest = stated_loss id rs in if str_eq (identity r) id then some r.lost else rest

pub has-merge_record :
    (id : String) (l : List ScopedRecord) (rec : ScopedRecord)
    → has id (identities (merge_record l rec)) ≡ (has id (identities l) || str_eq (identity rec) id)
unfolding merge_record has
has-merge_record id [] rec = ground arith
has-merge_record id (r ∷ l) rec = elim (Bool-cases (str_eq (identity r) (identity rec))) [
  | inl e ↦ elim (Bool-cases (ltb r.lost rec.lost)) [
    | inl worse ↦ rw (e, worse) (ground (arith, (eq_iff (identity r) (identity rec)).0 e))
    | inr fine ↦ rw (e, fine) (ground (arith, (eq_iff (identity r) (identity rec)).0 e))
  ]
  | inr e ↦ rw e (ground (arith, has-merge_record id l rec))
]

merge_record-once :
    (l : List ScopedRecord) (rec : ScopedRecord)
    → NoDup (identities l)
    → NoDup (identities (merge_record l rec))
unfolding merge_record has
merge_record-once [] rec n = (refl, tt)
merge_record-once (r ∷ l) rec (fresh, n) = elim (Bool-cases (str_eq (identity r) (identity rec))) [
  | inl e ↦ elim (Bool-cases (ltb r.lost rec.lost)) [
    | inl worse ↦ rw (e, worse) (rw (← ((eq_iff (identity r) (identity rec)).0 e)) fresh, n)
    | inr fine ↦ rw (e, fine) (fresh, n)
  ]
  | inr e ↦ rw e (
    rw (has-merge_record (identity r) l rec) (
        ground (
          arith,
          fresh,
          e,
          eq_iff (identity r) (identity rec),
          eq_iff (identity rec) (identity r),
        )),
    merge_record-once l rec n,
  )
]

stated-merge_record :
    (id : String) (l : List ScopedRecord) (rec : ScopedRecord)
    → stated_loss id (merge_record l rec) ≡ more (stated_loss id l) (own_loss id rec)
unfolding merge_record stated_loss
stated-merge_record id [] rec = elim (Bool-cases (str_eq (identity rec) id)) [
  | inl e ↦ rw e refl
  | inr e ↦ rw e refl
]
stated-merge_record id (r ∷ l) rec = elim (Bool-cases (str_eq (identity r) (identity rec))) [
  | inl e ↦
      let same = (eq_iff (identity r) (identity rec)).0 e in
      elim (Bool-cases (str_eq (identity r) id)) [
        | inl t ↦
            let t' : str_eq (identity rec) id ≡ true = rw (← same) t in
            elim (Bool-cases (ltb r.lost rec.lost)) [
              | inl worse ↦ rw (e, worse, stated_loss) (rw (t, t') (rw worse refl))
              | inr fine ↦ rw (e, fine, stated_loss) (rw (t, t') (rw fine refl))
            ]
        | inr t ↦
            let t' : str_eq (identity rec) id ≡ false = rw (← same) t in
            elim (Bool-cases (ltb r.lost rec.lost)) [
              | inl worse ↦ rw (e, worse, stated_loss) (rw (t, t') (more_none (stated_loss id l)))
              | inr fine ↦ rw (e, fine, stated_loss) (rw (t, t') (more_none (stated_loss id l)))
            ]
      ]
  | inr e ↦ elim (Bool-cases (str_eq (identity r) id)) [
    | inl t ↦
        let other : str_eq (identity rec) id ≡ false = ground (
          arith,
          e,
          (eq_iff (identity r) id).0 t,
          eq_iff (identity rec) id,
          eq_iff (identity r) (identity rec),
        ) in
        rw (e, t, other) refl
    | inr t ↦ rw (e, t) (stated-merge_record id l rec)
  ]
]

pub stated-merge_records :
    (id : String) (l recs : List ScopedRecord)
    → stated_loss id (merge_records l recs) ≡ more (stated_loss id l) (largest_loss id recs)
unfolding merge_records largest_loss
stated-merge_records id l [] = more_none (stated_loss id l)
stated-merge_records id l (rec ∷ recs) =
    stated-merge_records id (merge_record l rec) recs
    ∙ ap (λ o. more o (largest_loss id recs)) (stated-merge_record id l rec)
    ∙ more_assoc (stated_loss id l) (own_loss id rec) (largest_loss id recs)

pub merge_records-once :
    (l recs : List ScopedRecord) → NoDup (identities l) → NoDup (identities (merge_records l recs))
unfolding merge_records
merge_records-once l [] n = n
merge_records-once l (rec ∷ recs) n =
    merge_records-once (merge_record l rec) recs (merge_record-once l rec n)

module _ (P : ScopedRecord → Type 0) where
  All-merge_record :
      (l : List ScopedRecord) (rec : ScopedRecord) → All P l → P rec → All P (merge_record l rec)
  unfolding merge_record
  All-merge_record [] rec a p = (p, tt)
  All-merge_record (r ∷ l) rec (pr, a) p = elim (Bool-cases (str_eq (identity r) (identity rec))) [
    | inl e ↦ elim (Bool-cases (ltb r.lost rec.lost)) [
      | inl worse ↦ rw (e, worse) (p, a)
      | inr fine ↦ rw (e, fine) (pr, a)
    ]
    | inr e ↦ rw e (pr, All-merge_record l rec a p)
  ]

  All-merge_records :
      (l recs : List ScopedRecord) → All P l → All P recs → All P (merge_records l recs)
  unfolding merge_records
  All-merge_records l [] a b = a
  All-merge_records l (rec ∷ recs) a (p, b) =
      All-merge_records (merge_record l rec) recs (All-merge_record l rec a p) b

-- What a merge of records is: one record for each identity observed, with the largest loss observed
-- under it; each of them is a record that was given; and the total is their sum.
pub record Merged (given : List ScopedRecord) (out : TruncationState) : Type 1 where
  pub once : NoDup (identities out.records)
  pub largest : (id : String) → stated_loss id out.records ≡ largest_loss id given
  pub given_ones : (P : ScopedRecord → Type 0) → All P given → All P out.records
  pub total_lost : out.total_lost ≡ sum_lost_of out.records

pub merge_truncation_states-Merged :
    (base incoming : TruncationState)
    → Merged (base.records ++ incoming.records) (merge_truncation_states base incoming)
unfolding merge_truncation_states stated_loss
merge_truncation_states-Merged base incoming =
    let given = base.records ++ incoming.records in
    record {
      once = merge_records-once [] given tt;
      largest = λ id. stated-merge_records id [] given;
      given_ones = λ P a. All-merge_records P [] given tt a;
      total_lost = refl;
    }
