-- ===== src/Slicer/Drift.antt =====
-- The verdict of a reconciliation, as a statement on counts.
use sonar_migration_tool.Common.{
  ℕ, ◌+◌, ◌≤◌, ◌≡◌, refl, sym, ap, ◌∙◌, ◌↔◌, true, false, arith, ltb, leb, if◌then◌else◌, ℤ, pos,
  sub_ℕ, ◌-ℤ◌, ltb_ℤ, Bool-cases, inl, inr,
}
use sonar_migration_tool.Slicer.State.{Reconciliation}
use sonar_migration_tool.Slicer.Reconcile.{churn, drift, outside_band, unexplained_drift}

-- The smaller and the larger of the source's two counts.
abbrev pub least : Reconciliation → ℕ
least r = if leb r.total_before r.total_after then r.total_before else r.total_after

abbrev pub most : Reconciliation → ℕ
most r = if leb r.total_before r.total_after then r.total_after else r.total_before

negate : (a b : ℕ) → pos 0 -ℤ sub_ℕ a b ≡ sub_ℕ b a
unfolding ◌-ℤ◌
negate a b = ground arith

pos_zero : (a : ℕ) → pos 0 ≡ sub_ℕ a a
pos_zero a = ground arith

minus : (a b c d e f : ℕ) → a + d + f ≡ b + c + e → sub_ℕ a b -ℤ sub_ℕ c d ≡ sub_ℕ e f
unfolding ◌-ℤ◌
minus a b c d e f h = ground (arith, h)

less_by : (a b c d e f : ℕ) → a + d + f ≡ b + c + e → ltb_ℤ (sub_ℕ a b) (sub_ℕ c d) ≡ ltb e f
less_by a b c d e f h = ground (arith, h)

-- The verdict for a band with the ends before - most and before - least.
band :
    (before lower upper accounted : ℕ)
    → outside_band (sub_ℕ before accounted) (sub_ℕ before upper) (sub_ℕ before lower) ≡ (
        if ltb accounted lower
        then sub_ℕ lower accounted
        else if ltb upper accounted
        then sub_ℕ upper accounted
        else pos 0)
unfolding outside_band
band before lower upper accounted =
    rw (less_by before lower before accounted accounted lower (omega arith)) (
      rw (less_by before accounted before upper upper accounted (omega arith)) (
        rw (minus before accounted before lower lower accounted (omega arith))
          (rw (minus before accounted before upper upper accounted (omega arith)) refl)))

-- Where the accounted items are, seen from the two counts.
abbrev pub placed : ℕ → ℕ → ℕ → ℤ
placed lower upper accounted =
    if ltb accounted lower
    then sub_ℕ lower accounted
    else if ltb upper accounted
    then sub_ℕ upper accounted
    else pos 0

-- unexplained_drift, by its drift and the end of the band that is not 0.
abbrev verdict : ℤ → ℤ → ℤ
verdict d high =
    if ltb_ℤ high (pos 0) then outside_band d high (pos 0) else outside_band d (pos 0) high

below_zero : (a b : ℕ) → ltb_ℤ (sub_ℕ a b) (pos 0) ≡ ltb a b
below_zero a b = ground arith

verdict-placed :
    (before after accounted : ℕ)
    → verdict (sub_ℕ before accounted) (sub_ℕ before after)
      ≡ placed
          (if leb before after then before else after)
          (if leb before after then after else before)
          accounted
verdict-placed before after accounted =
    let d = sub_ℕ before accounted in
    let high = sub_ℕ before after in
    elim (Bool-cases (ltb before after)) [
      | inl grew ↦
          let order : leb before after ≡ true = ground (arith, grew) in
          let negative : ltb_ℤ high (pos 0) ≡ true = below_zero before after ∙ grew in
          rw order (
            ap (λ b. if b then outside_band d high (pos 0) else outside_band d (pos 0) high)
              negative
            ∙ ap (λ z. outside_band d high z) (pos_zero before)
            ∙ band before before after accounted)
      | inr shrank ↦
          let negative : ltb_ℤ high (pos 0) ≡ false = below_zero before after ∙ shrank in
          let lower : (if leb before after then before else after) ≡ after =
            ground (arith, shrank) in
          let upper : (if leb before after then after else before) ≡ before =
            ground (arith, shrank) in
          ap (λ b. if b then outside_band d high (pos 0) else outside_band d (pos 0) high) negative
          ∙ ap (λ z. outside_band d z high) (pos_zero before)
          ∙ band before after before accounted
          ∙ sym (
              ap (λ l. placed l (if leb before after then after else before) accounted) lower
              ∙ ap (λ u. placed after u accounted) upper)
    ]

unexplained_drift_cases :
    (r : Reconciliation)
    → unexplained_drift r ≡ placed (least r) (most r) (r.unique + r.expected_loss)
unfolding unexplained_drift churn drift
unexplained_drift_cases r =
    ap (λ z. verdict (sub_ℕ r.total_before (r.unique + r.expected_loss)) z)
      (negate r.total_after r.total_before)
    ∙ verdict-placed r.total_before r.total_after (r.unique + r.expected_loss)

-- The drift that churn does not explain is by how much the items collected and the losses booked,
-- together, fall short of both counts of the source or exceed both; it is 0 exactly if they lie
-- between the two counts.
pub unexplained_drift_band :
    (r : Reconciliation)
    → let accounted = r.unique + r.expected_loss in
      (unexplained_drift r ≡ placed (least r) (most r) accounted)
      × ((unexplained_drift r ≡ pos 0) ↔ ((least r ≤ accounted) × (accounted ≤ most r)))
unexplained_drift_band r =
    (unexplained_drift_cases r, rw (unexplained_drift_cases r) (ground arith))
