-- ===== src/Slicer/Reconcile.antt =====
-- The figures of common/truncation.go that a reconciliation is judged by.
use sonar_migration_tool.Common.{◌+◌, if◌then◌else◌, ℤ, pos, sub_ℕ, ◌-ℤ◌, ltb_ℤ}
use sonar_migration_tool.Slicer.State.{Reconciliation}

-- Churn
unfoldable pub churn : Reconciliation → ℤ
churn r = sub_ℕ r.total_after r.total_before

-- Drift
unfoldable pub drift : Reconciliation → ℤ
drift r = sub_ℕ r.total_before (r.unique + r.expected_loss)

-- UnexplainedDrift, by the two ends of the tolerance band.
unfoldable pub outside_band : ℤ → ℤ → ℤ → ℤ
unfolding ◌-ℤ◌
outside_band d low high =
    if ltb_ℤ high d then d -ℤ high else if ltb_ℤ d low then d -ℤ low else pos 0

unfoldable pub unexplained_drift : Reconciliation → ℤ
unfolding churn drift outside_band ◌-ℤ◌
unexplained_drift r =
    let high = pos 0 -ℤ churn r in
    if ltb_ℤ high (pos 0)
    then outside_band (drift r) high (pos 0)
    else outside_band (drift r) (pos 0) high
