-- ===== src/Truncation/Defs.antt =====
-- The truncation artefact of common/truncation.go: its records, their identity, and the merge of two
-- states, which keeps one record for each identity.
use Prim.Native.String.{◌++◌ as ◌+++◌}
use sonar_migration_tool.Common.{
  ℕ, ◌+◌, Bool, not, Option, none, some, String, List, [], ◌∷◌, ◌++◌, ltb, if◌then◌else◌, ◌&&◌,
  str_eq,
}
use sonar_migration_tool.Slicer.State.{Reconciliation}

-- TruncationScope
pub record TruncationScope : Type 0 where
  pub task : String
  pub project_key : String
  pub branch : String
  pub detail : String

-- The parts of Label that are not empty.
abbrev project_part : String → String → List String
project_part project_key branch =
    if not (str_eq project_key "") && not (str_eq branch "")
    then (project_key +++ "@" +++ branch) ∷ []
    else if not (str_eq project_key "")
    then project_key ∷ []
    else if not (str_eq branch "")
    then ("@" +++ branch) ∷ []
    else []

-- strings.Join
unfoldable pub join : String → List String → String
join sep [] = ""
join sep (s ∷ []) = s
join sep (s ∷ t ∷ ts) = s +++ sep +++ join sep (t ∷ ts)

-- Label
unfoldable pub label : TruncationScope → String
unfolding join
label s =
    let task = if not (str_eq s.task "") then s.task ∷ [] else [] in
    let detail = if not (str_eq s.detail "") then ("(" +++ s.detail +++ ")") ∷ [] else [] in
    let parts = task ++ (project_part s.project_key s.branch ++ detail) in
    elim parts [ [] ↦ "(unattributed)" | p ∷ ps ↦ join " " (p ∷ ps) ]

-- TruncationRecord
pub record ScopedRecord : Type 0 where
  pub endpoint : String
  pub reason : String
  pub scope : TruncationScope
  pub total : ℕ
  pub total_known : Bool
  pub fetched : ℕ
  pub lost : ℕ
  pub page_size : ℕ
  pub page_limit : ℕ
  pub window_start : String
  pub window_end : String

-- identity
unfoldable pub identity : ScopedRecord → String
unfolding join
identity r = join "\0" (
    r.endpoint ∷ r.reason ∷ r.scope.task ∷ r.scope.project_key ∷ r.scope.branch ∷ r.scope.detail
    ∷ r.window_start ∷ r.window_end ∷ [])

-- A Reconciliation with its scope.
pub record ScopedReconciliation : Type 0 where
  pub scope : TruncationScope
  pub audit : Reconciliation

-- TruncationState
pub record TruncationState : Type 0 where
  pub records : List ScopedRecord
  pub reconciliations : List ScopedReconciliation
  pub total_lost : ℕ

-- sumLost
unfoldable pub sum_lost_of : List ScopedRecord → ℕ
sum_lost_of [] = 0
sum_lost_of (r ∷ rs) = r.lost + sum_lost_of rs

-- One round of the merge loop over records. The index maps an identity to where it stands in the
-- merged list, which is here looked for.
unfoldable pub merge_record : List ScopedRecord → ScopedRecord → List ScopedRecord
merge_record [] rec = rec ∷ []
merge_record (r ∷ rs) rec =
    let rest = merge_record rs rec in
    if str_eq (identity r) (identity rec)
    then (if ltb r.lost rec.lost then rec ∷ rs else r ∷ rs)
    else r ∷ rest

unfoldable pub merge_records : List ScopedRecord → List ScopedRecord → List ScopedRecord
unfolding merge_record
merge_records merged [] = merged
merge_records merged (rec ∷ recs) = merge_records (merge_record merged rec) recs

-- One round of the loop over reconciliations.
unfoldable pub merge_reconciliation :
    List ScopedReconciliation → ScopedReconciliation → List ScopedReconciliation
merge_reconciliation [] rec = rec ∷ []
merge_reconciliation (r ∷ rs) rec =
    let rest = merge_reconciliation rs rec in
    if str_eq (label r.scope) (label rec.scope) then rec ∷ rs else r ∷ rest

unfoldable pub merge_reconciliations :
    List ScopedReconciliation → List ScopedReconciliation → List ScopedReconciliation
unfolding merge_reconciliation
merge_reconciliations merged [] = merged
merge_reconciliations merged (rec ∷ recs) =
    merge_reconciliations (merge_reconciliation merged rec) recs

-- MergeTruncationStates
unfoldable pub merge_truncation_states : TruncationState → TruncationState → TruncationState
unfolding merge_records merge_reconciliations sum_lost_of
merge_truncation_states base incoming =
    let records = merge_records [] (base.records ++ incoming.records) in
    record {
      records = records;
      reconciliations = merge_reconciliations [] (base.reconciliations ++ incoming.reconciliations);
      total_lost = sum_lost_of records;
    }

abbrev pub empty_state : TruncationState
empty_state = record { records = []; reconciliations = []; total_lost = 0 }

-- What Record and RecordReconciliation have appended.
pub record TruncationTracker : Type 0 where
  pub recorded : List ScopedRecord
  pub audited : List ScopedReconciliation

-- snapshotLocked
unfoldable pub snapshot : TruncationTracker → TruncationState
unfolding merge_truncation_states
snapshot t =
    merge_truncation_states empty_state
      (record { records = t.recorded; reconciliations = t.audited; total_lost = 0 })

-- ReadTruncationState, of what the file holds: nothing, a state, or something unreadable; the last is
-- an error, which WriteJSON takes for an empty state.
pub data Artefact : Type 0 where
  missing : Artefact
  holding : TruncationState → Artefact
  unreadable : Artefact

unfoldable pub read_truncation_state : Artefact → Option TruncationState
unfolding sum_lost_of
read_truncation_state missing = some empty_state
read_truncation_state (holding state) =
    some (record state { total_lost = sum_lost_of state.records })
read_truncation_state unreadable = none

abbrev base_of : Option TruncationState → TruncationState
base_of none = empty_state
base_of (some state) = state

-- WriteJSON, where the file can be written: what it holds then.
unfoldable pub write_json : TruncationTracker → Artefact → Artefact
unfolding snapshot read_truncation_state merge_truncation_states
write_json t file = elim t.recorded [
  | [] ↦ file
  | r ∷ rs ↦ holding (merge_truncation_states (base_of (read_truncation_state file)) (snapshot t))
]
