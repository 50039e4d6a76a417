-- ===== src/Slicer/State.antt =====
-- The state of one walk of extract/slice.go, what the walk records, and the world it runs in. A method
-- takes the state and returns a value or an error with the new state: what was done before an error
-- stays done.
use sonar_migration_tool.Common.{ℕ, Bool, Option, String, List, [], ◌∷◌}
use sonar_migration_tool.Fallback.Table.{PageSizeTable}
use sonar_migration_tool.Fallback.Defs.{FetchError, Answer, TruncationReason}
use sonar_migration_tool.Slicer.Windows.{IssueWindow, Query}

-- TruncationReason: those of a fetch and those of a walk.
pub data SliceReason : Type 0 where
  of_fetch : TruncationReason → SliceReason
  atomic_window dates_ignored dates_rejected max_depth incomplete_slice count_drift : SliceReason

-- TruncationRecord, without the endpoint and the scope but its Detail, which are the same in all.
pub record TruncationRecord : Type 0 where
  pub reason : SliceReason
  pub detail : List (String × String)
  pub total : ℕ
  pub total_known : Bool
  pub fetched : ℕ
  pub lost : ℕ
  pub page_size : ℕ
  pub page_limit : ℕ
  pub window_start : Option ℕ
  pub window_end : Option ℕ

-- Reconciliation, without the scope.
pub record Reconciliation : Type 0 where
  pub total_before : ℕ
  pub total_after : ℕ
  pub unique : ℕ
  pub duplicates : ℕ
  pub keyless : ℕ
  pub expected_loss : ℕ
  pub windows : ℕ
  pub requests : ℕ

-- facetValue
pub record FacetValue : Type 0 where
  pub val : String
  pub count : ℕ

-- The errors of a walk; the second is dateBoundRejected.
pub data WalkError : Type 0 where
  request_failed : FetchError → WalkError
  date_bound_rejected : IssueWindow → FetchError → WalkError
  unparseable_total unreadable_facet zero_width_window sink_failed context_done : WalkError

-- What one response says: a request may fail, and its body may not hold what is asked for.
pub data Response (B : Type 0) : Type 0 where
  request_error : FetchError → Response B
  no_answer : Response B
  answer_of : B → Response B

-- The world, by the number of requests that the walk has made: the pages of an issue search, its
-- total, its first creation date in either order, and the facets in its response; the state of the
-- context, the clock, and whether the sink fails on its n-th chunk. `key_of` reads an issue's key.
pub record World {ℓ} (A : Type ℓ) : Type ℓ where
  pub page : ℕ → Query → ℕ → ℕ → Answer A
  pub total_of : ℕ → Query → Response ℕ
  pub creation_date : ℕ → Query → Bool → Option ℕ
  pub facets_of : ℕ → Query → String → Response (List (String × List FacetValue))
  pub cancelled : ℕ → Bool
  pub clock : ℕ → ℕ
  pub sink_fails : ℕ → Bool
  pub is_mqr_mode : Bool
  pub key_of : A → String

-- issueSlicer, with what the walk leaves elsewhere: the issues handed to the sink (the latest chunk
-- first; the order inside a chunk is left open) and the number of chunks, the records and audits of
-- the tracker (the latest first), and the page sizes that the raw client has learned.
pub record Slicer {ℓ} (A : Type ℓ) : Type ℓ where
  pub page_size : ℕ
  pub page_limit : ℕ
  pub ceiling : ℕ
  pub initial_total : ℕ
  pub total_known : Bool
  pub seen : List String
  pub unique : ℕ
  pub duplicates : ℕ
  pub keyless : ℕ
  pub windows : ℕ
  pub requests : ℕ
  pub expected_loss : ℕ
  pub degraded_reason : Option SliceReason
  pub fell_back : Bool
  pub sunk : List A
  pub chunks : ℕ
  pub records : List TruncationRecord
  pub audits : List Reconciliation
  pub table : PageSizeTable

pub data Outcome {κ} (B : Type κ) : Type κ where
  success : B → Outcome B
  failure : WalkError → Outcome B

-- How a method ends: its value or error, and the state then.
pub data Step {ℓ κ} (A : Type ℓ) (B : Type κ) : Type (ℓ ⊔ κ) where
  step : Outcome B → Slicer A → Step A B

module _ {ℓ κ} {A : Type ℓ} {B : Type κ} where
  abbrev pub outcome_of : Step A B → Outcome B
  outcome_of (step o s) = o

  abbrev pub state_of : Step A B → Slicer A
  state_of (step o s) = s

abbrev pub Action {ℓ κ} : Type ℓ → Type κ → Type (ℓ ⊔ κ)
Action A B = Slicer A → Step A B

module _ {ℓ κ} {A : Type ℓ} {B : Type κ} where
  abbrev pub pure : B → Action A B
  pure b s = step (success b) s

  abbrev pub raise : WalkError → Action A B
  raise e s = step (failure e) s

  abbrev pub gets : (Slicer A → B) → Action A B
  gets f s = step (success (f s)) s

  -- An error as a value, for the code that handles it.
  abbrev pub attempt : Action A B → Action A (Outcome B)
  attempt m s = elim (m s) [ step o s' ↦ step (success o) s' ]

module _ {ℓ} {A : Type ℓ} where
  abbrev pub modify : (Slicer A → Slicer A) → Action A (Unit {0})
  modify f s = step (success tt) (f s)

module _ {ℓ κ ι} {A : Type ℓ} {B : Type κ} {C : Type ι} where
  abbrev pub bind_outcome : Step A B → (B → Action A C) → Step A C
  bind_outcome (step (success b) s) f = f b s
  bind_outcome (step (failure e) s) f = step (failure e) s

infixl 5 ◌>>=◌ ◌>>◌
unfoldable pub ◌>>=◌ {ℓ κ ι} :
    {A : Type ℓ} {B : Type κ} {C : Type ι} → Action A B → (B → Action A C) → Action A C
◌>>=◌ m f s = bind_outcome (m s) f

abbrev pub ◌>>◌ {ℓ κ} : {A : Type ℓ} {C : Type κ} → Action A (Unit {0}) → Action A C → Action A C
m >> k = m >>= λ _. k

-- A loop over a list, which ends at the first error.
unfoldable pub for_each {ℓ κ} :
    {A : Type ℓ} {B : Type κ} → (B → Action A (Unit {0})) → List B → Action A (Unit {0})
for_each body [] = pure tt
for_each body (b ∷ bs) = body b >> for_each body bs
