-- ===== src/Triage/Transitions.antt =====
-- getFallbackTransition, resolveTransition and hasManualChanges: what they have to do with each other.
use sonar_migration_tool.Common.{
  String, ◌≡◌, ◌↔◌, ◌<◌, ◌⊎◌, Bool, true, false, ◌||◌, List, length, str_eq, has,
}
use sonar_migration_tool.Triage.Defs.{
  TriagedIssue, is_word, get_fallback_transition, has_manual_changes,
}

-- The transitions that leave an issue to be dealt with, or take over what was done on the server
-- without a mark that hasManualChanges looks for.
abbrev pub mild : String → Bool
mild t = str_eq t "" || (str_eq t "confirm" || (str_eq t "reopen" || str_eq t "resolve"))

-- A triage by hand, as far as the status and the resolution show it.
abbrev marked : String → String → Bool
marked r s =
    (is_word s "ACCEPTED" || is_word s "FALSE_POSITIVE")
    || (is_word r "FALSE-POSITIVE" || is_word r "WONTFIX")

-- One of the words of the unified issue status.
abbrev pub modern : String → Bool
modern s =
    is_word s "ACCEPTED"
    || (is_word s "FALSE_POSITIVE"
        || (is_word s "CONFIRMED" || (is_word s "OPEN" || is_word s "FIXED")))

-- An issue was accepted on its server: the unified status says so; or it says none of its words, the
-- resolution is none that says otherwise, and the old status says so.
pub data Accepted (iss : TriagedIssue) : Type 0 where
  by_issue_status : is_word iss.issue_status "ACCEPTED" ≡ true → Accepted iss
  by_status :
      modern iss.issue_status ≡ false
      → is_word iss.resolution "FALSE-POSITIVE" ≡ false
      → is_word iss.resolution "WONTFIX" ≡ false
      → is_word iss.status "ACCEPTED" ≡ true
      → Accepted iss

abbrev accepts : String → Bool
accepts t = str_eq t "accept"

-- The cloud issue's transitions are known, and accept is not among them.
abbrev pub Refuses : List String → Type 0
Refuses offers = (0 < length offers) × (has "accept" offers ≡ false)

-- What a transition and its downgrade say of an issue and of what the cloud issue offers.
abbrev pub Resolved : TriagedIssue → List String → String × Bool → Type 0
Resolved iss offers (t, downgraded) =
    (str_eq t "accept" ≡ true ↔ Accepted iss × (¬ Refuses offers))
    × (downgraded ≡ true ↔ Accepted iss × Refuses offers)
    × ((t ≡ get_fallback_transition iss.issue_status iss.resolution iss.status)
        ⊎ ((downgraded ≡ true) × (t ≡ "")))
    × (has_manual_changes iss ≡ false → (mild t ≡ true) × (downgraded ≡ false))
