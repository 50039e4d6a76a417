-- ===== src/Retry/Examples.antt =====
-- Requests that fail once or stay rate limited, and the theorems there.
use sonar_migration_tool.Common.{
  ℕ, ◌+◌, ◌≤◌, ◌≡◌, refl, false, Option, none, some, List, [], ◌∷◌, arith, All, ltb, if◌then◌else◌,
  codes,
}
use sonar_migration_tool.Retry.Classify.{
  Headers, to_lower, has_prefix, contains, trim_left, trim_for_check, is_cloudflare429,
  is_sonar_json_error, classify429, equal,
}
use sonar_migration_tool.Retry.Gate.{Call, extend, extend_all, closed_time, extend_all-closed_time}
use sonar_migration_tool.Retry.Defs.{
  Outcome, responded, no_body, no_get_body, RequestBody, Env, client_transport, Finished,
  round_trip, round_trip_loop, plan_retry, next_wait, schedule_for, observe_rate_limit,
  should_retry, retryable_status, retry_skipped, rewind_request_body, restore_consumed_body,
  drain_and_close, wall_clock_added, clamp_retry_after,
}
use sonar_migration_tool.Retry.Plan.{restore-observe}
use sonar_migration_tool.Retry.Loop.{Delivers, round_trip-Delivers, not_resent}

abbrev no_headers : Headers
no_headers name = []

abbrev answer : ℕ → Outcome
answer status =
    responded (record { status = status; headers = no_headers; body = codes "{\"errors\":[]}" })

-- The first answer is a 503 and all later ones are 200.
abbrev once_down : ℕ → Outcome
once_down attempt = answer (if ltb attempt 1 then 503 else 200)

abbrev env_of : (ℕ → Outcome) → RequestBody → Env
env_of inner body = record {
  inner = inner;
  since_sent = λ attempt. 0;
  clock = λ attempt. attempt + 1;
  cancelled = λ attempt. false;
  retry_after = λ headers. 0;
  request_body = body;
  skip = none;
}

abbrev attempts_of : Option Finished → Option ℕ
attempts_of none = none
attempts_of (some r) = some r.attempt

abbrev waits_of : Option Finished → List ℕ
waits_of none = []
waits_of (some r) = r.waits

resent_once : attempts_of (round_trip client_transport (env_of once_down no_body) 0) ≡ some 1
unfolding round_trip round_trip_loop plan_retry next_wait schedule_for observe_rate_limit
    should_retry retryable_status retry_skipped rewind_request_body restore_consumed_body
    drain_and_close wall_clock_added
resent_once = refl

-- A rate limit that does not end uses up the whole schedule for it.
all_waits :
    waits_of (round_trip client_transport (env_of (λ attempt. answer 429) no_body) 0)
    ≡ 5_000_000_000 ∷ 15_000_000_000 ∷ 30_000_000_000 ∷ 60_000_000_000 ∷ 120_000_000_000
      ∷ 300_000_000_000 ∷ []
unfolding round_trip round_trip_loop plan_retry next_wait schedule_for observe_rate_limit
    should_retry retryable_status retry_skipped rewind_request_body restore_consumed_body
    drain_and_close wall_clock_added clamp_retry_after classify429 is_cloudflare429
    is_sonar_json_error trim_for_check trim_left contains has_prefix to_lower extend equal
all_waits = refl

round_trip-Delivers_example :
    (r : Finished) × (round_trip client_transport (env_of once_down no_body) 0 ≡ some r)
    × Delivers client_transport (env_of once_down no_body) r
round_trip-Delivers_example = round_trip-Delivers client_transport (env_of once_down no_body) 0

abbrev given_up : Finished
given_up = record {
  outcome = answer 503;
  attempt = 0;
  context_done = false;
  recovery = none;
  waits = [];
  events = [];
}

not_resent_run : round_trip client_transport (env_of once_down no_get_body) 0 ≡ some given_up
unfolding round_trip round_trip_loop plan_retry next_wait schedule_for observe_rate_limit
    should_retry retryable_status retry_skipped rewind_request_body restore_consumed_body
    drain_and_close wall_clock_added
not_resent_run = refl

not_resent_example : given_up.attempt ≡ 0
not_resent_example =
    not_resent client_transport (env_of once_down no_get_body) 0 given_up refl not_resent_run

-- Two requests park on one window of 60, and a third on a later one.
abbrev calls : List Call
calls =
    record { now = 10; until = 60 }
    ∷ record { now = 12; until = 60 }
    ∷ record { now = 70; until = 100 }
    ∷ []

calls_run : extend_all calls 0 ≡ (80, 100)
unfolding extend_all extend
calls_run = refl

calls_end : (extend_all calls 0).1 ≤ 100
unfolding extend_all extend
calls_end = omega arith

extend_all-closed_time_example :
    ((extend_all calls 0).0 ≡ closed_time calls 100)
    × All (λ c. c.until ≤ (extend_all calls 0).1) calls
extend_all-closed_time_example =
    extend_all-closed_time calls 5 100 (omega arith, (omega arith, (omega arith, tt))) calls_end

restore-observe_example :
    restore_consumed_body
      (observe_rate_limit (λ headers. 0) (answer 429)).1
      (observe_rate_limit (λ headers. 0) (answer 429)).0.body
    ≡ answer 429
restore-observe_example = restore-observe (λ headers. 0) (answer 429)
