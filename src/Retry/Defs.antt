-- ===== src/Retry/Defs.antt =====
-- The retrying transport of retry.go. What the transport below answers, how long it takes, the
-- clock, and whether the caller has given up are an environment indexed by the attempt. The deadline of
-- the gate is the one that this request finds and extends; other requests do not extend it meanwhile.
use Prim.Native.Nat.{max}
use sonar_migration_tool.Common.{
  ℕ, zero, suc, ◌+◌, Bool, true, false, not, ◌&&◌, ◌||◌, Option, none, some, List, [], ◌∷◌, ◌++◌,
  length, get_elem?, ltb, leb, ◌==◌, if◌then◌else◌, take, drop,
}
use sonar_migration_tool.Retry.Classify.{
  Bytes, Headers, RateLimitKind, unknown429, sqc_rate_limit, cloudflare_rate_limit, classify429,
  body_snippet_max,
}
use sonar_migration_tool.Retry.Gate.{extend}

-- Durations are nanoseconds.
abbrev pub second : ℕ
second = 1_000_000_000

abbrev pub default_backoff : List ℕ
default_backoff = 100_000_000 ∷ 200_000_000 ∷ 400_000_000 ∷ []

abbrev pub sqc429_backoff : List ℕ
sqc429_backoff =
    5_000_000_000 ∷ 15_000_000_000 ∷ 30_000_000_000 ∷ 60_000_000_000 ∷ 120_000_000_000
    ∷ 300_000_000_000 ∷ []

abbrev pub non_sqc429_backoff : List ℕ
non_sqc429_backoff = 2_000_000_000 ∷ []

abbrev pub retry_after_cap : ℕ
retry_after_cap = 300_000_000_000

-- What is left to read of a response's body is `body`.
pub record Response : Type 0 where
  pub status : ℕ
  pub headers : Headers
  pub body : Bytes

-- The pair that RoundTrip returns: an error (or no response), or a response.
pub data Outcome : Type 0 where
  failed : Outcome
  responded : Response → Outcome

-- A request's body, as rewindRequestBody sees it: none, one without GetBody, or one whose GetBody
-- succeeds after the attempts for which the function is true.
pub data RequestBody : Type 0 where
  no_body no_get_body : RequestBody
  get_body : (ℕ → Bool) → RequestBody

-- skipRetry, from WithoutRetryOnSlowStatus.
pub record SkipRetry : Type 0 where
  pub after : ℕ
  pub codes : ℕ → Bool

-- retryTransport, without the logging callbacks. `gate` says whether it has one.
pub record Transport : Type 0 where
  pub backoff : List ℕ
  pub sqc_backoff : Option (List ℕ)
  pub non_sqc_backoff : Option (List ℕ)
  pub gate : Bool

-- The environment of one request. `retry_after` is what parseRetryAfter reads in the headers.
pub record Env : Type 0 where
  pub inner : ℕ → Outcome
  pub since_sent : ℕ → ℕ
  pub clock : ℕ → ℕ
  pub cancelled : ℕ → Bool
  pub retry_after : Headers → ℕ
  pub request_body : RequestBody
  pub skip : Option SkipRetry

-- rateLimitInfo, without the headers.
pub record RateLimitInfo : Type 0 where
  pub kind : RateLimitKind
  pub retry_after : ℕ
  pub body : Bytes
  pub is429 : Bool

abbrev pub no_rate_limit : RateLimitInfo
no_rate_limit = record { kind = unknown429; retry_after = 0; body = []; is429 = false }

-- retryableStatusCodes
unfoldable pub retryable_status : ℕ → Bool
retryable_status code =
    code == 429 || (code == 500 || (code == 502 || (code == 503 || code == 504)))

-- shouldRetry
unfoldable pub should_retry : Outcome → Bool
unfolding retryable_status
should_retry failed = true
should_retry (responded resp) = retryable_status resp.status

-- retrySkipped
unfoldable pub retry_skipped : Option SkipRetry → Outcome → ℕ → Bool
retry_skipped skip failed waited = false
retry_skipped none (responded resp) waited = false
retry_skipped (some s) (responded resp) waited =
    if resp.status == 429 then false else s.codes resp.status && leb s.after waited

abbrev pub is_sqc : RateLimitKind → Bool
is_sqc sqc_rate_limit = true
is_sqc unknown429 = false
is_sqc cloudflare_rate_limit = false

-- isSonarRateLimit
abbrev pub is_sonar_rate_limit : RateLimitInfo → Bool
is_sonar_rate_limit r = r.is429 && is_sqc r.kind

-- observeRateLimit: what it learns, and the response with the bytes it read taken off the body.
unfoldable pub observe_rate_limit : (Headers → ℕ) → Outcome → RateLimitInfo × Outcome
observe_rate_limit retry_after failed = (no_rate_limit, failed)
observe_rate_limit retry_after (responded resp) =
    if resp.status == 429
    then (
      record {
        kind = classify429 resp.headers (take (body_snippet_max + 1) resp.body);
        retry_after = retry_after resp.headers;
        body = take (body_snippet_max + 1) resp.body;
        is429 = true;
      },
      responded (record resp { body = drop (body_snippet_max + 1) resp.body }),
    )
    else (no_rate_limit, responded resp)

-- scheduleFor
unfoldable pub schedule_for : Transport → RateLimitInfo → List ℕ
schedule_for t rl =
    if rl.is429
    then (elim (if is_sqc rl.kind then t.sqc_backoff else t.non_sqc_backoff) [
      | none ↦ t.backoff
      | some override ↦ override
    ])
    else t.backoff

-- clampRetryAfter
unfoldable pub clamp_retry_after : ℕ → ℕ → ℕ
clamp_retry_after server scheduled =
    let d = if ltb server scheduled then scheduled else server in
    if ltb retry_after_cap d then retry_after_cap else d

-- nextWait: the wait, the number of attempts in the schedule, and whether there is another one.
unfoldable pub next_wait : Transport → RateLimitInfo → ℕ → ℕ × ℕ × Bool
unfolding schedule_for
next_wait t rl attempt = elim (get_elem? (schedule_for t rl) attempt) [
  | none ↦ (0, length (schedule_for t rl) + 1, false)
  | some base ↦ (
    if is_sonar_rate_limit rl && ltb 0 rl.retry_after
        then clamp_retry_after rl.retry_after base
        else base,
    length (schedule_for t rl) + 1,
    true,
  )
]

-- rewindRequestBody, after the given attempt.
unfoldable pub rewind_request_body : RequestBody → ℕ → Bool
rewind_request_body no_body attempt = true
rewind_request_body no_get_body attempt = false
rewind_request_body (get_body succeeds) attempt = succeeds attempt

-- drainAndClose, restoreConsumedBody
unfoldable pub drain_and_close : Outcome → Outcome
drain_and_close failed = failed
drain_and_close (responded resp) = responded (record resp { body = [] })

unfoldable pub restore_consumed_body : Outcome → Bytes → Outcome
restore_consumed_body failed consumed = failed
restore_consumed_body (responded resp) consumed =
    responded (record resp { body = consumed ++ resp.body })

-- RateLimitEvent: the fields that the transport decides.
pub record RateLimitEvent : Type 0 where
  pub kind : RateLimitKind
  pub wait_chosen : ℕ
  pub wall_clock_added : ℕ

-- wallClockAdded, with the gate's deadline before and after.
unfoldable pub wall_clock_added : Transport → RateLimitInfo → ℕ → Bool → ℕ → ℕ → ℕ × ℕ
wall_clock_added t rl chosen false now blocked = (0, blocked)
wall_clock_added t rl chosen true now blocked =
    if is_sonar_rate_limit rl
    then (if t.gate then extend now (now + chosen) blocked else (0, blocked))
    else (chosen, blocked)

-- retryDecision, with the response as planRetry leaves it, the event and the gate's deadline.
pub record RetryDecision : Type 0 where
  pub wait : ℕ
  pub chosen : ℕ
  pub total : ℕ
  pub more : Bool
  pub is429 : Bool
  pub resp : Outcome
  pub events : List RateLimitEvent
  pub blocked : ℕ

-- planRetry
unfoldable pub plan_retry : Transport → Env → Outcome → ℕ → ℕ → RetryDecision
plan_retry t env outcome attempt blocked =
    let (rl, peeked) = observe_rate_limit env.retry_after outcome in
    let (wait, total, scheduled) = next_wait t rl attempt in
    let more = scheduled && rewind_request_body env.request_body attempt in
    let chosen = if more then wait else 0 in
    let (added, blocked') = wall_clock_added t rl chosen more (env.clock attempt) blocked in
    record {
      wait = wait;
      chosen = chosen;
      total = total;
      more = more;
      is429 = rl.is429;
      resp = if more then drain_and_close peeked else restore_consumed_body peeked rl.body;
      events =
          if rl.is429
          then record { kind = rl.kind; wait_chosen = chosen; wall_clock_added = added } ∷ []
          else [];
      blocked = blocked';
    }

-- How RoundTrip ends: what the caller is handed, after which attempt (from 0), whether the context
-- ended it, what the recovery callback is told (retries and time waited), the waits of the retries
-- and the events.
pub record Finished : Type 0 where
  pub outcome : Outcome
  pub attempt : ℕ
  pub context_done : Bool
  pub recovery : Option (ℕ × ℕ)
  pub waits : List ℕ
  pub events : List RateLimitEvent

abbrev pub finish :
    Outcome → ℕ → Bool → Option (ℕ × ℕ) → List ℕ → List RateLimitEvent → Option Finished
finish outcome attempt done recovery waits events = some (record {
  outcome = outcome;
  attempt = attempt;
  context_done = done;
  recovery = recovery;
  waits = waits;
  events = events;
})

-- The variables of RoundTrip's loop. `total_waited` is not 0 where it matters only if the request
-- was paused for a rate limit.
pub record Loop : Type 0 where
  pub attempt : ℕ
  pub paused_for_rate_limit : Bool
  pub total_waited : ℕ
  pub blocked : ℕ
  pub waits : List ℕ
  pub events : List RateLimitEvent

-- The loop variables after a decision to retry.
abbrev pub again : RetryDecision → Loop → Loop
again d v = record {
  attempt = v.attempt + 1;
  paused_for_rate_limit = if d.is429 then true else v.paused_for_rate_limit;
  total_waited = if d.is429 then v.total_waited + d.chosen else v.total_waited;
  blocked = d.blocked;
  waits = v.waits ++ d.wait ∷ [];
  events = v.events ++ d.events;
}

-- The loop of RoundTrip; `none` means that the fuel ran out.
unfoldable pub round_trip_loop : ℕ → Transport → Env → Loop → Option Finished
round_trip_loop zero t env v = none
round_trip_loop (suc fuel) t env v =
    let outcome = env.inner v.attempt in
    let d = plan_retry t env outcome v.attempt v.blocked in
    let rest = round_trip_loop fuel t env (again d v) in
    if not (should_retry outcome)
    then finish outcome v.attempt false
        (if v.paused_for_rate_limit then some (v.attempt, v.total_waited) else none) v.waits
        v.events
    else if retry_skipped env.skip outcome (env.since_sent v.attempt)
    then finish outcome v.attempt false none v.waits v.events
    else if not d.more
    then finish d.resp v.attempt false none v.waits (v.events ++ d.events)
    else if env.cancelled v.attempt
    then finish d.resp v.attempt true none v.waits (v.events ++ d.events)
    else rest

abbrev pub start : ℕ → Loop
start blocked = record {
  attempt = 0;
  paused_for_rate_limit = false;
  total_waited = 0;
  blocked = blocked;
  waits = [];
  events = [];
}

abbrev pub longest : Option (List ℕ) → ℕ
longest none = 0
longest (some schedule) = length schedule

-- One more than the longest of the schedules has waits.
abbrev pub max_attempts : Transport → ℕ
max_attempts t =
    suc (max (length t.backoff) (max (longest t.sqc_backoff) (longest t.non_sqc_backoff)))

-- RoundTrip
unfoldable pub round_trip : Transport → Env → ℕ → Option Finished
round_trip t env blocked = round_trip_loop (max_attempts t) t env (start blocked)

-- The client's transport: NewRetryTransport's defaults as the client builds it.
abbrev pub client_transport : Transport
client_transport = record {
  backoff = default_backoff;
  sqc_backoff = some sqc429_backoff;
  non_sqc_backoff = some non_sqc429_backoff;
  gate = true;
}
