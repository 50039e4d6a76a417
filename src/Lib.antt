-- ===== src/Lib.antt =====
-- Verification of the SonarQube migration tool (Go): a command that extracts the configuration
-- and the analysis data of a SonarQube Server and replays them into SonarQube Cloud.
--
-- The program extracts objects through a server client, maps them, and runs migration tasks
-- against the cloud client. The planner (go/internal/common) orders the tasks of both commands
-- by their dependencies. Every task sends its requests through the API client (lib/sq-api-go),
-- whose transport waits for the rate limiter, retries, and pages through listings; the extract
-- commands page with the raw client (go/internal/common/rawclient.go), which falls back to
-- smaller pages and stands on the same transport.
--
-- Planner.antt and its children model go/internal/common/planner.go, and the selection of
-- target tasks in go/internal/migrate/planner.go, go/internal/extract/planner.go and
-- go/internal/common/objects.go.
--
-- Limiter.antt models lib/sq-api-go/ratelimiter.go: the state of SlidingWindowLimiter as a
-- record, enqueue, tryAcquire, wakeHead and dequeue as functions of it, and Wait as the events
-- that its callers make of them, in any order of the callers.
--
-- Retry.antt models lib/sq-api-go/retry.go and ratelimit.go: RoundTrip with planRetry, the
-- schedules, the shared gate and the classification of 429 responses. The transport below and
-- the clock are functions of the attempt.
--
-- Paginator.antt models lib/sq-api-go/pagination.go: NewPaginator, Pages and All.
--
-- Matching.antt models go/internal/migrate/matchscore.go, and stripProjectKeyPrefix of
-- tasks_issuesync.go: how the cloud issue that a source issue became is found by rule, file,
-- line and message.
--
-- Triage.antt models what tasks_issuesync.go decides of a matched issue: its transition
-- (getFallbackTransition, resolveTransition), whether it was changed by hand (hasManualChanges)
-- and why (classifyActionableReasons), and the tags that are written (mergeIssueTags).
--
-- Hotspots.antt models the classification and the deduplication of hotspots in
-- go/internal/migrate/tasks_hotspotsync.go.
--
-- History.antt models the synthetic coverage and duplication that a historical point is
-- replayed with, in go/internal/migrate/history.go.
--
-- Fallback.antt models the paginated fetch of go/internal/common/rawclient.go: the walk over
-- the pages (paginationWalk), the loop of GetPaginatedResult with its fallback to smaller
-- pages, and the table of page sizes (pageSizeTable).
--
-- Slicer.antt models go/internal/extract/slice.go and slice_facets.go: the walk over windows of
-- creation dates that fetches the issues of a project with more of them than a search returns,
-- with its state issueSlicer as a record, its methods as actions that return a value or an
-- error and the new state, and the reconciliation of go/internal/common/truncation.go. Its
-- fetches are those of Fallback. The depth of the walk is counted down from maxSliceDepth, so
-- that no fuel is needed.
--
-- Truncation.antt models the rest of go/internal/common/truncation.go: the identity of a
-- record, the merge of two states, and what the tracker writes to the file.
--
-- Concurrency.antt models go/internal/migrate/concurrency.go: the limit that follows the
-- observed latency, and DynamicGate as the atomic steps that its callers make in any order.
--
-- Go maps are association lists, lists with distinct keys or functions. Times and durations are
-- numbers of nanoseconds. The fuel of the dependency walk is one more than the number of
-- registered tasks, and that of the scheduling loop one more than the number of tasks; that of
-- RoundTrip is one more than the longest schedule has waits, and that of GetPaginatedResult is
-- seven attempts, for the four fallback sizes and two more tries at the smallest.
--
-- Not modelled: HTTP and JSON, file input and output, the report writers, the GUI and the
-- command-line front end, and the bodies of the tasks.
--
pub mod Common
pub mod Concurrency
pub mod Fallback
pub mod History
pub mod Hotspots
pub mod Limiter
pub mod Matching
pub mod Paginator
pub mod Planner
pub mod Retry
pub mod Slicer
pub mod Triage
pub mod Truncation
