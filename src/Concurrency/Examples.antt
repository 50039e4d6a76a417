-- ===== src/Concurrency/Examples.antt =====
-- A gate that two goroutines enter while its limit falls, and a limiter that grows.
use sonar_migration_tool.Common.{ℕ, ◌+◌, ◌*◌, ◌/◌, ◌≡◌, refl, List, [], ◌∷◌, arith}
use sonar_migration_tool.Concurrency.Defs.{
  LimiterEvent, observed_call, tick, new_dynamic_concurrency_limiter, limiter_step, run_limiter,
}
use sonar_migration_tool.Concurrency.Gate.{
  outside, admitted, DynamicGate, GateEvent, acquiring, limit_set, run_gate, admitted_count, Kept,
  run_gate-Kept,
}
use sonar_migration_tool.Concurrency.Growth.{InRange, Stepped, run_limiter-Stepped}

abbrev open_gate : DynamicGate
open_gate = record { limit = 2; active = 0; goroutines = outside ∷ outside ∷ outside ∷ [] }

-- Both load the limit 2 and the count 0; one swaps it, the other has to load it again; the third finds
-- the gate full.
abbrev race : List GateEvent
race =
    acquiring 0
    ∷ acquiring 1
    ∷ acquiring 0
    ∷ acquiring 1
    ∷ limit_set 1
    ∷ acquiring 0
    ∷ acquiring 1
    ∷ acquiring 1
    ∷ acquiring 1
    ∷ acquiring 2
    ∷ acquiring 2
    ∷ []

race_ends :
    ((run_gate open_gate race).active ≡ 2)
    × ((run_gate open_gate race).goroutines ≡ (admitted ∷ admitted ∷ outside ∷ []))
unfolding run_gate
race_ends = (refl, refl)

open_gate-Kept : Kept 2 open_gate
unfolding admitted_count
open_gate-Kept = record {
  within = omega arith;
  limit_within = omega arith;
  counted = refl;
  loaded = (tt, (tt, (tt, tt)));
}

run_gate-Kept_example : Kept 2 (run_gate open_gate race)
run_gate-Kept_example = run_gate-Kept 2 open_gate race open_gate-Kept (omega arith, tt)

-- Exact arithmetic.
abbrev rate : ℕ → ℕ → ℕ
rate target latency = (target * latency + 59_999_999_999) / 60_000_000_000

abbrev calls : List LimiterEvent
calls = observed_call 2_000_000_000 ∷ observed_call 4_000_000_000 ∷ tick ∷ []

grown : (run_limiter rate (new_dynamic_concurrency_limiter 4 600) calls).current ≡ 6
unfolding run_limiter new_dynamic_concurrency_limiter
grown = refl

run_limiter-Stepped_example :
    let l = run_limiter rate (new_dynamic_concurrency_limiter 4 600) calls in
    InRange l × Stepped l (limiter_step rate l tick)
run_limiter-Stepped_example = run_limiter-Stepped rate 4 600 calls tick
