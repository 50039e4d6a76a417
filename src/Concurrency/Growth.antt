-- ===== src/Concurrency/Growth.antt =====
-- The range of the limit in migrate/concurrency.go, and how fast it grows.
use sonar_migration_tool.Common.{
  ℕ, ◌+◌, ◌*◌, ◌≤◌, Option, none, some, List, [], ◌∷◌, arith, Bool-cases, inl, inr,
}
use sonar_migration_tool.Concurrency.Defs.{
  ConcurrencyLimiter, new_dynamic_concurrency_limiter, clamp_concurrency, cap_growth,
  desired_concurrency, LatencyWindow, drain_average, adjust, recalculate, observe, LimiterEvent,
  observed_call, tick, limiter_step, run_limiter,
}

clamp_concurrency_range : (n : ℕ) → (1 ≤ clamp_concurrency n) × (clamp_concurrency n ≤ 100)
unfolding clamp_concurrency
clamp_concurrency_range n = ground arith

cap_growth_range :
    (prev desired : ℕ)
    → 1 ≤ prev
    → 1 ≤ desired
    → desired ≤ 100
    → (1 ≤ cap_growth prev desired)
      × (cap_growth prev desired ≤ 100)
      × (2 * cap_growth prev desired ≤ 3 * prev + 1)
unfolding cap_growth
cap_growth_range prev desired p d h = (ground (arith, p, d), ground (arith, h), ground (arith, p))

-- The range of a limit.
abbrev pub InRange : ConcurrencyLimiter → Type 0
InRange l = (1 ≤ l.current) × (l.current ≤ 100)

-- What a step does to the limit: it stays in range, and grows by half at most, rounded up.
abbrev pub Stepped : ConcurrencyLimiter → ConcurrencyLimiter → Type 0
Stepped l l' = InRange l' × (2 * l'.current ≤ 3 * l.current + 1)

module _ (rate : ℕ → ℕ → ℕ) where
  adjust-Stepped :
      (l : ConcurrencyLimiter) (o : Option ℕ × LatencyWindow)
      → InRange l
      → Stepped l (adjust rate l o)
  unfolding adjust desired_concurrency
  adjust-Stepped l (none, w) (low, high) = ((low, high), omega (arith, low))
  adjust-Stepped l (some avg, w) (low, high) =
      let desired = clamp_concurrency (rate l.target avg) in
      let (one, hundred) = clamp_concurrency_range (rate l.target avg) in
      let (a, b, c) = cap_growth_range l.current desired low one hundred in ((a, b), c)

  recalculate-Stepped : (l : ConcurrencyLimiter) → InRange l → Stepped l (recalculate rate l)
  unfolding recalculate
  recalculate-Stepped l h = adjust-Stepped l (drain_average l.window) h

  limiter_step-Stepped :
      (l : ConcurrencyLimiter) (e : LimiterEvent) → InRange l → Stepped l (limiter_step rate l e)
  unfolding limiter_step observe
  limiter_step-Stepped l (observed_call d) (low, high) = elim (Bool-cases l.fixed) [
    | inl fixed ↦ simp (fixed) ((low, high), omega (arith, low))
    | inr dynamic ↦ simp (dynamic) ((low, high), omega (arith, low))
  ]
  limiter_step-Stepped l tick (low, high) = elim (Bool-cases l.fixed) [
    | inl fixed ↦ simp (fixed) ((low, high), omega (arith, low))
    | inr dynamic ↦ simp (dynamic) (recalculate-Stepped l (low, high))
  ]

  run_limiter-InRange :
      (l : ConcurrencyLimiter) (es : List LimiterEvent)
      → InRange l
      → InRange (run_limiter rate l es)
  unfolding run_limiter
  run_limiter-InRange l [] h = h
  run_limiter-InRange l (e ∷ es) h =
      run_limiter-InRange (limiter_step rate l e) es (limiter_step-Stepped l e h).0

-- After any calls and ticks a dynamic limiter's figure is from 1 to 100, whatever the arithmetic gives
-- for the rate and the latency, and the next event raises it by half at most, rounded up.
pub run_limiter-Stepped :
    (rate : ℕ → ℕ → ℕ) (initial target : ℕ) (es : List LimiterEvent) (e : LimiterEvent)
    → let l = run_limiter rate (new_dynamic_concurrency_limiter initial target) es in
      InRange l × Stepped l (limiter_step rate l e)
unfolding new_dynamic_concurrency_limiter
run_limiter-Stepped rate initial target es e =
    let start = new_dynamic_concurrency_limiter initial target in
    let h = run_limiter-InRange rate start es (clamp_concurrency_range initial) in
    (h, limiter_step-Stepped rate (run_limiter rate start es) e h)
