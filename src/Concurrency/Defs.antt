-- ===== src/Concurrency/Defs.antt =====
-- The limits of migrate/concurrency.go. The figure that floating-point arithmetic gives for a target
-- rate and a latency is a parameter; 1.5 times a limit is exact in float64. Durations are nanoseconds.
use sonar_migration_tool.Common.{
  ℕ, ◌+◌, ◌*◌, ◌/◌, Bool, true, false, Option, none, some, List, [], ◌∷◌, ltb, leb, ◌==◌,
  if◌then◌else◌,
}

abbrev pub min_concurrency : ℕ
min_concurrency = 1

abbrev pub max_concurrency_ceiling : ℕ
max_concurrency_ceiling = 100

-- latencyWindow
pub record LatencyWindow : Type 0 where
  pub sum : ℕ
  pub count : ℕ

-- latencyWindow.add
unfoldable pub add_sample : LatencyWindow → ℕ → LatencyWindow
add_sample w d = record { sum = w.sum + d; count = w.count + 1 }

-- drainAverage
unfoldable pub drain_average : LatencyWindow → Option ℕ × LatencyWindow
drain_average w =
    if w.count == 0 then (none, w) else (some (w.sum / w.count), record { sum = 0; count = 0 })

-- clampConcurrency
unfoldable pub clamp_concurrency : ℕ → ℕ
clamp_concurrency n =
    if ltb n min_concurrency
    then min_concurrency
    else if ltb max_concurrency_ceiling n
    then max_concurrency_ceiling
    else n

-- capGrowth
unfoldable pub cap_growth : ℕ → ℕ → ℕ
cap_growth prev desired =
    if leb desired prev
    then desired
    else let capped = (3 * prev + 1) / 2 in
      let grown = if leb capped prev then prev + 1 else capped in
      if ltb desired grown then desired else grown

-- ConcurrencyLimiter
pub record ConcurrencyLimiter : Type 0 where
  pub current : ℕ
  pub fixed : Bool
  pub window : LatencyWindow
  pub target : ℕ

-- NewFixedConcurrencyLimiter
unfoldable pub new_fixed_concurrency_limiter : ℕ → ConcurrencyLimiter
new_fixed_concurrency_limiter n = record {
  current = n;
  fixed = true;
  window = record { sum = 0; count = 0 };
  target = 0;
}

-- NewDynamicConcurrencyLimiter
unfoldable pub new_dynamic_concurrency_limiter : ℕ → ℕ → ConcurrencyLimiter
unfolding clamp_concurrency
new_dynamic_concurrency_limiter initial target = record {
  current = clamp_concurrency initial;
  fixed = false;
  window = record { sum = 0; count = 0 };
  target = target;
}

-- Observe
unfoldable pub observe : ConcurrencyLimiter → ℕ → ConcurrencyLimiter
unfolding add_sample
observe l d = if l.fixed then l else record l { window = add_sample l.window d }

module _ (rate_times_latency : ℕ → ℕ → ℕ) where
  -- desiredConcurrency
  unfoldable pub desired_concurrency : ℕ → ℕ → ℕ
  unfolding clamp_concurrency
  desired_concurrency target avg = clamp_concurrency (rate_times_latency target avg)

  -- recalculate
  unfoldable pub adjust : ConcurrencyLimiter → Option ℕ × LatencyWindow → ConcurrencyLimiter
  unfolding desired_concurrency cap_growth
  adjust l (none, w) = record l { window = w }
  adjust l (some avg, w) = record l {
    window = w;
    current = cap_growth l.current (desired_concurrency l.target avg);
  }

  unfoldable pub recalculate : ConcurrencyLimiter → ConcurrencyLimiter
  unfolding drain_average adjust
  recalculate l = adjust l (drain_average l.window)

-- What happens to a limiter: a call is observed, or the ticker of Start fires, which it does not for a
-- fixed one.
pub data LimiterEvent : Type 0 where
  observed_call : ℕ → LimiterEvent
  tick : LimiterEvent

unfoldable pub limiter_step : (ℕ → ℕ → ℕ) → ConcurrencyLimiter → LimiterEvent → ConcurrencyLimiter
unfolding observe recalculate
limiter_step rate l (observed_call d) = observe l d
limiter_step rate l tick = if l.fixed then l else recalculate rate l

unfoldable pub run_limiter :
    (ℕ → ℕ → ℕ) → ConcurrencyLimiter → List LimiterEvent → ConcurrencyLimiter
unfolding limiter_step
run_limiter rate l [] = l
run_limiter rate l (e ∷ es) = run_limiter rate (limiter_step rate l e) es
