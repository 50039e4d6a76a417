-- ===== src/Retry/Loop.antt =====
-- The loop of RoundTrip in retry.go.
use mathlib.Core.Path.{subst}
use sonar_migration_tool.Common.{
  some-inj, ℕ, zero, suc, ◌+◌, ◌≤◌, ◌<◌, ◌≡◌, refl, sym, ap, ◌∙◌, ◌⊎◌, inl, inr, Bool, true, false,
  Option, none, some, [], ◌∷◌, arith, length, length-append, if◌then◌else◌, Bool-cases,
}
use sonar_migration_tool.Retry.Defs.{
  no_get_body, Transport, Env, should_retry, retry_skipped, rewind_request_body, plan_retry,
  Finished, Loop, again, round_trip_loop, start, max_attempts, round_trip,
}
use sonar_migration_tool.Retry.Plan.{plan_retry-more, plan_retry-resp}

recovery_count :
    (paused : Bool) (a b n w : ℕ)
    → ◌≡◌ {A = Option (ℕ × ℕ)}
        (if◌then◌else◌ {A = Option (ℕ × ℕ)} paused (some (a, b)) none)
        (some (n, w))
    → n ≡ a
recovery_count true a b n w k =
    sym (ap (λ (o : Option (ℕ × ℕ)). elim o [ none ↦ a | some p ↦ p.0 ]) k)
recovery_count false a b n w k = absurd (cc)

module _ (t : Transport) (env : Env) where
  -- An attempt after which another one is made: its outcome warrants a retry and is not one that the
  -- caller wants back at once, the request's body could be rewound, and the context was not done.
  pub record Retried (i : ℕ) : Type 0 where
    pub retryable : should_retry (env.inner i) ≡ true
    pub not_skipped : retry_skipped env.skip (env.inner i) (env.since_sent i) ≡ false
    pub rewound : rewind_request_body env.request_body i ≡ true
    pub not_cancelled : env.cancelled i ≡ false

  -- The loop ends; each attempt before the last one was to be retried; there was one wait for each;
  -- the attempts are at most one more than the longest schedule; and unless the context was done the
  -- caller is handed the last outcome with its body as the server sent it.
  pub record Delivers (r : Finished) : Type 0 where
    pub few : r.attempt < max_attempts t
    pub waited : length r.waits ≡ r.attempt
    pub retried : (i : ℕ) → i < r.attempt → Retried i
    pub intact : r.context_done ≡ false → r.outcome ≡ env.inner r.attempt
    pub recovered :
        (n w : ℕ)
        → r.recovery ≡ some (n, w)
        → (n ≡ r.attempt) × (should_retry (env.inner r.attempt) ≡ false)

  positive : (n : ℕ) → (n ≡ 0) ⊎ (0 < n)
  positive n = grind arith

  abbrev Ends : Option Finished → Type 0
  Ends o = (r : Finished) × (o ≡ some r) × Delivers r

  below_suc : (i n : ℕ) → i < n + 1 → (i < n) ⊎ (i ≡ n)
  below_suc i n h = grind arith

  round_trip_loop-Ends :
      (fuel : ℕ) (v : Loop)
      → v.attempt < max_attempts t
      → max_attempts t ≤ fuel + v.attempt
      → length v.waits ≡ v.attempt
      → ((i : ℕ) → i < v.attempt → Retried i)
      → Ends (round_trip_loop fuel t env v)
  unfolding round_trip_loop
  round_trip_loop-Ends zero v few enough counted retried = absurd (omega arith)
  round_trip_loop-Ends (suc fuel) v few enough counted retried =
      let outcome = env.inner v.attempt in
      let d = plan_retry t env outcome v.attempt v.blocked in
      elim (Bool-cases (should_retry outcome)) [
        | inr e ↦ rw e (
          _,
          refl,
          record {
            few = few;
            waited = counted;
            retried = retried;
            intact = λ _. refl;
            recovered =
                λ n w k. (recovery_count v.paused_for_rate_limit v.attempt v.total_waited n w k, e);
          },
        )
        | inl e ↦
            rw e (elim (Bool-cases (retry_skipped env.skip outcome (env.since_sent v.attempt))) [
              | inl s ↦ rw s (
                _,
                refl,
                record {
                  few = few;
                  waited = counted;
                  retried = retried;
                  intact = λ _. refl;
                  recovered = λ n w k. absurd (cc);
                },
              )
              | inr s ↦ rw s (elim (Bool-cases d.more) [
                | inr m ↦ rw m (
                  _,
                  refl,
                  record {
                    few = few;
                    waited = counted;
                    retried = retried;
                    intact = λ _. plan_retry-resp t env outcome v.attempt v.blocked m;
                    recovered = λ n w k. absurd (cc);
                  },
                )
                | inl m ↦ rw m (elim (Bool-cases (env.cancelled v.attempt)) [
                  | inl c ↦ rw c (
                    _,
                    refl,
                    record {
                      few = few;
                      waited = counted;
                      retried = retried;
                      intact = λ k. absurd (cc);
                      recovered = λ n w k. absurd (cc);
                    },
                  )
                  | inr c ↦ rw c (
                      round_trip_loop-Ends fuel (again d v)
                        (omega (arith, (plan_retry-more t env outcome v.attempt v.blocked m).0))
                        (omega arith) (omega (arith, length-append v.waits (d.wait ∷ [])))
                        (λ i lt. elim (below_suc i v.attempt lt) [
                          | inl before ↦ retried i before
                          | inr now ↦ rw now (record {
                            retryable = e;
                            not_skipped = s;
                            rewound = (plan_retry-more t env outcome v.attempt v.blocked m).1;
                            not_cancelled = c;
                          })
                        ]))
                ])
              ])
            ])
      ]

  -- RoundTrip always returns. It sends the request at most once more than the longest of its
  -- schedules has waits; it sent it again only after outcomes that warrant a retry, with the body
  -- rewound; it reports a recovery only with an outcome that warrants no retry; and unless the
  -- context ended it, the caller is handed the last outcome with its body as the server sent it.
  pub round_trip-Delivers :
      (blocked : ℕ) → (r : Finished) × (round_trip t env blocked ≡ some r) × Delivers r
  unfolding round_trip
  round_trip-Delivers blocked =
      round_trip_loop-Ends (max_attempts t) (start blocked) (omega arith) (omega arith) refl
        (λ i h. absurd (omega arith))

  -- A request whose body cannot be had again is sent once.
  pub not_resent :
      (blocked : ℕ) (r : Finished)
      → env.request_body ≡ no_get_body
      → round_trip t env blocked ≡ some r
      → r.attempt ≡ 0
  unfolding rewind_request_body
  not_resent blocked r e done =
      let (r', found, delivers) = round_trip-Delivers blocked in
      let same : r' ≡ r = some-inj (sym found ∙ done) in
      let d = subst Delivers same delivers in
      elim (positive r.attempt) [
        | inl z ↦ z
        | inr p ↦ absurd (let k = rw (e) at (d.retried 0 p).rewound in cc)
      ]
