-- ===== src/Retry/Plan.antt =====
-- One decision of the transport: schedules, waits and what becomes of the response's body.

use mathlib.Core.Path.{subst}
use sonar_migration_tool.Common.{
  ℕ, zero, suc, ◌+◌, ◌≤◌, ◌<◌, ◌≡◌, refl, ap, inl, inr, true, false, Option, none, some, List, [],
  ◌∷◌, arith, length, get_elem?, All, ◌==◌, Bool-cases, Option-cases, take-append-drop,
}
use sonar_migration_tool.Retry.Classify.{Headers, body_snippet_max}
use sonar_migration_tool.Retry.Defs.{
  Outcome, failed, responded, Transport, Env, RateLimitInfo, observe_rate_limit, schedule_for,
  clamp_retry_after, next_wait, restore_consumed_body, plan_retry, max_attempts, retry_after_cap,
  rewind_request_body,
}

get_elem?_inside {ℓ} :
    {A : Type ℓ} (xs : List A) (i : ℕ) (a : A) → get_elem? xs i ≡ some a → i < length xs
get_elem?_inside [] i a e = absurd (cc)
get_elem?_inside (x ∷ xs) zero a e = omega arith
get_elem?_inside (x ∷ xs) (suc i) a e = omega (arith, get_elem?_inside xs i a e)

get_elem?-All {ℓ κ} :
    {A : Type ℓ} (P : A → Type κ) (xs : List A) (i : ℕ) (a : A)
    → All P xs
    → get_elem? xs i ≡ some a
    → P a
get_elem?-All P [] i a h e = absurd (cc)
get_elem?-All {A} P (x ∷ xs) zero a (p, h) e =
    subst P (ap (λ (o : Option A). elim o [ none ↦ x | some y ↦ y ]) e) p
get_elem?-All P (x ∷ xs) (suc i) a (p, h) e = get_elem?-All P xs i a h e

length-schedule_for :
    (t : Transport) (rl : RateLimitInfo) → length (schedule_for t rl) < max_attempts t
unfolding schedule_for
length-schedule_for t rl = ground arith

-- A retry is planned only while the schedule has a wait for the attempt.
pub next_wait-more :
    (t : Transport) (rl : RateLimitInfo) (attempt : ℕ)
    → (next_wait t rl attempt).2 ≡ true
    → suc attempt < max_attempts t
unfolding next_wait
next_wait-more t rl attempt e = elim (Option-cases (get_elem? (schedule_for t rl) attempt)) [
  | inl out ↦ absurd (let k = rw (out, next_wait) at e in cc)
  | inr (base, inside) ↦
      omega
        (arith, get_elem?_inside (schedule_for t rl) attempt base inside, length-schedule_for t rl)
]

-- A wait that honours Retry-After is at least the scheduled one and at most the cap.
pub clamp_retry_after_bounds :
    (server scheduled : ℕ)
    → scheduled ≤ retry_after_cap
    → (scheduled ≤ clamp_retry_after server scheduled)
      × (clamp_retry_after server scheduled ≤ retry_after_cap)
      × (server ≤ retry_after_cap → server ≤ clamp_retry_after server scheduled)
unfolding clamp_retry_after
clamp_retry_after_bounds server scheduled h = (ground arith, ground arith, λ k. ground (arith, k))

-- Where the transport gives up, the response is handed back as it came, also where its body was
-- read to classify it.
pub restore-observe :
    (retry_after : Headers → ℕ) (outcome : Outcome)
    → restore_consumed_body
        (observe_rate_limit retry_after outcome).1
        (observe_rate_limit retry_after outcome).0.body
      ≡ outcome
unfolding observe_rate_limit restore_consumed_body
restore-observe retry_after failed = refl
restore-observe retry_after (responded resp) = elim (Bool-cases (resp.status == 429)) [
  | inl e ↦ rw e (
      ap (λ b. responded (record resp { body = b }))
        (take-append-drop (body_snippet_max + 1) resp.body))
  | inr e ↦ rw e refl
]

module _ (t : Transport) (env : Env) (outcome : Outcome) (attempt blocked : ℕ) where
  pub plan_retry-more :
      (plan_retry t env outcome attempt blocked).more ≡ true
      → (suc attempt < max_attempts t) × (rewind_request_body env.request_body attempt ≡ true)
  unfolding plan_retry
  plan_retry-more e =
      let rl = (observe_rate_limit env.retry_after outcome).0 in
      let scheduled : (next_wait t rl attempt).2 ≡ true = ground (arith, e) in
      (next_wait-more t rl attempt scheduled, ground (arith, e))

  pub plan_retry-resp :
      (plan_retry t env outcome attempt blocked).more ≡ false
      → (plan_retry t env outcome attempt blocked).resp ≡ outcome
  unfolding plan_retry
  plan_retry-resp e = rw e (restore-observe env.retry_after outcome)
