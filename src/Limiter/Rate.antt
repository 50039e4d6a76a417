-- ===== src/Limiter/Rate.antt =====
-- The rate bound over every run of the limiter.

use sonar_migration_tool.Common.{
  ℕ, zero, suc, ◌≤◌, ◌<◌, ◌≡◌, refl, sym, ap, ◌∙◌, inl, inr, Bool, true, false, ◌&&◌, List, [], ◌∷◌,
  ◌++◌, arith, length, ltb, ◌==◌, if◌then◌else◌, Bool-cases,
}
use sonar_migration_tool.Limiter.Defs.{
  Limiter, new_limiter, enqueue, purge, is_head, tail, next_wait, try_acquire, Event, join, attempt,
  give_up, History, record_grant, step, run, fresh, has_room, granted_state, refused_state,
}
use sonar_migration_tool.Limiter.Bound.{
  count_in, SameCore, wake_head-SameCore, dequeue-SameCore, next_wait_pos, record_grant_refused,
  IsBounded, Monotone, IsBounded-frame, IsBounded-granted, IsBounded-refused,
}

pub try_acquire-granted :
    (c now : ℕ) (l : Limiter)
    → (has_room now l && is_head c l.queue) ≡ true
    → try_acquire c now l ≡ (0, granted_state now l)
unfolding try_acquire
try_acquire-granted c now l e = rw e

pub try_acquire-refused :
    (c now : ℕ) (l : Limiter)
    → (has_room now l && is_head c l.queue) ≡ false
    → try_acquire c now l
      ≡ (next_wait l.window now (purge l.window now l.timestamps), refused_state now l)
unfolding try_acquire
try_acquire-refused c now l e = rw e

refused_state-SameCore :
    (now : ℕ) (l : Limiter)
    → SameCore (refused_state now l) (record l { timestamps = purge l.window now l.timestamps })
refused_state-SameCore now l = elim (Bool-cases (has_room now l)) [
  | inl e ↦ rw e (wake_head-SameCore _ _)
  | inr e ↦ rw e (refl, refl, refl)
]

record_grant-clock :
    (c now : ℕ) (r : ℕ × Limiter) (h : History) → (record_grant c now r h).clock ≡ now
record_grant-clock c now (zero, l) h = refl
record_grant-clock c now (suc w, l) h = refl

room_left : (n m : ℕ) (b : Bool) → (ltb n m && b) ≡ true → n < m
room_left n m b h = ground (arith, h)

module _ (max window : ℕ) where
  attempt-IsBounded :
      (c now : ℕ) (h : History)
      → IsBounded max window h
      → h.clock ≤ now
      → IsBounded max window (record_grant c now (try_acquire c now h.limiter) h)
  attempt-IsBounded c now h b le =
      let l = h.limiter in
      elim (Bool-cases (has_room now l && is_head c l.queue)) [
        | inl e ↦
            let (m, w, ts) =
              wake_head-SameCore
                (record l {
                  timestamps = purge l.window now l.timestamps ++ now ∷ [];
                  queue = tail l.queue;
                })
                (tail l.queue) in
            rw (try_acquire-granted c now l e) (
              IsBounded-granted max window c now h (granted_state now l) b le
                (rw (b.same_max, b.same_window) at
                  (room_left (length (purge l.window now l.timestamps)) l.max_per_minute
                    (is_head c l.queue) e))
                (m ∙ b.same_max) (w ∙ b.same_window)
                (ts ∙ ap (λ z. purge z now l.timestamps ++ now ∷ []) b.same_window))
        | inr e ↦
            let (m, w, ts) = refused_state-SameCore now l in
            rw (try_acquire-refused c now l e) (
              rw
                (record_grant_refused c now _ (refused_state now l) h
                  (next_wait_pos l.window now (purge l.window now l.timestamps)))
                (IsBounded-refused max window now h (refused_state now l) b le (m ∙ b.same_max)
                  (w ∙ b.same_window) (ts ∙ ap (λ z. purge z now l.timestamps) b.same_window)))
      ]

  run-IsBounded :
      (es : List Event) (h : History)
      → Monotone h.clock es
      → IsBounded max window h
      → IsBounded max window (run es h)
  unfolding run
  run-IsBounded [] h mono b = b
  run-IsBounded (join c ∷ es) h mono b = run-IsBounded es (step (join c) h) mono (
      unfold enqueue in
      IsBounded-frame max window h (step (join c) h) (refl, refl, refl) refl refl b)
  run-IsBounded (attempt c now ∷ es) h (le, mono) b =
      run-IsBounded es (step (attempt c now) h)
        (rw (record_grant-clock c now (try_acquire c now h.limiter) h) mono)
        (attempt-IsBounded c now h b le)
  run-IsBounded (give_up c ∷ es) h mono b =
      run-IsBounded es (step (give_up c) h) mono (
        IsBounded-frame max window h (step (give_up c) h) (dequeue-SameCore c h.limiter) refl refl
          b)

  fresh-IsBounded :
      (l : Limiter)
      → l.max_per_minute ≡ max
      → l.window ≡ window
      → l.timestamps ≡ []
      → IsBounded max window (fresh l)
  unfolding fresh
  fresh-IsBounded l m w e = record {
    same_max = m;
    same_window = w;
    old = [];
    split = sym e;
    stale = tt;
    small = λ x. omega arith;
  }

-- However the callers interleave, as long as the clock does not go back, no window of the limiter's
-- length holds more granted calls than the configured maximum, or than one if that is 0.
pub run-rate_bounded :
    (max window : ℕ) (es : List Event)
    → Monotone 0 es
    → (x : ℕ)
    → count_in x window (run es (fresh (new_limiter max window))).granted
      ≤ (if max == 0 then 1 else max)
run-rate_bounded max window es mono x =
    (run-IsBounded (if max == 0 then 1 else max) window es (fresh (new_limiter max window))
        (unfold fresh in mono)
        (fresh-IsBounded _ window (new_limiter max window) (unfold new_limiter in refl)
          (unfold new_limiter in refl) (unfold new_limiter in refl))).small
      x
