-- ===== src/Limiter/Fair.antt =====
-- The order in which the limiter of ratelimiter.go serves its callers.
use mathlib.Core.List.{append_assoc}
use sonar_migration_tool.Common.{
  ℕ, ◌≡◌, refl, ap, inl, inr, Bool, true, false, ◌&&◌, List, [], ◌∷◌, ◌++◌, arith, ◌==◌, Bool-cases,
  ==_iff,
}
use sonar_migration_tool.Limiter.Defs.{
  Limiter, contains, wake_head, enqueue, purge, is_head, tail, try_acquire, remove_first, dequeue,
  Event, join, attempt, give_up, History, record_grant, step, run, fresh, has_room, granted_state,
  refused_state,
}
use sonar_migration_tool.Limiter.Bound.{next_wait_pos, record_grant_refused}
use sonar_migration_tool.Limiter.Rate.{try_acquire-granted, try_acquire-refused}

-- The one list is the other with some elements left out.
pub data Within : List ℕ → List ℕ → Type 0 where
  nil : Within [] []
  skip : {x : ℕ} {xs ys : List ℕ} → Within xs ys → Within xs (x ∷ ys)
  keep : {x : ℕ} {xs ys : List ℕ} → Within xs ys → Within (x ∷ xs) (x ∷ ys)

Within-refl : (xs : List ℕ) → Within xs xs
Within-refl [] = nil
Within-refl (x ∷ xs) = keep (Within-refl xs)

Within-trans : {xs ys zs : List ℕ} → Within xs ys → Within ys zs → Within xs zs
Within-trans a nil = a
Within-trans a (skip b) = skip (Within-trans a b)
Within-trans (skip a) (keep b) = skip (Within-trans a b)
Within-trans (keep a) (keep b) = keep (Within-trans a b)

Within-append_left : (xs : List ℕ) {ys zs : List ℕ} → Within ys zs → Within (xs ++ ys) (xs ++ zs)
Within-append_left [] w = w
Within-append_left (x ∷ xs) w = keep (Within-append_left xs w)

Within-append_right : {xs ys : List ℕ} (zs : List ℕ) → Within xs ys → Within (xs ++ zs) (ys ++ zs)
Within-append_right zs nil = Within-refl zs
Within-append_right zs (skip w) = skip (Within-append_right zs w)
Within-append_right zs (keep w) = keep (Within-append_right zs w)

Within-remove_first : (c : ℕ) (q : List ℕ) → Within (remove_first c q) q
unfolding remove_first
Within-remove_first c [] = nil
Within-remove_first c (x ∷ q) = elim (Bool-cases (x == c)) [
  | inl e ↦ rw e (skip (Within-refl q))
  | inr e ↦ rw e (keep (Within-remove_first c q))
]

queue-wake_head : (l : Limiter) (q : List ℕ) → (wake_head l q).queue ≡ l.queue
unfolding wake_head
queue-wake_head l [] = refl
queue-wake_head l (c ∷ q) = ground arith

Within-dequeue : (c : ℕ) (l : Limiter) → Within (dequeue c l).queue l.queue
unfolding dequeue
Within-dequeue c l = elim (Bool-cases (contains c l.queue)) [
  | inl e ↦ rw e (rw queue-wake_head (Within-remove_first c l.queue))
  | inr e ↦ rw e (Within-refl l.queue)
]

queue-refused_state : (now : ℕ) (l : Limiter) → (refused_state now l).queue ≡ l.queue
queue-refused_state now l = elim (Bool-cases (has_room now l)) [
  | inl e ↦ rw e (queue-wake_head _ l.queue)
  | inr e ↦ rw e refl
]

-- A caller that is served stood at the head of the queue.
served_head : (c : ℕ) (room : Bool) (q : List ℕ) → (room && is_head c q) ≡ true → q ≡ c ∷ tail q
served_head c room [] e = absurd (let k : (room && false) ≡ true = e in ground (arith, k))
served_head c room (x ∷ q) e =
    let k : x ≡ c = (==_iff x c).0 (ground (arith, e)) in ap (λ z. z ∷ q) k

-- Those who were served and those who wait, in order, are among the arrivals, in order.
abbrev pub InOrder : History → Type 0
InOrder h = Within (h.served ++ h.limiter.queue) h.arrivals

attempt-InOrder :
    (c now : ℕ) (h : History)
    → InOrder h
    → InOrder (record_grant c now (try_acquire c now h.limiter) h)
attempt-InOrder c now h w =
    let l = h.limiter in
    elim (Bool-cases (has_room now l && is_head c l.queue)) [
      | inl e ↦
          let q = served_head c (has_room now l) l.queue e in
          rw (try_acquire-granted c now l e) (
            Within-trans
              (Within-append_left (h.served ++ c ∷ []) (Within-dequeue c (granted_state now l)))
              (rw (queue-wake_head, append_assoc) (rw q at w)))
      | inr e ↦ rw (try_acquire-refused c now l e) (
          rw
            (record_grant_refused c now _ (refused_state now l) h
              (next_wait_pos l.window now (purge l.window now l.timestamps)))
            (rw queue-refused_state w))
    ]

run-InOrder_from : (es : List Event) (h : History) → InOrder h → InOrder (run es h)
unfolding run
run-InOrder_from [] h w = w
run-InOrder_from (join c ∷ es) h w =
    run-InOrder_from es (step (join c) h)
      (unfold enqueue in rw (← append_assoc) (Within-append_right (c ∷ []) w))
run-InOrder_from (attempt c now ∷ es) h w =
    run-InOrder_from es (step (attempt c now) h) (attempt-InOrder c now h w)
run-InOrder_from (give_up c ∷ es) h w =
    run-InOrder_from es (step (give_up c) h)
      (Within-trans (Within-append_left h.served (Within-dequeue c h.limiter)) w)

-- Callers are served in the order in which they joined: in every run, those who were served,
-- followed by those who still wait, make up a subsequence of the arrivals.
pub run-InOrder : (es : List Event) (l : Limiter) → l.queue ≡ [] → InOrder (run es (fresh l))
unfolding fresh
run-InOrder es l e = run-InOrder_from es (fresh l) (rw e nil)
