-- ===== src/Limiter/Wake.antt =====
-- Who is notified when the queue of the limiter in ratelimiter.go changes.
use sonar_migration_tool.Common.{
  ℕ, ◌≡◌, refl, inl, inr, true, ◌&&◌, List, [], ◌∷◌, arith, Bool-cases,
}
use sonar_migration_tool.Limiter.Defs.{
  Limiter, contains, wake_head, tail, try_acquire, remove_first, dequeue, is_head, has_room,
}
use sonar_migration_tool.Limiter.Rate.{try_acquire-granted, try_acquire-refused}

-- The head of the queue, if there is one, has a notification pending.
abbrev Notified : List ℕ → List ℕ → Type 0
Notified [] pending = Unit
Notified (c ∷ q) pending = contains c pending ≡ true

abbrev pub HeadNotified : Limiter → Type 0
HeadNotified l = Notified l.queue l.pending

wake_head-HeadNotified : (l : Limiter) (q : List ℕ) → l.queue ≡ q → HeadNotified (wake_head l q)
unfolding wake_head contains
wake_head-HeadNotified l [] e = rw e tt
wake_head-HeadNotified l (c ∷ q) e = elim (Bool-cases (contains c l.pending)) [
  | inl h ↦ rw h (rw e h)
  | inr h ↦ rw h (rw e (ground arith))
]

-- An attempt that finds a free slot, whether it takes it or not, leaves the head of the queue
-- notified; and so does a caller that leaves the queue.
pub wakes_head :
    (c now : ℕ) (l : Limiter)
    → (has_room now l ≡ true → HeadNotified (try_acquire c now l).1)
      × (contains c l.queue ≡ true → HeadNotified (dequeue c l))
unfolding dequeue
wakes_head c now l = (
  λ room. elim (Bool-cases (has_room now l && is_head c l.queue)) [
    | inl e ↦ rw (try_acquire-granted c now l e) (wake_head-HeadNotified _ (tail l.queue) refl)
    | inr e ↦ rw (try_acquire-refused c now l e) (rw room (wake_head-HeadNotified _ l.queue refl))
  ],
  λ here. rw here (wake_head-HeadNotified _ (remove_first c l.queue) refl),
)
