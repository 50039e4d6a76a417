-- ===== src/Limiter/Defs.antt =====
-- The limiter's state and operations. Times and durations are nanoseconds. A waiter's channel is a
-- number; it is buffered by one, so what matters of it is whether a notification is pending.
use sonar_migration_tool.Common.{
  ℕ, zero, suc, ◌+◌, ◌-◌, Bool, true, false, ◌&&◌, List, [], ◌∷◌, ◌++◌, length, ltb, leb, ◌==◌,
  if◌then◌else◌,
}

-- SlidingWindowLimiter; `pending` lists the channels that hold a notification.
pub record Limiter : Type 0 where
  pub max_per_minute : ℕ
  pub window : ℕ
  pub timestamps : List ℕ
  pub queue : List ℕ
  pub pending : List ℕ

abbrev pub default_sliding_window : ℕ
default_sliding_window = 60_000_000_000

abbrev pub millisecond : ℕ
millisecond = 1_000_000

-- newSlidingWindowLimiter; a negative maximum is clamped as 0 is.
unfoldable pub new_limiter : ℕ → ℕ → Limiter
new_limiter max window = record {
  max_per_minute = if max == 0 then 1 else max;
  window = window;
  timestamps = [];
  queue = [];
  pending = [];
}

unfoldable pub contains : ℕ → List ℕ → Bool
contains c [] = false
contains c (x ∷ xs) = if x == c then true else contains c xs

-- wakeHead: a notification that is already pending is not sent again.
unfoldable pub wake_head : Limiter → List ℕ → Limiter
wake_head l [] = l
wake_head l (c ∷ rest) = if contains c l.pending then l else record l { pending = c ∷ l.pending }

-- enqueue
unfoldable pub enqueue : ℕ → Limiter → Limiter
enqueue c l = record l { queue = l.queue ++ c ∷ [] }

-- The loop over the prefix of timestamps before `now - window`.
unfoldable pub purge : ℕ → ℕ → List ℕ → List ℕ
purge window now [] = []
purge window now (t ∷ ts) =
    let rest = purge window now ts in if ltb (t + window) now then rest else t ∷ ts

abbrev pub is_head : ℕ → List ℕ → Bool
is_head c [] = false
is_head c (x ∷ xs) = x == c

abbrev pub tail : List ℕ → List ℕ
tail [] = []
tail (x ∷ xs) = xs

-- How long a caller that was refused sleeps.
unfoldable pub next_wait : ℕ → ℕ → List ℕ → ℕ
next_wait window now [] = millisecond
next_wait window now (t ∷ ts) = if leb (t + window) now then millisecond else t + window - now

-- The timestamps that are left after the purge are fewer than the maximum.
abbrev pub has_room : ℕ → Limiter → Bool
has_room now l = ltb (length (purge l.window now l.timestamps)) l.max_per_minute

-- The state after a grant: the call is recorded, the head is popped and the new head is woken.
abbrev pub granted_state : ℕ → Limiter → Limiter
granted_state now l =
    wake_head
      (record l { timestamps = purge l.window now l.timestamps ++ now ∷ []; queue = tail l.queue })
      (tail l.queue)

-- The state after a refusal: where a slot is free, the head is woken.
abbrev pub refused_state : ℕ → Limiter → Limiter
refused_state now l =
    let purged = record l { timestamps = purge l.window now l.timestamps } in
    if has_room now l then wake_head purged l.queue else purged

-- tryAcquire at the time `now`: the wait, which is 0 exactly if a slot was granted, and the state.
unfoldable pub try_acquire : ℕ → ℕ → Limiter → ℕ × Limiter
try_acquire c now l =
    if has_room now l && is_head c l.queue
    then (0, granted_state now l)
    else (next_wait l.window now (purge l.window now l.timestamps), refused_state now l)

-- The loop of `dequeue`: the queue without the first occurrence of the channel.
unfoldable pub remove_first : ℕ → List ℕ → List ℕ
remove_first c [] = []
remove_first c (x ∷ xs) = if x == c then xs else x ∷ remove_first c xs

-- dequeue
unfoldable pub dequeue : ℕ → Limiter → Limiter
dequeue c l =
    if contains c l.queue
    then wake_head (record l { queue = remove_first c l.queue }) (remove_first c l.queue)
    else l

-- The environment of concurrent callers of `Wait`: a caller joins the queue, a waiting caller tries
-- to acquire, or it gives up because its context is done. A granted caller's deferred `dequeue` is
-- the second half of its step.
pub data Event : Type 0 where
  join : ℕ → Event
  attempt : ℕ → ℕ → Event
  give_up : ℕ → Event

-- What an observer sees of the limiter beside its state: the arrivals, whom it served and when, and
-- the clock.
pub record History : Type 0 where
  pub limiter : Limiter
  pub arrivals : List ℕ
  pub served : List ℕ
  pub granted : List ℕ
  pub clock : ℕ

abbrev pub record_grant : ℕ → ℕ → ℕ × Limiter → History → History
record_grant c now (zero, l) h = record h {
  limiter = dequeue c l;
  served = h.served ++ c ∷ [];
  granted = h.granted ++ now ∷ [];
  clock = now;
}
record_grant c now (suc w, l) h = record h { limiter = l; clock = now }

unfoldable pub step : Event → History → History
step (join c) h = record h { limiter = enqueue c h.limiter; arrivals = h.arrivals ++ c ∷ [] }
step (attempt c now) h = record_grant c now (try_acquire c now h.limiter) h
step (give_up c) h = record h { limiter = dequeue c h.limiter }

unfoldable pub run : List Event → History → History
unfolding step
run [] h = h
run (e ∷ es) h = run es (step e h)

unfoldable pub fresh : Limiter → History
fresh l = record { limiter = l; arrivals = []; served = []; granted = []; clock = 0 }
