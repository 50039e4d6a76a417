-- ===== src/Limiter/Examples.antt =====
-- A run of the limiter with one slot a minute, and the theorems there.
use sonar_migration_tool.Common.{◌≡◌, refl, ◌≤◌, List, [], ◌∷◌, true, arith}
use sonar_migration_tool.Limiter.Defs.{
  Limiter, new_limiter, Event, join, attempt, give_up, run, fresh, step, try_acquire, enqueue,
  purge, next_wait, wake_head, dequeue, remove_first, contains, has_room,
}
use sonar_migration_tool.Limiter.Bound.{count_in}
use sonar_migration_tool.Limiter.Rate.{run-rate_bounded}
use sonar_migration_tool.Limiter.Fair.{InOrder, run-InOrder}
use sonar_migration_tool.Limiter.Wake.{wakes_head}

abbrev events : List Event
events =
    join 7
    ∷ join 8
    ∷ join 9
    ∷ attempt 8 5
    ∷ attempt 7 10
    ∷ attempt 8 50
    ∷ give_up 8
    ∷ attempt 9 111
    ∷ []

-- Caller 7 is served at 10, caller 8 gives up, and caller 9 has to wait for the window to pass.
served_run : (run events (fresh (new_limiter 0 100))).served ≡ 7 ∷ 9 ∷ []
unfolding run fresh new_limiter step try_acquire enqueue purge next_wait wake_head dequeue
    remove_first contains
served_run = refl

run-rate_bounded_example : count_in 10 100 (run events (fresh (new_limiter 0 100))).granted ≤ 1
run-rate_bounded_example = run-rate_bounded 0 100 events (omega arith) 10

run-InOrder_example : InOrder (run events (fresh (new_limiter 0 100)))
unfolding new_limiter
run-InOrder_example = run-InOrder events (new_limiter 0 100) refl

-- Caller 8 waits behind caller 7, which is the head.
abbrev two_waiting : Limiter
two_waiting = enqueue 8 (enqueue 7 (new_limiter 0 100))

room_for_one : has_room 5 two_waiting ≡ true
unfolding new_limiter enqueue purge
room_for_one = refl

first_waits : contains 7 two_waiting.queue ≡ true
unfolding contains new_limiter enqueue
first_waits = refl

-- When caller 7 is served or gives up, caller 8 has the notification.
wakes_head_example :
    (contains 8 (try_acquire 7 5 two_waiting).1.pending ≡ true)
    × (contains 8 (dequeue 7 two_waiting).pending ≡ true)
unfolding try_acquire new_limiter enqueue purge dequeue remove_first wake_head contains
wakes_head_example =
    ((wakes_head 7 5 two_waiting).0 room_for_one, (wakes_head 7 5 two_waiting).1 first_waits)
