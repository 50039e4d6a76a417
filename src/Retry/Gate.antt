-- ===== src/Retry/Gate.antt =====
-- The rate-limit gate of retry.go: a shared deadline before which no request starts.
use sonar_migration_tool.Common.{
  ℕ, zero, suc, ◌+◌, ◌-◌, ◌≤◌, ◌≡◌, refl, inl, inr, Bool, true, false, ◌&&◌, ◌||◌, List, [], ◌∷◌,
  arith, All, ltb, leb, if◌then◌else◌, Bool-cases,
}

-- rateLimitGate, by its field `blocked`; the zero time is 0. `extend` returns what the call adds to
-- the pending pause, beside the new deadline.
unfoldable pub extend : ℕ → ℕ → ℕ → ℕ × ℕ
extend now until blocked =
    let effective_prev = if ltb blocked now then now else blocked in
    let blocked' = if ltb blocked until then until else blocked in
    (if ltb blocked' effective_prev then 0 else blocked' - effective_prev, blocked')

-- waitIfBlocked: how long a request that starts now waits for the deadline.
unfoldable pub wait_if_blocked : ℕ → ℕ → ℕ
wait_if_blocked now blocked = if ltb now blocked then blocked - now else 0

-- A call of `extend`: when it is made and the deadline that it asks for.
pub record Call : Type 0 where
  pub now : ℕ
  pub until : ℕ

-- The pauses that a sequence of calls reports, in all, and the deadline that it leaves.
unfoldable pub extend_all : List Call → ℕ → ℕ × ℕ
extend_all [] blocked = (0, blocked)
extend_all (c ∷ cs) blocked =
    let (added, blocked') = extend c.now c.until blocked in
    let (rest, last) = extend_all cs blocked' in (added + rest, last)

-- The calls are made in the order of time, from `start` on.
abbrev pub InTime : ℕ → List Call → Type 0
InTime start [] = Unit
InTime start (c ∷ cs) = (start ≤ c.now) × InTime c.now cs

-- How much of the time from `t` on is blocked by a deadline.
abbrev ahead : ℕ → ℕ → ℕ
ahead t blocked = blocked - t

extend-le :
    (now until blocked start : ℕ)
    → start ≤ now
    → (blocked ≤ (extend now until blocked).1)
      × ((extend now until blocked).0 + ahead start blocked
          ≤ ahead start (extend now until blocked).1)
unfolding extend
extend-le now until blocked start h = ground arith

-- The same from an earlier start.
ahead_earlier :
    (added b last now start : ℕ)
    → start ≤ now
    → b ≤ last
    → added + ahead now b ≤ ahead now last
    → added + ahead start b ≤ ahead start last
ahead_earlier added b last now start h le s = omega arith

extend_all-le :
    (cs : List Call) (start blocked : ℕ)
    → InTime start cs
    → (blocked ≤ (extend_all cs blocked).1)
      × ((extend_all cs blocked).0 + ahead start blocked ≤ ahead start (extend_all cs blocked).1)
unfolding extend_all
extend_all-le [] start blocked h = (omega arith, omega arith)
extend_all-le (c ∷ cs) start blocked (h, hs) =
    let b' = (extend c.now c.until blocked).1 in
    let (grows, sum) = extend_all-le cs c.now b' hs in
    let (grows', sum') = extend-le c.now c.until blocked start h in
    let sum'' =
      ahead_earlier (extend_all cs b').0 b' (extend_all cs b').1 c.now start h grows sum in
    (omega arith, omega arith)

extend-until : (now until blocked : ℕ) → until ≤ (extend now until blocked).1
unfolding extend
extend-until now until blocked = ground arith

extend_all-until :
    (cs : List Call) (start blocked : ℕ)
    → InTime start cs
    → All (λ c. c.until ≤ (extend_all cs blocked).1) cs
unfolding extend_all
extend_all-until [] start blocked h = tt
extend_all-until (c ∷ cs) start blocked (h, hs) =
    let b' = (extend c.now c.until blocked).1 in
    (
      omega (arith, (extend_all-le cs c.now b' hs).0, extend-until c.now c.until blocked),
      extend_all-until cs c.now b' hs,
    )

-- Whether a gate with these calls is closed at a time: one of them has been made by then whose
-- deadline is still to come.
unfoldable pub closed_at : List Call → ℕ → Bool
closed_at [] t = false
closed_at (c ∷ cs) t = (leb c.now t && ltb t c.until) || closed_at cs t

-- How many of the times below a horizon pass a test.
unfoldable pub count_times : (ℕ → Bool) → ℕ → ℕ
count_times test zero = 0
count_times test (suc t) = if test t then suc (count_times test t) else count_times test t

-- How long the gate is closed before a horizon.
abbrev pub closed_time : List Call → ℕ → ℕ
closed_time cs horizon = count_times (closed_at cs) horizon

-- The times from one on and before another.
abbrev between : ℕ → ℕ → ℕ → Bool
between a b t = leb a t && ltb t b

count_between : (a b n : ℕ) → count_times (between a b) n ≡ (if ltb n b then n else b) - a
unfolding count_times
count_between a b zero = ground arith
count_between a b (suc n) = ground (arith, count_between a b n)

count_between_all : (a b n : ℕ) → b ≤ n → count_times (between a b) n ≡ b - a
count_between_all a b n h = ground (arith, count_between a b n, h)

-- Two tests that never pass together.
count_or :
    (f g both : ℕ → Bool) (n : ℕ)
    → ((t : ℕ) → both t ≡ (f t || g t))
    → ((t : ℕ) → (f t && g t) ≡ false)
    → count_times both n ≡ count_times f n + count_times g n
unfolding count_times
count_or f g both zero split apart = refl
count_or f g both (suc n) split apart =
    ground (arith, count_or f g both n split apart, split n, apart n)

count_none : (n : ℕ) → count_times (λ t. false) n ≡ 0
unfolding count_times
count_none zero = refl
count_none (suc n) = count_none n

-- A gate that is blocked until a deadline, and then by the calls.
abbrev covers : ℕ → ℕ → List Call → ℕ → Bool
covers start blocked cs t = between start blocked t || closed_at cs t

closed_at-after :
    (cs : List Call) (start t : ℕ) → InTime start cs → ltb t start ≡ true → closed_at cs t ≡ false
unfolding closed_at
closed_at-after [] start t h e = refl
closed_at-after (c ∷ cs) start t (h, hs) e =
    ground (arith, h, e, closed_at-after cs c.now t hs (ground (arith, h, e)))

abbrev earlier : ℕ → ℕ → ℕ
earlier a b = if ltb a b then a else b

earlier-le : (a b : ℕ) → earlier a b ≤ a
earlier-le a b = ground arith

-- A call parts the time that is blocked anyway until it is made from what is blocked after it.
covers-split :
    (c : Call) (cs : List Call) (start blocked t : ℕ)
    → InTime start (c ∷ cs)
    → let before = between start (earlier blocked c.now) t in
      let after = covers c.now (extend c.now c.until blocked).1 cs t in
      (covers start blocked (c ∷ cs) t ≡ (before || after)) × ((before && after) ≡ false)
unfolding closed_at extend
covers-split c cs start blocked t (h, hs) = elim (Bool-cases (ltb t c.now)) [
  | inl early ↦
      let none_yet = closed_at-after cs c.now t hs early in
      (ground (arith, h, early, none_yet), ground (arith, h, early, none_yet))
  | inr late ↦ (ground (arith, h, late), ground (arith, h, late))
]

extend_added :
    (now until blocked start : ℕ)
    → start ≤ now
    → (extend now until blocked).0 + (blocked - start)
      ≡ (earlier blocked now - start) + ((extend now until blocked).1 - now)
unfolding extend
extend_added now until blocked start h = ground arith

extend_all-count :
    (cs : List Call) (start blocked horizon : ℕ)
    → InTime start cs
    → (extend_all cs blocked).1 ≤ horizon
    → (extend_all cs blocked).0 + (blocked - start) ≡ count_times (covers start blocked cs) horizon
unfolding extend_all closed_at
extend_all-count [] start blocked horizon h le =
    let sum =
      count_or (between start blocked) (λ t. false) (covers start blocked []) horizon (λ t. refl)
        (λ t. ground arith) in
    omega (arith, sum, count_between_all start blocked horizon le, count_none horizon)
extend_all-count (c ∷ cs) start blocked horizon (h, hs) le =
    let b' = (extend c.now c.until blocked).1 in
    let m = earlier blocked c.now in
    let rest = extend_all-count cs c.now b' horizon hs le in
    let sum =
      count_or (between start m) (covers c.now b' cs) (covers start blocked (c ∷ cs)) horizon
        (λ t. (covers-split c cs start blocked t (h, hs)).0)
        (λ t. (covers-split c cs start blocked t (h, hs)).1) in
    let grows = (extend_all-le cs c.now b' hs).0 in
    let grows' = (extend-le c.now c.until blocked start h).0 in
    let m_le : m ≤ horizon = omega (arith, earlier-le blocked c.now, grows, grows', le) in
    omega (
      arith,
      rest,
      sum,
      count_between_all start m horizon m_le,
      extend_added c.now c.until blocked start h,
    )

-- The pauses that the callers of a gate report add up to exactly the time that the gate is closed up
-- to any horizon from the final deadline on: the time at which some call has been made whose deadline
-- is still to come, each instant counted once however many requests park on the same window. The
-- deadline is at least what each caller asked for.
pub extend_all-closed_time :
    (cs : List Call) (start horizon : ℕ)
    → InTime start cs
    → (extend_all cs 0).1 ≤ horizon
    → ((extend_all cs 0).0 ≡ closed_time cs horizon) × All (λ c. c.until ≤ (extend_all cs 0).1) cs
extend_all-closed_time cs start horizon h le =
    let sum =
      count_or (between start 0) (closed_at cs) (covers start 0 cs) horizon (λ t. refl)
        (λ t. ground arith) in
    (
      omega (
        arith,
        sum,
        extend_all-count cs start 0 horizon h le,
        count_between_all start 0 horizon (omega arith),
      ),
      extend_all-until cs start 0 h,
    )
