-- ===== src/Limiter/Bound.antt =====
-- The invariant behind the rate bound, and the two outcomes of an attempt.
use mathlib.Core.List.{append_assoc}
use sonar_migration_tool.Common.{
  ℕ, zero, suc, ◌+◌, ◌≤◌, ◌<◌, ◌≡◌, refl, sym, ap, ◌∙◌, inl, inr, ◌&&◌, List, [], ◌∷◌, ◌++◌, arith,
  length, All, All-append, ltb, leb, if◌then◌else◌, Bool-cases, ltb→lt,
}
use sonar_migration_tool.Limiter.Defs.{
  Limiter, contains, wake_head, purge, next_wait, dequeue, Event, join, attempt, give_up, History,
  record_grant,
}

-- How many of the times lie in [x, x + window].
abbrev pub count_in : ℕ → ℕ → List ℕ → ℕ
count_in x window [] = 0
count_in x window (t ∷ ts) =
    let rest = count_in x window ts in if leb x t && leb t (x + window) then suc rest else rest

count_in-append :
    (x window : ℕ) (xs ys : List ℕ)
    → count_in x window (xs ++ ys) ≡ count_in x window xs + count_in x window ys
count_in-append x window [] ys = omega arith
count_in-append x window (t ∷ xs) ys = ground (arith, count_in-append x window xs ys)

count_in-le-length : (x window : ℕ) (ts : List ℕ) → count_in x window ts ≤ length ts
count_in-le-length x window [] = omega arith
count_in-le-length x window (t ∷ ts) = ground (arith, count_in-le-length x window ts)

-- Times before `now - window` are in no window that reaches `now`.
abbrev Stale : ℕ → ℕ → ℕ → Type 0
Stale window now t = t + window < now

count_in_past :
    (x window now : ℕ) (ts : List ℕ)
    → All (Stale window now) ts
    → now ≤ x + window
    → count_in x window ts ≡ 0
count_in_past x window now [] a h = refl
count_in_past x window now (t ∷ ts) (s, a) h = ground (arith, count_in_past x window now ts a h)

Stale-later :
    (window now later : ℕ) (ts : List ℕ)
    → now ≤ later
    → All (Stale window now) ts
    → All (Stale window later) ts
Stale-later window now later [] le a = tt
Stale-later window now later (t ∷ ts) le (s, a) =
    (omega arith, Stale-later window now later ts le a)

-- What `purge` drops.
dropped : ℕ → ℕ → List ℕ → List ℕ
dropped window now [] = []
dropped window now (t ∷ ts) =
    let rest = dropped window now ts in if ltb (t + window) now then t ∷ rest else []

dropped-append-purge :
    (window now : ℕ) (ts : List ℕ) → ts ≡ dropped window now ts ++ purge window now ts
unfolding dropped purge
dropped-append-purge window now [] = refl
dropped-append-purge window now (t ∷ ts) = ground (arith, dropped-append-purge window now ts)

dropped-Stale : (window now : ℕ) (ts : List ℕ) → All (Stale window now) (dropped window now ts)
unfolding dropped
dropped-Stale window now [] = tt
dropped-Stale window now (t ∷ ts) = elim (Bool-cases (ltb (t + window) now)) [
  | inl e ↦ rw e (ltb→lt (t + window) now e, dropped-Stale window now ts)
  | inr e ↦ rw e tt
]

-- Waking the head touches no field but `pending`.
abbrev pub SameCore : Limiter → Limiter → Type 0
SameCore l k =
    (l.max_per_minute ≡ k.max_per_minute) × (l.window ≡ k.window) × (l.timestamps ≡ k.timestamps)

pub wake_head-SameCore : (l : Limiter) (q : List ℕ) → SameCore (wake_head l q) l
unfolding wake_head
wake_head-SameCore l [] = (refl, refl, refl)
wake_head-SameCore l (c ∷ q) = ground arith

pub dequeue-SameCore : (c : ℕ) (l : Limiter) → SameCore (dequeue c l) l
unfolding dequeue
dequeue-SameCore c l = elim (Bool-cases (contains c l.queue)) [
  | inl e ↦ rw e (wake_head-SameCore _ _)
  | inr e ↦ rw e (refl, refl, refl)
]

pub next_wait_pos : (window now : ℕ) (ts : List ℕ) → 0 < next_wait window now ts
unfolding next_wait
next_wait_pos window now [] = omega arith
next_wait_pos window now (t ∷ ts) = ground arith

pub record_grant_refused :
    (c now w : ℕ) (l : Limiter) (h : History)
    → 0 < w
    → record_grant c now (w, l) h ≡ record h { limiter = l; clock = now }
record_grant_refused c now zero l h lt = elim lt [ ]
record_grant_refused c now (suc w) l h lt = refl

-- The clock never goes back.
abbrev pub Monotone : ℕ → List Event → Type 0
Monotone clock [] = Unit
Monotone clock (join c ∷ es) = Monotone clock es
Monotone clock (attempt c now ∷ es) = (clock ≤ now) × Monotone now es
Monotone clock (give_up c ∷ es) = Monotone clock es

module _ (max window : ℕ) where
  -- The limiter keeps its bounds; the grants are those that left the window and the timestamps; and
  -- no window holds more grants than the maximum.
  pub record IsBounded (h : History) : Type 0 where
    pub same_max : h.limiter.max_per_minute ≡ max
    pub same_window : h.limiter.window ≡ window
    pub old : List ℕ
    pub split : h.granted ≡ old ++ h.limiter.timestamps
    pub stale : All (Stale window h.clock) old
    pub small : (x : ℕ) → count_in x window h.granted ≤ max

  -- One more grant, when fewer than the maximum are in the window.
  grant_small :
      (old ts : List ℕ) (now x : ℕ)
      → All (Stale window now) old
      → length ts < max
      → count_in x window (old ++ ts) ≤ max
      → count_in x window ((old ++ ts) ++ now ∷ []) ≤ max
  grant_small old ts now x stale room small = elim (Bool-cases (leb now (x + window))) [
    | inl e ↦ ground (
      arith,
      count_in-append x window (old ++ ts) (now ∷ []),
      count_in-append x window old ts,
      count_in_past x window now old stale,
      count_in-le-length x window ts,
    )
    | inr e ↦ ground (arith, count_in-append x window (old ++ ts) (now ∷ []), e)
  ]

  -- A change that leaves the timestamps, the grants and the clock alone.
  pub IsBounded-frame :
      (h h' : History)
      → SameCore h'.limiter h.limiter
      → h'.granted ≡ h.granted
      → h'.clock ≡ h.clock
      → IsBounded h
      → IsBounded h'
  IsBounded-frame h h' (m, w, ts) g c b = record {
    same_max = m ∙ b.same_max;
    same_window = w ∙ b.same_window;
    old = b.old;
    split = g ∙ b.split ∙ ap (λ z. b.old ++ z) (sym ts);
    stale = rw c b.stale;
    small = λ x. rw g (b.small x);
  }

  -- An attempt that is granted.
  pub IsBounded-granted :
      (c now : ℕ) (h : History) (l : Limiter)
      → IsBounded h
      → h.clock ≤ now
      → length (purge window now h.limiter.timestamps) < max
      → l.max_per_minute ≡ max
      → l.window ≡ window
      → l.timestamps ≡ purge window now h.limiter.timestamps ++ now ∷ []
      → IsBounded (record_grant c now (0, l) h)
  IsBounded-granted c now h l b le room m w e =
      let (m', w', e') = dequeue-SameCore c l in
      let ts = h.limiter.timestamps in
      let whole : h.granted ≡ (b.old ++ dropped window now ts) ++ purge window now ts =
        b.split
        ∙ ap (λ z. b.old ++ z) (dropped-append-purge window now ts)
        ∙ sym (append_assoc b.old (dropped window now ts) (purge window now ts)) in
      let stale : All (Stale window now) (b.old ++ dropped window now ts) =
        All-append (Stale window now) b.old (dropped window now ts)
          (Stale-later window h.clock now b.old le b.stale) (dropped-Stale window now ts) in
      record {
        same_max = m' ∙ m;
        same_window = w' ∙ w;
        old = b.old ++ dropped window now ts;
        split =
            ap (λ z. z ++ now ∷ []) whole
            ∙ append_assoc (b.old ++ dropped window now ts) (purge window now ts) (now ∷ [])
            ∙ ap (λ z. (b.old ++ dropped window now ts) ++ z) (sym (e' ∙ e));
        stale = stale;
        small = λ x. rw whole (
            grant_small (b.old ++ dropped window now ts) (purge window now ts) now x stale room
              (rw whole at (b.small x)));
      }

  -- An attempt that is refused.
  pub IsBounded-refused :
      (now : ℕ) (h : History) (l : Limiter)
      → IsBounded h
      → h.clock ≤ now
      → l.max_per_minute ≡ max
      → l.window ≡ window
      → l.timestamps ≡ purge window now h.limiter.timestamps
      → IsBounded (record h { limiter = l; clock = now })
  IsBounded-refused now h l b le m w e =
      let ts = h.limiter.timestamps in
      record {
        same_max = m;
        same_window = w;
        old = b.old ++ dropped window now ts;
        split =
            b.split
            ∙ ap (λ z. b.old ++ z) (dropped-append-purge window now ts)
            ∙ sym (append_assoc b.old (dropped window now ts) (purge window now ts))
            ∙ ap (λ z. (b.old ++ dropped window now ts) ++ z) (sym e);
        stale =
            All-append (Stale window now) b.old (dropped window now ts)
              (Stale-later window h.clock now b.old le b.stale) (dropped-Stale window now ts);
        small = b.small;
      }
