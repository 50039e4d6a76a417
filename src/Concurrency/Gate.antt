-- ===== src/Concurrency/Gate.antt =====
-- DynamicGate of migrate/concurrency.go: goroutines that load the limit and the count and swap the
-- count, in any order of these atomic steps, while the limit changes.
use sonar_migration_tool.Common.{
  ℕ, zero, suc, ◌+◌, ◌-◌, ◌≤◌, ◌<◌, ◌≡◌, List, [], ◌∷◌, arith, leb, ◌==◌, if◌then◌else◌, Bool-cases,
  inl, inr, ==_iff, All,
}

-- Where a goroutine is in Acquire and Release: outside; in tryAcquire, once it has the limit, or the
-- limit and the count; admitted.
pub data Phase : Type 0 where
  outside : Phase
  has_limit : ℕ → Phase
  has_count : ℕ → ℕ → Phase
  admitted : Phase

-- DynamicGate: the limiter's figure, the count of admitted units, and the goroutines.
pub record DynamicGate : Type 0 where
  pub limit : ℕ
  pub active : ℕ
  pub goroutines : List Phase

-- One atomic step of a goroutine that is in tryAcquire, or starts it, at a limit and a count: its
-- phase then, and the count then.
unfoldable pub advance : ℕ → ℕ → Phase → Phase × ℕ
advance limit active outside = (has_limit limit, active)
advance limit active (has_limit l) =
    if leb l active then (outside, active) else (has_count l active, active)
advance limit active (has_count l cur) =
    if active == cur then (admitted, cur + 1) else (has_limit l, active)
advance limit active admitted = (admitted, active)

-- Release of an admitted unit.
unfoldable pub leave : ℕ → Phase → Phase × ℕ
leave active admitted = (outside, active - 1)
leave active phase = (phase, active)

-- A step of the i-th goroutine.
unfoldable pub step_at : (Phase → Phase × ℕ) → ℕ → ℕ → List Phase → List Phase × ℕ
step_at f active i [] = ([], active)
step_at f active zero (p ∷ ps) = let (p', active') = f p in (p' ∷ ps, active')
step_at f active (suc i) (p ∷ ps) = let (ps', active') = step_at f active i ps in (p ∷ ps', active')

pub data GateEvent : Type 0 where
  acquiring releasing : ℕ → GateEvent
  limit_set : ℕ → GateEvent

unfoldable pub gate_step : DynamicGate → GateEvent → DynamicGate
unfolding step_at advance leave
gate_step g (acquiring i) =
    let (ps, active) = step_at (advance g.limit g.active) g.active i g.goroutines in
    record g { active = active; goroutines = ps }
gate_step g (releasing i) =
    let (ps, active) = step_at (leave g.active) g.active i g.goroutines in
    record g { active = active; goroutines = ps }
gate_step g (limit_set n) = record g { limit = n }

unfoldable pub run_gate : DynamicGate → List GateEvent → DynamicGate
unfolding gate_step
run_gate g [] = g
run_gate g (e ∷ es) = run_gate (gate_step g e) es

-- The admitted goroutines.
abbrev pub admitted_in : Phase → ℕ
admitted_in admitted = 1
admitted_in outside = 0
admitted_in (has_limit l) = 0
admitted_in (has_count l cur) = 0

unfoldable pub admitted_count : List Phase → ℕ
admitted_count [] = 0
admitted_count (p ∷ ps) = admitted_in p + admitted_count ps

-- What a goroutine has loaded is no larger than a bound, and a count that it will swap is below it.
abbrev pub Loaded : ℕ → Phase → Type 0
Loaded top outside = Unit
Loaded top (has_limit l) = l ≤ top
Loaded top (has_count l cur) = (l ≤ top) × (cur < l)
Loaded top admitted = Unit

-- The count is that of the admitted goroutines, and within a bound on the limits.
pub record Kept (top : ℕ) (g : DynamicGate) : Type 0 where
  pub within : g.active ≤ top
  pub limit_within : g.limit ≤ top
  pub counted : g.active ≡ admitted_count g.goroutines
  pub loaded : All (Loaded top) g.goroutines

-- What a step of one phase keeps, beside the other goroutines.
abbrev KeepsPhase : ℕ → ℕ → (Phase → Phase × ℕ) → Type 0
KeepsPhase top active f =
    (p : Phase) (others : ℕ)
    → Loaded top p
    → active ≡ others + admitted_in p
    → Loaded top (f p).0 × ((f p).1 ≡ others + admitted_in (f p).0) × ((f p).1 ≤ top)

step_at-keeps :
    (top active others i : ℕ) (f : Phase → Phase × ℕ) (ps : List Phase)
    → KeepsPhase top active f
    → active ≤ top
    → active ≡ others + admitted_count ps
    → All (Loaded top) ps
    → let (ps', active') = step_at f active i ps in
      (active' ≤ top) × (active' ≡ others + admitted_count ps') × All (Loaded top) ps'
unfolding step_at admitted_count
step_at-keeps top active others i f [] k le e a = (le, e, a)
step_at-keeps top active others zero f (p ∷ ps) k le e (l, a) =
    let (l', c, w) = k p (others + admitted_count ps) l (omega (arith, e)) in
    (w, omega (arith, c), (l', a))
step_at-keeps top active others (suc i) f (p ∷ ps) k le e (l, a) =
    let (w, c, a') =
      step_at-keeps top active (others + admitted_in p) i f ps k le (omega (arith, e)) a in
    (w, omega (arith, c), (l, a'))

advance-KeepsPhase :
    (top limit active : ℕ)
    → limit ≤ top
    → active ≤ top
    → KeepsPhase top active (advance limit active)
unfolding advance
advance-KeepsPhase top limit active h w outside others l e = (h, e, w)
advance-KeepsPhase top limit active h w (has_limit l') others l e =
    elim (Bool-cases (leb l' active)) [
      | inl full ↦ rw full (tt, e, w)
      | inr free ↦ rw free ((l, ground (arith, free)), e, w)
    ]
advance-KeepsPhase top limit active h w (has_count l' cur) others (l, below) e =
    elim (Bool-cases (active == cur)) [
      | inl same ↦
          let same' = (==_iff active cur).0 same in
          rw same (tt, omega (arith, e, same'), omega (arith, l, below))
      | inr moved ↦ rw moved (l, e, w)
    ]
advance-KeepsPhase top limit active h w admitted others l e = (tt, e, w)

leave-KeepsPhase : (top active : ℕ) → active ≤ top → KeepsPhase top active (leave active)
unfolding leave
leave-KeepsPhase top active w admitted others l e = (tt, omega (arith, e), omega (arith, w))
leave-KeepsPhase top active w outside others l e = (l, e, w)
leave-KeepsPhase top active w (has_limit l') others l e = (l, e, w)
leave-KeepsPhase top active w (has_count l' cur) others l e = (l, e, w)

-- The limits that are set are within a bound.
abbrev pub LimitsWithin : ℕ → List GateEvent → Type 0
LimitsWithin top [] = Unit
LimitsWithin top (limit_set n ∷ es) = (n ≤ top) × LimitsWithin top es
LimitsWithin top (acquiring i ∷ es) = LimitsWithin top es
LimitsWithin top (releasing i ∷ es) = LimitsWithin top es

-- However the goroutines' steps and the changes of the limit interleave, no more units are admitted
-- than the highest limit there has been, and the gate's count is that of the admitted ones.
pub run_gate-Kept :
    (top : ℕ) (g : DynamicGate) (es : List GateEvent)
    → Kept top g
    → LimitsWithin top es
    → Kept top (run_gate g es)
unfolding run_gate
run_gate-Kept top g [] k h = k
run_gate-Kept top g (acquiring i ∷ es) k h =
    let (w, c, a) =
      step_at-keeps top g.active 0 i (advance g.limit g.active) g.goroutines
        (advance-KeepsPhase top g.limit g.active k.limit_within k.within) k.within
        (omega (arith, k.counted)) k.loaded in
    run_gate-Kept top (gate_step g (acquiring i)) es
      (record { within = w; limit_within = k.limit_within; counted = omega (arith, c); loaded = a })
      h
run_gate-Kept top g (releasing i ∷ es) k h =
    let (w, c, a) =
      step_at-keeps top g.active 0 i (leave g.active) g.goroutines
        (leave-KeepsPhase top g.active k.within) k.within (omega (arith, k.counted)) k.loaded in
    run_gate-Kept top (gate_step g (releasing i)) es
      (record { within = w; limit_within = k.limit_within; counted = omega (arith, c); loaded = a })
      h
run_gate-Kept top g (limit_set n ∷ es) k (fits, h) =
    run_gate-Kept top (gate_step g (limit_set n)) es
      (record { within = k.within; limit_within = fits; counted = k.counted; loaded = k.loaded }) h
