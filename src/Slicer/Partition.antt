-- ===== src/Slicer/Partition.antt =====
-- What splitWindow of extract/slice.go does to the issues that a window selects.
use sonar_migration_tool.Common.{
  ℕ, ◌+◌, ◌-◌, ◌*◌, ◌/◌, ◌≤◌, ◌<◌, ◌≡◌, refl, ◌∙◌, Bool, true, false, Option, none, some, arith,
  ltb, leb, ltb→lt, ◌==◌, ◌||◌, ◌&&◌, Bool-cases, ◌⊎◌, inl, inr,
}
use sonar_migration_tool.Slicer.Windows.{
  second, max_duration, truncate, time_sub, format_sq_date, IssueWindow, splittable, mid,
  safe_to_request, split_window, Query, window_params,
}

abbrev after_bound : Option ℕ → ℕ → Bool
after_bound none t = true
after_bound (some a) t = leb a (t / second)

abbrev before_bound : Option ℕ → ℕ → Bool
before_bound none t = true
before_bound (some b) t = ltb (t / second) b

-- The search selects the issues created at or after createdAfter and before createdBefore.
abbrev pub selects : Query → ℕ → Bool
selects q t = after_bound q.created_after t && before_bound q.created_before t

-- Each issue of a window is in exactly one half, and the halves are narrower than it, of at least a
-- second each, and bounded by whole seconds.
pub record Halves (w left right : IssueWindow) : Type 0 where
  pub together :
      (t : ℕ)
      → selects (window_params w) t
        ≡ (selects (window_params left) t || selects (window_params right) t)
  pub apart : (t : ℕ) → (selects (window_params left) t && selects (window_params right) t) ≡ false
  pub left_narrower : second ≤ left.end - left.start
  pub right_narrower : second ≤ right.end - right.start
  pub joined : (left.end - left.start) + (right.end - right.start) ≡ w.end - w.start
  pub left_aligned : (truncate left.start ≡ left.start) × (truncate left.end ≡ left.end)
  pub right_aligned : (truncate right.start ≡ right.start) × (truncate right.end ≡ right.end)
  pub requestable : (safe_to_request left ≡ true) × (safe_to_request right ≡ true)

-- The seam is a whole second inside the window.
mid_of :
    (start end d : ℕ)
    → second < d
    → start + d ≤ end
    → start / second * second ≡ start
    → end / second * second ≡ end
    → (d ≡ end - start) ⊎ (max_duration ≡ d)
    → (start + second ≤ (start + d / 2) / second * second)
      × ((start + d / 2) / second * second + second ≤ end)
mid_of start end d wide fits s e (inl same) = (omega arith, omega arith)
mid_of start end d wide fits s e (inr long) = (omega arith, omega arith)

aligned_again : (t : ℕ) → truncate (truncate t) ≡ truncate t
unfolding truncate
aligned_again t = omega arith

mid_aligned : (w : IssueWindow) → truncate (mid w) ≡ mid w
unfolding mid
mid_aligned w = aligned_again (w.start + time_sub w.end w.start / 2)

-- The seam is a whole second inside the window.
pub mid_inside :
    (w : IssueWindow)
    → splittable w ≡ true
    → truncate w.start ≡ w.start
    → truncate w.end ≡ w.end
    → (w.start + second ≤ mid w) × (mid w + second ≤ w.end)
unfolding splittable mid time_sub truncate
mid_inside w wide s e = elim (Bool-cases (ltb max_duration (w.end - w.start))) [
  | inl long ↦
      let far = ltb→lt max_duration (w.end - w.start) long in
      rw long (mid_of w.start w.end max_duration (omega arith) (omega (arith, far)) s e (inr refl))
  | inr short ↦
      let wide' : second < w.end - w.start = ltb→lt second (w.end - w.start) (rw short at wide) in
      rw short (mid_of w.start w.end (w.end - w.start) wide' (omega (arith, wide')) s e (inl refl))
]

-- The bounds of the halves, on seconds.
halves_together :
    (open_start open_end : Bool) (a m b x : ℕ)
    → a ≤ m
    → m ≤ b
    → let lower = open_start || leb a x in
      let upper = open_end || ltb x b in
      ((lower && upper) ≡ ((lower && ltb x m) || (leb m x && upper)))
      × (((lower && ltb x m) && (leb m x && upper)) ≡ false)
halves_together open_start open_end a m b x h k = ground (arith, h, k)

selects_open :
    (open_start open_end : Bool) (start end t : ℕ)
    → let w : IssueWindow = record {
      start = start;
      end = end;
      open_start = open_start;
      open_end = open_end;
    } in
      selects (window_params w) t ≡ (
        (open_start || leb (start / second) (t / second))
        && (open_end || ltb (t / second) (end / second)))
unfolding window_params format_sq_date
selects_open true true start end t = refl
selects_open true false start end t = refl
selects_open false true start end t = refl
selects_open false false start end t = refl

requestable_of :
    (open_start open_end : Bool) (start end : ℕ)
    → start + second ≤ end
    → safe_to_request
        (record { start = start; end = end; open_start = open_start; open_end = open_end })
      ≡ true
unfolding safe_to_request format_sq_date
requestable_of open_start open_end start end h =
    let apart : (start / second == end / second) ≡ false = ground arith in rw apart (ground arith)

-- A window of whole seconds that is wider than one second is bisected into two: each issue that the
-- window selects is selected by exactly one of them, and no other issue by any; they are at least a
-- second wide, together as wide as the window, of whole seconds, and safe to request.
pub split_window-Halves :
    (w : IssueWindow)
    → splittable w ≡ true
    → truncate w.start ≡ w.start
    → truncate w.end ≡ w.end
    → Halves w (split_window w).0 (split_window w).1
unfolding split_window
split_window-Halves w wide s e =
    let (low, high) = mid_inside w wide s e in
    let cut = λ (t : ℕ).
      halves_together w.open_start w.open_end (w.start / second) (mid w / second) (w.end / second)
        (t / second) (omega (arith, low)) (omega (arith, high)) in
    let in_left = λ (t : ℕ). selects_open w.open_start false w.start (mid w) t in
    let in_right = λ (t : ℕ). selects_open false w.open_end (mid w) w.end t in
    record {
      together = λ t.
          rw (s, e)
            (selects_open w.open_start w.open_end w.start w.end t
              ∙ rw (in_left t) (rw (in_right t) (cut t).0));
      apart = λ t. rw (s, e) (rw (in_left t) (rw (in_right t) (cut t).1));
      left_narrower = rw s (omega (arith, low));
      right_narrower = rw e (omega (arith, high));
      joined = rw (s, e) (omega (arith, low, high));
      left_aligned = (aligned_again w.start, mid_aligned w);
      right_aligned = (mid_aligned w, aligned_again w.end);
      requestable = (
        rw s (requestable_of w.open_start false w.start (mid w) low),
        rw e (requestable_of false w.open_end (mid w) w.end high),
      );
    }
