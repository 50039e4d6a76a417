-- ===== src/Matching/Strip.antt =====
-- stripProjectKeyPrefix: what is left of a component.
use mathlib.Core.List.{append_assoc}
use sonar_migration_tool.Common.{
  ℕ, zero, suc, ◌≤◌, ◌≡◌, refl, sym, ap, ◌∙◌, ◌⊎◌, inl, inr, true, none, some, [], ◌∷◌, ◌++◌,
  length, length-append, arith, ◌==◌, ==_iff, Bool-cases, Option-cases, some-inj, none_not_some,
}
use sonar_migration_tool.Matching.Defs.{
  Text, cut_colon, has_slash, strip_loop, strip_project_key_prefix,
}

-- What is cut off and what is left make up the text.
cut_colon-append :
    (s before after : Text) → cut_colon s ≡ some (before, after) → s ≡ before ++ b':' ∷ after
unfolding cut_colon
cut_colon-append [] before after e = absurd (none_not_some e)
cut_colon-append (c ∷ s) before after e = elim (Bool-cases (c == b':')) [
  | inl colon ↦
      let pair = some-inj (rw (colon, cut_colon) at e) in
      let left : [] ≡ before = ap (λ p. p.0) pair in
      let right : s ≡ after = ap (λ p. p.1) pair in
      rw (sym left, sym right) (ap (λ d. d ∷ s) ((==_iff c b':').0 colon))
  | inr other ↦ elim (Option-cases (cut_colon s)) [
    | inl nowhere ↦ absurd (none_not_some (rw (other, nowhere, cut_colon) at e))
    | inr (p, found) ↦
        let pair = some-inj (rw (other, found, cut_colon) at e) in
        let left : c ∷ p.0 ≡ before = ap (λ q. q.0) pair in
        let right : p.1 ≡ after = ap (λ q. q.1) pair in
        rw (sym left, sym right) (ap (λ t. c ∷ t) (cut_colon-append s p.0 p.1 found))
  ]
]

-- A file path by the code's rule: no colon, or a slash before the first one.
abbrev pub Bare : Text → Type 0
Bare s =
    (cut_colon s ≡ none) ⊎ ((p : Text × Text) × (cut_colon s ≡ some p) × (has_slash p.0 ≡ true))

strip_loop-Bare :
    (fuel : ℕ) (s : Text)
    → length s ≤ fuel
    → Bare (strip_loop fuel s) × ((cut : Text) × (s ≡ cut ++ strip_loop fuel s))
unfolding strip_loop
strip_loop-Bare zero [] h = (inl refl, ([], refl))
strip_loop-Bare zero (c ∷ s) h = absurd (omega arith)
strip_loop-Bare (suc fuel) s h = elim (Option-cases (cut_colon s)) [
  | inl nowhere ↦ rw (nowhere, strip_loop) (inl nowhere, ([], refl))
  | inr (p, found) ↦ elim (Bool-cases (has_slash p.0)) [
    | inl path ↦ rw (found, path, strip_loop) (inr (p, found, path), ([], refl))
    | inr key ↦
        let split = cut_colon-append s p.0 p.1 found in
        let shorter : length p.1 ≤ fuel =
          omega (arith, h, ap length split, length-append p.0 (b':' ∷ p.1)) in
        let (bare, (cut, whole)) = strip_loop-Bare fuel p.1 shorter in
        rw (found, key, strip_loop)
          (
            bare,
            (
              p.0 ++ b':' ∷ cut,
              split
                  ∙ ap (λ t. p.0 ++ b':' ∷ t) whole
                  ∙ sym (append_assoc p.0 (b':' ∷ cut) (strip_loop fuel p.1)),
            ),
          )
  ]
]

-- What is left of a component is its end, and a file path: no colon stands in it before a slash.
pub strip_project_key_prefix-Bare :
    (component : Text)
    → Bare (strip_project_key_prefix component)
      × ((cut : Text) × (component ≡ cut ++ strip_project_key_prefix component))
unfolding strip_project_key_prefix
strip_project_key_prefix-Bare component = strip_loop-Bare (length component) component (omega arith)
