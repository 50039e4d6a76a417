-- ===== src/Common/Names.antt =====
-- Go's `map[string]bool` used as a set (every stored value is true) and `map[string]T`, as lists
-- and association lists over native strings. A set's iteration order is the list's.
use Prim.Native.Nat.{ℕ}
use Prim.Native.Char.{code}
use Prim.Native.String.{String}
use mathlib.Core.Path.{◌≡◌, refl}
use mathlib.Core.Bool.{Bool, true, false, ◌||◌}
use mathlib.Core.List.{List, [], ◌∷◌, ◌++◌}
use mathlib.Core.Option.{Option, none, some}
use native.Mathlib.Omega.{arith}
use text.Mathlib.Text.{◌==◌}
use text.Mathlib.TextEquality.{eq_iff}
use text.Mathlib.TextPositions.{eq_refl}
use sonar_migration_tool.Common.Tests.{if◌then◌else◌}

-- `s == t` on Go strings.
abbrev pub str_eq : String → String → Bool
str_eq s t = s == t

pub str_eq→eq : (s t : String) → str_eq s t ≡ true → s ≡ t
str_eq→eq s t h = (eq_iff s t).0 h

pub str_eq_refl : (s : String) → str_eq s s ≡ true
str_eq_refl s = eq_refl s

-- `set[s]`
unfoldable pub has : String → List String → Bool
has s [] = false
has s (x ∷ xs) = str_eq x s || has s xs

-- `set[s] = true`
unfoldable pub add : String → List String → List String
unfolding has
add s xs = if has s xs then xs else s ∷ xs

-- `delete(set, s)`
unfoldable pub delete : String → List String → List String
delete s [] = []
delete s (x ∷ xs) = let rest = delete s xs in if str_eq x s then rest else x ∷ rest

-- `v, ok := m[s]`
module _ {ℓ} {V : Type ℓ} where
  unfoldable pub lookup : String → List (String × V) → Option V
  lookup s [] = none
  lookup s ((k, v) ∷ m) = if str_eq k s then some v else lookup s m

-- The elements of one set are elements of the other.
abbrev pub Subset : List String → List String → Type 0
Subset xs ys = (s : String) → has s xs ≡ true → has s ys ≡ true

pub has-add : (s t : String) (xs : List String) → has s (add t xs) ≡ (str_eq t s || has s xs)
unfolding add has
has-add s t xs = ground (arith, eq_iff t s)

pub has-append : (s : String) (xs ys : List String) → has s (xs ++ ys) ≡ (has s xs || has s ys)
unfolding has
has-append s [] ys = refl
has-append s (x ∷ xs) ys = ground (arith, has-append s xs ys)

-- No element twice.
abbrev pub NoDup : List String → Type 0
NoDup [] = Unit
NoDup (x ∷ xs) = (has x xs ≡ false) × NoDup xs

-- The code points of a text: its bytes, if it is ASCII.
abbrev pub codes : String → List ℕ
codes String.[] = []
codes (String.◌∷◌ c s) = code c ∷ codes s
