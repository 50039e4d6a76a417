-- ===== src/Retry/Classify.antt =====
-- lib/sq-api-go/ratelimit.go: how a 429 response is classified. Header values and bodies are bytes;
-- `strings.ToLower` and `EqualFold` act on ASCII letters, which is all that the needles contain.
use sonar_migration_tool.Common.{
  ℕ, ◌+◌, Bool, true, false, not, ◌&&◌, ◌||◌, List, [], ◌∷◌, String, map, leb, ◌==◌, if◌then◌else◌,
  codes, take,
}

abbrev pub Bytes : Type 0
Bytes = List ℕ

-- `http.Header`, by its Get: an absent header reads as the empty value.
abbrev pub Headers : Type 0
Headers = String → Bytes

pub data RateLimitKind : Type 0 where
  unknown429 sqc_rate_limit cloudflare_rate_limit : RateLimitKind

abbrev pub body_snippet_max : ℕ
body_snippet_max = 500

unfoldable pub to_lower : ℕ → ℕ
to_lower c = if leb b'A' c && leb c b'Z' then c + 32 else c

-- Equality of bytes, `strings.HasPrefix` and `strings.Contains`.
unfoldable pub equal : Bytes → Bytes → Bool
equal [] [] = true
equal [] (y ∷ ys) = false
equal (x ∷ xs) [] = false
equal (x ∷ xs) (y ∷ ys) = if x == y then equal xs ys else false

unfoldable pub has_prefix : Bytes → Bytes → Bool
has_prefix s [] = true
has_prefix [] (p ∷ ps) = false
has_prefix (x ∷ s) (p ∷ ps) = if x == p then has_prefix s ps else false

unfoldable pub contains : Bytes → Bytes → Bool
unfolding has_prefix
contains [] needle = has_prefix [] needle
contains (x ∷ s) needle =
    let rest = contains s needle in if has_prefix (x ∷ s) needle then true else rest

abbrev is_blank : ℕ → Bool
is_blank c = c == b' ' || (c == 9 || (c == 13 || c == 10))

unfoldable pub trim_left : Bytes → Bytes
trim_left [] = []
trim_left (c ∷ s) = let rest = trim_left s in if is_blank c then rest else c ∷ s

-- trimForCheck
unfoldable pub trim_for_check : Bytes → Bytes
unfolding trim_left
trim_for_check body = trim_left (take body_snippet_max body)

abbrev is_empty : Bytes → Bool
is_empty [] = true
is_empty (c ∷ s) = false

abbrev starts_with_brace : Bytes → Bool
starts_with_brace [] = false
starts_with_brace (c ∷ s) = c == b'{'

-- isCloudflare429
unfoldable pub is_cloudflare429 : Headers → Bytes → Bool
unfolding to_lower equal has_prefix contains trim_for_check
is_cloudflare429 headers body =
    if not (is_empty (headers "CF-Ray"))
    then true
    else if not (is_empty (headers "CF-Mitigated"))
    then true
    else if equal (map to_lower (headers "Server")) (codes "cloudflare")
    then true
    else let lower = map to_lower (trim_for_check body) in
      if has_prefix lower (codes "<") && contains lower (codes "cloudflare") then true else false

-- isSonarJSONError
unfoldable pub is_sonar_json_error : Bytes → Bool
unfolding to_lower contains trim_for_check
is_sonar_json_error body =
    if starts_with_brace (trim_for_check body)
    then contains (map to_lower (trim_for_check body)) (codes "\"errors\"")
    else false

-- classify429
unfoldable pub classify429 : Headers → Bytes → RateLimitKind
unfolding is_cloudflare429 is_sonar_json_error
classify429 headers body =
    if is_cloudflare429 headers body
    then cloudflare_rate_limit
    else if is_sonar_json_error body
    then sqc_rate_limit
    else unknown429
