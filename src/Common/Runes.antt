-- ===== src/Common/Runes.antt =====
-- What Go's unicode package says of a rune.
use Prim.Native.Nat.{ℕ, ◌-◌}
use mathlib.Core.Bool.{Bool, ◌&&◌, ◌||◌}
use sonar_migration_tool.Common.Tests.{leb, ◌==◌, if◌then◌else◌}

-- unicode.ToUpper, as far as a comparison with an ASCII word can tell: two runes outside ASCII, the
-- dotless i and the long s, have capitals inside it.
unfoldable pub upper_rune : ℕ → ℕ
upper_rune c =
    if leb b'a' c && leb c b'z'
    then c - 32
    else if c == 305
    then b'I'
    else if c == 383
    then b'S'
    else c

-- unicode.IsSpace
unfoldable pub is_space_rune : ℕ → Bool
is_space_rune c =
    (leb 9 c && leb c 13)
    || (c == 32
        || (c == 133
            || (c == 160
                || (c == 5760
                    || ((leb 8192 c && leb c 8202)
                        || (c == 8232
                            || (c == 8233 || (c == 8239 || (c == 8287 || c == 12288)))))))))
