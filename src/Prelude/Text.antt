-- ===== src/Prelude/Text.antt =====
-- The operations on texts that the services use: `trim`, `startsWith` and `slice`, and tests
-- that stand for `toUpperCase` and `toLowerCase` on ASCII letters.
use Prim.Native.Nat.{ℕ, ◌+◌, ◌-◌}
use Prim.Native.Char.{Char, code}
use Prim.Native.String.{String}
use mathlib.Core.Option.{Option, none, some}
use mathlib.Core.Bool.{Bool, true, false, ◌&&◌, ◌||◌}
use time_sync_be.Prelude.Tests.{leb, ◌==◌, if◌then◌else◌}

abbrev pub is_blank : Char → Bool
is_blank c = (leb 9 (code c) && leb (code c) 13) || (code c == 32) || (code c == 160)

-- `s.trimStart()`
unfoldable pub trim_start : String → String
trim_start String.[] = String.[]
trim_start (String.◌∷◌ c s) = let rest = trim_start s in if is_blank c then rest else String.◌∷◌ c s

-- `s.trimEnd()`
cons_trimmed : Char → String → String
cons_trimmed c String.[] = if is_blank c then String.[] else String.◌∷◌ c String.[]
cons_trimmed c (String.◌∷◌ d s) = String.◌∷◌ c (String.◌∷◌ d s)

unfoldable pub trim_end : String → String
unfolding cons_trimmed
trim_end String.[] = String.[]
trim_end (String.◌∷◌ c s) = cons_trimmed c (trim_end s)

-- `s.trim()`
unfoldable pub trim : String → String
unfolding trim_start trim_end
trim s = trim_end (trim_start s)

-- `s === ""` is the one falsy text.
abbrev pub present : Option String → Option String
present none = none
present (some String.[]) = none
present (some (String.◌∷◌ c s)) = some (String.◌∷◌ c s)

abbrev pub upper_code : ℕ → ℕ
upper_code c = if leb b'a' c && leb c b'z' then c - 32 else c

abbrev pub lower_code : ℕ → ℕ
lower_code c = if leb b'A' c && leb c b'Z' then c + 32 else c

-- `s.toUpperCase() === t`
unfoldable pub upper_is : String → String → Bool
upper_is String.[] String.[] = true
upper_is (String.◌∷◌ c s) (String.◌∷◌ d t) = (upper_code (code c) == code d) && upper_is s t
upper_is _ _ = false

-- `s.toLowerCase() === t`
unfoldable pub lower_is : String → String → Bool
lower_is String.[] String.[] = true
lower_is (String.◌∷◌ c s) (String.◌∷◌ d t) = (lower_code (code c) == code d) && lower_is s t
lower_is _ _ = false

-- `s.slice(prefix.length)` where `s.startsWith(prefix)`.
unfoldable pub strip_prefix : String → String → Option String
strip_prefix String.[] s = some s
strip_prefix (String.◌∷◌ c p) String.[] = none
strip_prefix (String.◌∷◌ c p) (String.◌∷◌ d s) =
    let rest = strip_prefix p s in if code c == code d then rest else none
