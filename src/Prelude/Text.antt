-- ===== src/Prelude/Text.antt =====
-- Walking a text character by character, for the string operations that the source uses.
use Prim.Native.Nat.{ℕ}
use Prim.Native.Char.{code}
use Prim.Native.String.{String, [], ◌∷◌}
use mathlib.Core.Bool.{Bool, true, false, ◌||◌}
use mathlib.Core.Option.{Option, none, some}
use better_auth_rs.Prelude.Tests.{eqb, if◌then◌else◌}

-- `s.replace(c, "")`
abbrev pub without_char : ℕ → String → String
without_char x [] = []
without_char x (c ∷ s) = let rest = without_char x s in if eqb (code c) x then rest else c ∷ rest

-- `s.contains(c)`
abbrev pub contains_char : ℕ → String → Bool
contains_char x [] = false
contains_char x (c ∷ s) = eqb (code c) x || contains_char x s

abbrev pub is_empty : String → Bool
is_empty [] = true
is_empty (c ∷ s) = false

-- `s.strip_prefix(p)`, `s.starts_with(p)`
abbrev pub strip_prefix : String → String → Option String
strip_prefix [] s = some s
strip_prefix (c ∷ p) [] = none
strip_prefix (c ∷ p) (d ∷ s) =
    let rest = strip_prefix p s in if eqb (code c) (code d) then rest else none
