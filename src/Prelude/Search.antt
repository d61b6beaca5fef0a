-- ===== src/Prelude/Search.antt =====
-- Looking for a text in a text, and ASCII case, as Rust's `str` does.
use Prim.Native.Char.{Char, code}
use Prim.Native.String.{String, [], ◌∷◌}
use mathlib.Core.Bool.{Bool, true, false, ◌&&◌, ◌||◌}
use mathlib.Core.Option.{Option, none, some}
use better_auth_rs.Prelude.Tests.{eqb, is_some, if◌then◌else◌}
use better_auth_rs.Prelude.Text.{strip_prefix}
use better_auth_rs.Prelude.Words.{lower_code}

-- `s.starts_with(p)`
abbrev pub starts_with : String → String → Bool
starts_with s p = is_some (strip_prefix p s)

-- `s.contains(p)`
abbrev pub contains : String → String → Bool
contains [] p = is_some (strip_prefix p [])
contains (c ∷ s) p = is_some (strip_prefix p (c ∷ s)) || contains s p

abbrev pub add_before : Char → Option (String × String) → Option (String × String)
add_before c none = none
add_before c (some (before, after)) = some (c ∷ before, after)

abbrev pub or_later : Char → Option String → Option (String × String) → Option (String × String)
or_later c (some after) later = some ([], after)
or_later c none later = add_before c later

abbrev at_end : Option String → Option (String × String)
at_end (some after) = some ([], after)
at_end none = none

-- `s.find(p)`: what stands before the first `p`, and what stands after it.
abbrev pub split_once : String → String → Option (String × String)
split_once p [] = at_end (strip_prefix p [])
split_once p (c ∷ s) = or_later c (strip_prefix p (c ∷ s)) (split_once p s)

-- `&s[..s.find(stops).unwrap_or(s.len())]`
abbrev pub take_until : (Char → Bool) → String → String
take_until stops [] = []
take_until stops (c ∷ s) = let rest = take_until stops s in if stops c then [] else c ∷ rest

-- `s.eq_ignore_ascii_case(t)`
abbrev pub eq_ignore_ascii_case : String → String → Bool
eq_ignore_ascii_case [] [] = true
eq_ignore_ascii_case [] (d ∷ t) = false
eq_ignore_ascii_case (c ∷ s) [] = false
eq_ignore_ascii_case (c ∷ s) (d ∷ t) =
    eqb (lower_code (code c)) (lower_code (code d)) && eq_ignore_ascii_case s t

-- `s.to_ascii_lowercase().starts_with(p)`
abbrev pub lower_starts_with : String → String → Bool
lower_starts_with s [] = true
lower_starts_with [] (d ∷ p) = false
lower_starts_with (c ∷ s) (d ∷ p) = eqb (lower_code (code c)) (code d) && lower_starts_with s p
