-- ===== src/Prelude/Words.antt =====
-- Splitting and trimming texts, as Rust's `str` does.
use Prim.Native.Nat.{ℕ}
use Prim.Native.Char.{Char, code}
use Prim.Native.String
use Prim.Native.Nat
use Prim.Native.String.{String, [], ◌∷◌}
use mathlib.Core.Bool.{Bool, ◌&&◌, ◌||◌}
use mathlib.Core.List.{List}
use mathlib.Core.Option.{Option, none, some}
use better_auth_rs.Prelude.Tests.{leb, eqb, if◌then◌else◌}

-- `char::is_whitespace`: the characters of Unicode's White_Space.
abbrev pub is_whitespace : Char → Bool
is_whitespace c =
    leb 9 (code c) && leb (code c) 13
    || eqb (code c) 32
    || eqb (code c) 133
    || eqb (code c) 160
    || eqb (code c) 5760
    || leb 8192 (code c) && leb (code c) 8202
    || eqb (code c) 8232
    || eqb (code c) 8233
    || eqb (code c) 8239
    || eqb (code c) 8287
    || eqb (code c) 12288

abbrev pub trim_start : String → String
trim_start [] = []
trim_start (c ∷ s) = let rest = trim_start s in if is_whitespace c then rest else c ∷ s

abbrev pub trim_end : String → String
trim_end [] = []
trim_end (c ∷ s) = add_to (trim_end s)
  where
    add_to : String → String
    add_to [] = if is_whitespace c then [] else c ∷ []
    add_to (d ∷ t) = c ∷ d ∷ t

abbrev pub trim : String → String
trim s = trim_end (trim_start s)

abbrev pub add_first : Char → List String → List String
add_first c List.[] = List.◌∷◌ (c ∷ []) List.[]
add_first c (List.◌∷◌ word words) = List.◌∷◌ (c ∷ word) words

-- `s.split(separator)`: one piece more than there are separators.
abbrev pub split : ℕ → String → List String
split separator [] = List.◌∷◌ [] List.[]
split separator (c ∷ s) =
    let rest = split separator s in
    if eqb (code c) separator then List.◌∷◌ [] rest else add_first c rest

-- `words.join(separator)`
abbrev pub join : String → List String → String
join separator List.[] = []
join separator (List.◌∷◌ word List.[]) = word
join separator (List.◌∷◌ word (List.◌∷◌ next words)) =
    Prim.Native.String.◌++◌ word
      (Prim.Native.String.◌++◌ separator (join separator (List.◌∷◌ next words)))

-- Lower case on the letters of ASCII, on the number of a character.
abbrev pub lower_code : ℕ → ℕ
lower_code n = if leb 65 n && leb n 90 then Prim.Native.Nat.◌+◌ n 32 else n

-- A further digit, unless the number would pass 64 bits.
abbrev add_digit : ℕ → Char → Option ℕ
add_digit n c =
    let m = Prim.Native.Nat.◌+◌ (Prim.Native.Nat.◌*◌ n 10) (Prim.Native.Nat.◌-◌ (code c) 48) in
    if leb 48 (code c) && leb (code c) 57 && leb m 18_446_744_073_709_551_615 then some m else none

abbrev pub read_digits : Option ℕ → String → Option ℕ
read_digits none s = none
read_digits (some n) [] = some n
read_digits (some n) (c ∷ s) = read_digits (add_digit n c) s

abbrev pub read_number : String → Option ℕ
read_number [] = none
read_number (c ∷ s) = read_digits (some 0) (c ∷ s)

-- `text.parse::<usize>()`
abbrev pub parse_usize : String → Option ℕ
parse_usize [] = none
parse_usize (c ∷ s) = if eqb (code c) 43 then read_number s else read_number (c ∷ s)
