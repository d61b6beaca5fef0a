-- ===== src/Headers.antt =====
-- `Headers` of crates/core/src/types.rs: the headers of a response, which keep repeated names and compare
-- names without ASCII case.
pub mod Insertion
use better_auth_rs.Prelude.{
  String, Bool, not, Option, none, some, List, [], ◌∷◌, ◌++◌, eq_ignore_ascii_case, or_else, keep,
  if◌then◌else◌,
}

abbrev pub is_named : String → String × String → Bool
is_named name header = eq_ignore_ascii_case header.0 name

unfoldable pub insert : String → String → List (String × String) → List (String × String)
insert name value headers = keep (λ h. not (is_named name h)) headers ++ ((name, value) ∷ [])

unfoldable pub append : String → String → List (String × String) → List (String × String)
append name value headers = headers ++ ((name, value) ∷ [])

-- The last value of the name.
unfoldable pub get : String → List (String × String) → Option String
get name [] = none
get name (h ∷ headers) = or_else (get name headers) (if is_named name h then some h.1 else none)

unfoldable pub get_all : String → List (String × String) → List String
get_all name [] = []
get_all name (h ∷ headers) =
    let rest = get_all name headers in if is_named name h then h.1 ∷ rest else rest
