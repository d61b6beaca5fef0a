-- ===== src/Config.antt =====
-- crates/core/src/config.rs: the part of `AuthConfig` on origins, paths and the secret, with the rules
-- on trusted origins and redirect targets. The glob_match crate is a parameter.
pub mod Origins
use Prim.Native.Char.{Char, code}
use Prim.Native.String
use better_auth_rs.Prelude.{
  ℕ, String, Bool, true, false, not, Option, none, some, List, any, ◌&&◌, ◌||◌, ltb, eqb, unwrap_or,
  is_empty, contains_char, strip_prefix, starts_with, lower_starts_with, split_once, take_until,
  if◌then◌else◌, ◌==◌,
}
use better_auth_rs.Error.{AuthError, AuthResult, ok, err, config}

pub record AuthConfig : Type 0 where
  pub secret : String
  pub base_url : String
  pub base_path : String
  pub trusted_origins : List String
  pub disabled_paths : List String
  pub disable_csrf_check : Bool
  pub disable_origin_check : Bool

-- `/`, `?` and `#` end the host of an address.
unfoldable pub ends_host : Char → Bool
ends_host c = eqb (code c) 47 || eqb (code c) 63 || eqb (code c) 35

abbrev pub origin_of : String → String → String
origin_of scheme rest =
    Prim.Native.String.◌++◌ scheme (Prim.Native.String.◌++◌ "://" (take_until ends_host rest))

abbrev origin_parts : Option (String × String) → Option String
origin_parts none = none
origin_parts (some (scheme, rest)) = some (origin_of scheme rest)

unfoldable pub extract_origin : String → Option String
extract_origin url = origin_parts (split_once "://" url)

abbrev lower_escapes : Option String → Bool
lower_escapes none = false
lower_escapes (some tail) = not (lower_starts_with tail "%2f") && not (lower_starts_with tail "%5c")

unfoldable pub is_safe_relative_path : String → Bool
is_safe_relative_path value =
    if not (starts_with value "/") || starts_with value "//" || contains_char 92 value
    then false
    else lower_escapes (strip_prefix "/" value)

module _ (glob_match : String → String → Bool) (settings : AuthConfig) where
  abbrev is_base_origin : Option String → String → Bool
  is_base_origin none origin = false
  is_base_origin (some base_origin) origin = origin == base_origin

  unfoldable pub is_origin_trusted : String → Bool
  is_origin_trusted origin =
      is_base_origin (extract_origin settings.base_url) origin
      || any (λ pattern. glob_match (unwrap_or (extract_origin pattern) "") origin)
          settings.trusted_origins

  abbrev is_trusted_origin_of : Option String → Bool
  is_trusted_origin_of none = false
  is_trusted_origin_of (some origin) = is_origin_trusted origin

  unfoldable pub is_redirect_target_trusted : String → Bool
  is_redirect_target_trusted url =
      if is_safe_relative_path url then true else is_trusted_origin_of (extract_origin url)

unfoldable pub is_path_disabled : AuthConfig → String → Bool
is_path_disabled settings path = any (λ disabled. disabled == path) settings.disabled_paths

unfoldable pub validate : AuthConfig → AuthResult {0} Unit
validate settings =
    if is_empty settings.secret
    then err (config "Secret key cannot be empty")
    else if ltb (Prim.Native.String.len settings.secret) 32
    then err (config "Secret key must be at least 32 characters")
    else ok tt
