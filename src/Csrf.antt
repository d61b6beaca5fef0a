-- ===== src/Csrf.antt =====
-- crates/core/src/middleware/csrf.rs: the guard on the origin of requests that change state and on the
-- targets they redirect to. A response stands as the error it is made from. What reads a body (the url
-- crate's form parser, serde_json) and glob_match are parameters.
pub mod Order
pub mod Guarantee
pub mod Refusal
use better_auth_rs.Prelude.{
  String, Bool, true, false, not, Option, none, some, List, [], ◌∷◌, ◌++◌, map, any, ◌&&◌, ◌||◌,
  is_some, is_empty, or_else, unwrap_or, strip_prefix, contains, eq_ignore_ascii_case, trim,
  if◌then◌else◌, ◌==◌,
}
use better_auth_rs.Error.{AuthError, AuthResult, ok, err, forbidden}
use better_auth_rs.Error.Chain.{◌>>◌}
use better_auth_rs.Request.{
  HttpMethod, get, post, put, delete, patch, options, head, AuthRequest, lookup,
}
use better_auth_rs.Config.{
  AuthConfig, extract_origin, is_origin_trusted, is_redirect_target_trusted,
}

-- `url::form_urlencoded::parse` with its pairs collected in a map, and what serde_json makes of a body,
-- of `{}` when there is none.
pub record BodyCrates : Type 1 where
  pub Body : Type 0
  pub parse_form : Body → List (String × String)
  pub Value : Type 0
  pub body_as_json : Option Body → Option Value
  pub as_object : Value → Option (List (String × Value))
  pub as_str : Value → Option String

abbrev pub rejection : AuthResult {0} Unit → Option AuthError
rejection (ok u) = none
rejection (err e) = some e

abbrev pub is_state_changing : HttpMethod → Bool
is_state_changing get = false
is_state_changing post = true
is_state_changing put = true
is_state_changing delete = true
is_state_changing patch = true
is_state_changing options = false
is_state_changing head = false

abbrev pub normalized_path : AuthConfig → String → String
normalized_path settings path =
    if not (is_empty settings.base_path) && not (settings.base_path == "/")
    then unwrap_or (strip_prefix settings.base_path path) path
    else path

abbrev pub is_form_csrf_path : String → Bool
is_form_csrf_path path = path == "/sign-in/email" || path == "/sign-up/email"

abbrev pub find_header : String → List (String × String) → Option String
find_header name [] = none
find_header name ((key, value) ∷ rest) =
    let later = find_header name rest in if eq_ignore_ascii_case key name then some value else later

abbrev pub header : AuthRequest → String → Option String
header req name = find_header name req.headers

abbrev pub has_cookies : AuthRequest → Bool
has_cookies req = is_some (header req "cookie")

abbrev pub has_text : Option String → Bool
has_text none = false
has_text (some value) = not (is_empty (trim value))

abbrev pub has_fetch_metadata : AuthRequest → Bool
has_fetch_metadata req =
    any (λ name. has_text (header req name))
      ("sec-fetch-site" ∷ "sec-fetch-mode" ∷ "sec-fetch-dest" ∷ [])

abbrev pub and_then {ℓ κ} : {A : Type ℓ} {B : Type κ} → Option A → (A → Option B) → Option B
and_then none f = none
and_then (some a) f = f a

-- `filter(|value| value != "null")`
abbrev pub not_null : Option String → Option String
not_null none = none
not_null (some value) = if value == "null" then none else some value

abbrev pub cross_site_navigation_login_blocked : String
cross_site_navigation_login_blocked =
    "Cross-site navigation login blocked. This request appears to be a CSRF attack."

-- The origin that a request names.
abbrev pub sent_origin : AuthRequest → Option String
sent_origin req =
    not_null (or_else (header req "origin") (and_then (header req "referer") extract_origin))

abbrev pub equals : Option String → String → Bool
equals none text = false
equals (some value) text = value == text

abbrev pub is_cross_site_navigation : AuthRequest → Bool
is_cross_site_navigation req =
    equals (header req "sec-fetch-site") "cross-site"
    && equals (header req "sec-fetch-mode") "navigate"

abbrev pub append_target_from_map : List (String × String) → List (String × String)
append_target_from_map values =
    collect ("callbackURL" ∷ "redirectTo" ∷ "errorCallbackURL" ∷ "newUserCallbackURL" ∷ [])
  where
    named : String → Option String → List (String × String)
    named key none = []
    named key (some value) = (key, value) ∷ []

    collect : List String → List (String × String)
    collect [] = []
    collect (key ∷ keys) = named key (lookup key values) ++ collect keys

abbrev pub target_error_message : String → String
target_error_message name =
    if name == "callbackURL"
    then "Invalid callbackURL"
    else if name == "redirectTo"
    then "Invalid redirectURL"
    else if name == "errorCallbackURL"
    then "Invalid errorCallbackURL"
    else if name == "newUserCallbackURL"
    then "Invalid newUserCallbackURL"
    else "Invalid origin"

module _ (crates : BodyCrates) where
  abbrev pub text_fields : List (String × crates.Value) → List (String × String)
  text_fields [] = []
  text_fields ((key, value) ∷ rest) = with_text (crates.as_str value) (text_fields rest)
    where
      with_text : Option String → List (String × String) → List (String × String)
      with_text none later = later
      with_text (some text) later = (key, text) ∷ later

  abbrev pub request_body_map : AuthRequest → Option crates.Body → Option (List (String × String))
  request_body_map req body =
      if contains (unwrap_or (header req "content-type") "") "application/x-www-form-urlencoded"
      then and_then body (λ b. some (crates.parse_form b))
      else and_then (crates.body_as_json body)
          (λ value. and_then (crates.as_object value) (λ object. some (text_fields object)))

  abbrev targets_of_body : Option (List (String × String)) → List (String × String)
  targets_of_body none = []
  targets_of_body (some body) = append_target_from_map body

  abbrev pub request_target_values : AuthRequest → Option crates.Body → List (String × String)
  request_target_values req body =
      append_target_from_map req.query ++ targets_of_body (request_body_map req body)

module _ (glob_match : String → String → Bool) (settings : AuthConfig) where
  abbrev pub check_origin : Option String → AuthResult {0} Unit
  check_origin none = err (forbidden "Missing or null Origin")
  check_origin (some origin) =
      if is_origin_trusted glob_match settings origin
      then ok tt
      else err (forbidden "Invalid origin")

  abbrev pub validate_origin : AuthRequest → Bool → AuthResult {0} Unit
  validate_origin req force_validate =
      if settings.disable_csrf_check
      then ok tt
      else if not force_validate && not (has_cookies req)
      then ok tt
      else check_origin (sent_origin req)

  abbrev pub validate_form_csrf : AuthRequest → AuthResult {0} Unit
  validate_form_csrf req =
      if settings.disable_csrf_check
      then ok tt
      else if has_cookies req
      then validate_origin req false
      else if has_fetch_metadata req
      then (if is_cross_site_navigation req
          then err (forbidden cross_site_navigation_login_blocked)
          else validate_origin req true)
      else ok tt

  abbrev pub check_targets : List (String × String) → AuthResult {0} Unit
  check_targets [] = ok tt
  check_targets ((name, value) ∷ targets) =
      let rest = check_targets targets in
      if not (is_redirect_target_trusted glob_match settings value)
      then err (forbidden (target_error_message name))
      else rest

  abbrev pub csrf_result : AuthRequest → AuthResult {0} Unit
  csrf_result req =
      if is_form_csrf_path (normalized_path settings req.path)
      then validate_form_csrf req
      else validate_origin req false

  module _ (crates : BodyCrates) where
    abbrev pub validate_redirect_targets : AuthRequest → Option crates.Body → AuthResult {0} Unit
    validate_redirect_targets req body =
        if settings.disable_origin_check
        then ok tt
        else check_targets (request_target_values crates req body)

    -- `none` lets the request pass.
    unfoldable pub before_request : Bool → AuthRequest → Option crates.Body → Option AuthError
    before_request enabled req body =
        if not enabled || not (is_state_changing req.method)
        then none
        else rejection (csrf_result req >> validate_redirect_targets req body)
