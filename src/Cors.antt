-- ===== src/Cors.antt =====
-- crates/core/src/middleware/cors.rs. A response stands as its status and headers, and `max_age` as its
-- decimal text.
pub mod Sharing
use better_auth_rs.Prelude.{
  ℕ, String, Bool, true, false, not, ◌||◌, Option, none, some, List, [], ◌∷◌, ◌++◌, any, join,
  if◌then◌else◌, ◌==◌,
}
use better_auth_rs.Request.{AuthRequest, HttpMethod, options, lookup}
use better_auth_rs.Headers.{insert}

pub record CorsConfig : Type 0 where
  pub allowed_origins : List String
  pub allowed_methods : List String
  pub allowed_headers : List String
  pub exposed_headers : List String
  pub allow_credentials : Bool
  pub max_age : String
  pub enabled : Bool

-- `AuthResponse` of crates/core/src/types.rs, without the body.
pub record AuthResponse : Type 0 where
  pub status : ℕ
  pub headers : List (String × String)

abbrev pub insert_all : List (String × String) → List (String × String) → List (String × String)
insert_all [] headers = headers
insert_all ((name, value) ∷ l) headers = insert_all l (insert name value headers)

-- A header that lists texts, unless there are none.
abbrev pub listing : String → List String → List (String × String)
listing name [] = []
listing name (x ∷ xs) = (name, join ", " (x ∷ xs)) ∷ []

abbrev pub credentials : Bool → List (String × String)
credentials true = ("Access-Control-Allow-Credentials", "true") ∷ []
credentials false = []

abbrev pub is_options : HttpMethod → Bool
is_options options = true
is_options method = false

module _ (config : CorsConfig) where
  -- No origin is allowed where none is configured.
  unfoldable pub is_origin_allowed : String → Bool
  is_origin_allowed origin = any (λ o. o == "*" || o == origin) config.allowed_origins

  unfoldable pub allow_origin : String → String
  allow_origin origin =
      if config.allow_credentials
      then origin
      else if any (λ o. o == "*") config.allowed_origins
      then "*"
      else origin

  abbrev pub other_headers : List (String × String)
  other_headers =
      credentials config.allow_credentials
      ++ (listing "Access-Control-Allow-Methods" config.allowed_methods
          ++ (listing "Access-Control-Allow-Headers" config.allowed_headers
              ++ (listing "Access-Control-Expose-Headers" config.exposed_headers
                  ++ (("Access-Control-Max-Age", config.max_age) ∷ []))))

  unfoldable pub cors_headers : String → List (String × String)
  cors_headers origin = ("Access-Control-Allow-Origin", allow_origin origin) ∷ other_headers

  abbrev preflight : HttpMethod → String → Option AuthResponse
  preflight method origin =
      if is_options method
      then some (record { status = 204; headers = insert_all (cors_headers origin) [] })
      else none

  unfoldable pub answer_origin : HttpMethod → Option String → Option AuthResponse
  answer_origin method none = none
  answer_origin method (some origin) =
      if not (is_origin_allowed origin) then none else preflight method origin

  unfoldable pub before_request : AuthRequest → Option AuthResponse
  unfolding answer_origin
  before_request req =
      if not config.enabled then none else answer_origin req.method (lookup "origin" req.headers)

  unfoldable pub share_with : AuthResponse → Option String → AuthResponse
  share_with response none = response
  share_with response (some origin) =
      if not (is_origin_allowed origin)
      then response
      else record response { headers = insert_all (cors_headers origin) response.headers }

  unfoldable pub after_request : AuthRequest → AuthResponse → AuthResponse
  unfolding share_with
  after_request req response =
      if not config.enabled then response else share_with response (lookup "origin" req.headers)
