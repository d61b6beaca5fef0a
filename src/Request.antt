-- ===== src/Request.antt =====
-- crates/core/src/types.rs: `HttpMethod` and `AuthRequest`. The hash maps of headers and query
-- parameters are association lists; a body is what its parser (serde, url) makes of it, and stands
-- as an argument of the code that parses it.
use better_auth_rs.Prelude.{String, List, [], ◌∷◌, Option, none, some, ◌==◌, if◌then◌else◌}

pub data HttpMethod : Type 0 where
  get post put delete patch options head : HttpMethod

pub record AuthRequest : Type 0 where
  pub method : HttpMethod
  pub path : String
  pub headers : List (String × String)
  pub query : List (String × String)

-- `HashMap::get`
unfoldable pub lookup {ℓ} : {V : Type ℓ} → String → List (String × V) → Option V
lookup k [] = none
lookup k ((j, v) ∷ m) = if j == k then some v else lookup k m

-- A body that was read and validated, or the response that says why not
-- (`better_auth_core::validate_request_body`).
pub data Parsed (B R : Type 0) : Type 0 where
  parsed : B → Parsed B R
  rejected : R → Parsed B R
