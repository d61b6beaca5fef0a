-- ===== src/Session/Token.antt =====
-- Finding the caller's session: `SessionManager::extract_session_token` and
-- `validate_token_format` (crates/core/src/session.rs), `AuthContext::require_session`
-- (crates/core/src/plugin.rs). The `cookie` crate's parser is a parameter.
pub mod Frame
use Prim.Native.String.{len}
use better_auth_rs.Prelude.{
  ℕ, String, Bool, not, ◌&&◌, Option, none, some, List, [], ◌∷◌, ltb, ◌==◌, if◌then◌else◌, is_some,
  is_empty, strip_prefix,
}
use better_auth_rs.Error.{unauthenticated}
use better_auth_rs.Request.{AuthRequest, lookup}
use better_auth_rs.Store.{Exec, read, pure, throw, ◌>>=◌}
use better_auth_rs.Store.Table.{find}
use better_auth_rs.Store.Db.{User, Session, Db}
use better_auth_rs.Session.Manager
use better_auth_rs.Session.Manager.{SessionConfig}

pub validate_token_format : String → Bool
validate_token_format token = is_some (strip_prefix "session_" token) && ltb 40 (len token)

-- The first cookie of that name with a value; what does not parse is passed over.
abbrev pub find_cookie : String → List (Option (String × String)) → Option String
find_cookie name [] = none
find_cookie name (none ∷ l) = find_cookie name l
find_cookie name (some (n, v) ∷ l) =
    let rest = find_cookie name l in if n == name && not (is_empty v) then some v else rest

abbrev pub bearer : Option String → Option String
bearer none = none
bearer (some header) = strip_prefix "Bearer " header

module _ (split_parse : String → List (Option (String × String))) (config : SessionConfig) where
  abbrev pub cookie_token : Option String → Option String
  cookie_token none = none
  cookie_token (some header) = find_cookie config.cookie_name (split_parse header)

  abbrev pub token_from : Option String → AuthRequest → Option String
  token_from (some token) req = some token
  token_from none req = cookie_token (lookup "cookie" req.headers)

  unfoldable pub extract_session_token : AuthRequest → Option String
  extract_session_token req = token_from (bearer (lookup "authorization" req.headers)) req

  or_unauthenticated : Session → Option User → Exec Db (User × Session)
  or_unauthenticated s none = throw unauthenticated
  or_unauthenticated s (some u) = pure (u, s)

  with_user : Option Session → Exec Db (User × Session)
  unfolding or_unauthenticated
  with_user none = throw unauthenticated
  with_user (some s) = do
    user ← read (λ d. find (λ u. u.id == s.user_id) d.users)
    or_unauthenticated s user

  with_token : (ℕ → ℕ) → Option String → Exec Db (User × Session)
  unfolding with_user
  with_token clock none = throw unauthenticated
  with_token clock (some token) = do
    session ← Manager.get_session config clock token
    with_user session

  unfoldable pub require_session : (ℕ → ℕ) → AuthRequest → Exec Db (User × Session)
  unfolding with_token
  require_session clock req = with_token clock (extract_session_token req)
