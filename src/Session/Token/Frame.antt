-- ===== src/Session/Token/Frame.antt =====
-- `require_session` changes the sessions table alone.
use better_auth_rs.Prelude.{ℕ, String, Option, none, some, List}
use better_auth_rs.Request.{AuthRequest}
use better_auth_rs.Store.Db.{User, Session, Db}
use better_auth_rs.Store.Rely.{Keeps}
use better_auth_rs.Store.Frames.{Frames, frame_rules}
use better_auth_rs.Session.Manager.{SessionConfig}
use better_auth_rs.Session.Manager.Frame.{manager_get_session-Keeps}
use better_auth_rs.Session.Token.{
  or_unauthenticated, with_user, with_token, extract_session_token, require_session,
}

module _ {R : Db → Db → Type 0} (frames : Frames R)
    (split_parse : String → List (Option (String × String))) (config : SessionConfig) where
  or_unauthenticated-Keeps :
      (s : Session) (o : Option User) → Keeps R (or_unauthenticated split_parse config s o)
  unfolding or_unauthenticated
  or_unauthenticated-Keeps s none = search (frame_rules, frames)
  or_unauthenticated-Keeps s (some u) = search (frame_rules, frames)

  with_user-Keeps : (o : Option Session) → Keeps R (with_user split_parse config o)
  unfolding with_user
  with_user-Keeps none = search (frame_rules, frames)
  with_user-Keeps (some s) = search (frame_rules, frames, or_unauthenticated-Keeps)

  with_token-Keeps :
      (clock : ℕ → ℕ) (o : Option String) → Keeps R (with_token split_parse config clock o)
  unfolding with_token
  with_token-Keeps clock none = search (frame_rules, frames)
  with_token-Keeps clock (some token) =
      search (frame_rules, frames, manager_get_session-Keeps, with_user-Keeps)

  pub require_session-Keeps :
      (clock : ℕ → ℕ) (req : AuthRequest) → Keeps R (require_session split_parse config clock req)
  unfolding require_session
  require_session-Keeps clock req =
      with_token-Keeps clock (extract_session_token split_parse config req)
