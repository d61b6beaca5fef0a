-- ===== src/Admin/Plugin.antt =====
-- The eight routes of crates/api/src/plugins/admin/mod.rs on roles, bans, sessions and impersonation that
-- find the caller's session, ask for a permission and run a handler. A body is what the validator
-- makes of it; the cookies of the impersonation route are left out. The routes that end an
-- impersonation and that answer a permission check ask for no permission, and are not among them.
pub mod Authorized
use better_auth_rs.Prelude.{
  ℕ, ℤ, String, Bool, Option, none, some, List, [], ◌∷◌, unwrap_or, is_empty, if◌then◌else◌,
}
use better_auth_rs.Error.{AuthResult, ok, err, forbidden, validation}
use better_auth_rs.Request.{AuthRequest, Parsed, parsed, rejected, lookup}
use better_auth_rs.Store.{Exec, pure, throw, lift, ◌>>=◌}
use better_auth_rs.Store.Db.{User, Session, Db}
use better_auth_rs.Session.Manager.{SessionConfig}
use better_auth_rs.Session.Token.{require_session}
use better_auth_rs.Admin.{AdminConfig}
use better_auth_rs.Admin.Access.{has_permission}
use better_auth_rs.Admin.Impersonate.{impersonate_user_core}
use better_auth_rs.Admin.Users.{
  SetRoleRequest, BanUserRequest, set_role_core, get_user_core, list_user_sessions_core,
  ban_user_core, unban_user_core, revoke_user_session_core, revoke_user_sessions_core,
}

-- The routes that ask for a permission; the text is the user's identifier or the session's token.
pub data AdminCall : Type 0 where
  set_role : Parsed SetRoleRequest String → AdminCall
  get_user : AdminCall
  list_user_sessions : Parsed String String → AdminCall
  ban_user : Parsed BanUserRequest String → AdminCall
  unban_user impersonate_user : Parsed String String → AdminCall
  revoke_user_session revoke_user_sessions : Parsed String String → AdminCall

pub data AdminReply : Type 0 where
  user : User → AdminReply
  sessions : List Session → AdminReply
  impersonating : Session → User → AdminReply
  success : Bool → AdminReply
  rejected_body : String → AdminReply

-- The resource and the action that a route asks for.
abbrev pub permission_of : AdminCall → String × String
permission_of (set_role body) = ("user", "set-role")
permission_of get_user = ("user", "get")
permission_of (list_user_sessions body) = ("session", "list")
permission_of (ban_user body) = ("user", "ban")
permission_of (unban_user body) = ("user", "ban")
permission_of (impersonate_user body) = ("user", "impersonate")
permission_of (revoke_user_session body) = ("session", "revoke")
permission_of (revoke_user_sessions body) = ("session", "revoke")

abbrev pub message_of : AdminCall → String
message_of (set_role body) = "You are not allowed to change users role"
message_of get_user = "You are not allowed to get user"
message_of (list_user_sessions body) = "You are not allowed to list users sessions"
message_of (ban_user body) = "You are not allowed to ban users"
message_of (unban_user body) = "You are not allowed to ban users"
message_of (impersonate_user body) = "You are not allowed to impersonate users"
message_of (revoke_user_session body) = "You are not allowed to revoke users sessions"
message_of (revoke_user_sessions body) = "You are not allowed to revoke users sessions"

-- `HashMap::from([(resource, vec![action])])`
abbrev pub request_for : String × String → List (String × List String)
request_for (resource, action) = (resource, action ∷ []) ∷ []

-- What the routes have from elsewhere: chrono, what the validator says of an empty identifier, and
-- the fresh identifier and token of a session.
pub record AdminEnv : Type 0 where
  pub after_seconds : ℕ → ℤ → Option ℕ
  pub empty_id : String
  pub clock : ℕ → ℕ
  pub id : String
  pub token : String

module _ (session_config : SessionConfig) (config : AdminConfig) where
  unfoldable pub authorize : User → String × String → String → AuthResult (Unit {0})
  authorize caller permission message =
      if has_permission (some caller.id) caller.role config (request_for permission)
      then ok tt
      else err (forbidden message)

  module _ (env : AdminEnv) where
    open env use {after_seconds, clock}

    -- `GetUserQuery::validate` and the handler
    unfoldable pub get_valid_user : String → Exec Db AdminReply
    get_valid_user id =
        let found = get_user_core id >>= λ u. pure (user u) in
        if is_empty id then throw (validation env.empty_id) else found

    -- The route after the permission was found.
    unfoldable pub run : AuthRequest → User → AdminCall → Exec Db AdminReply
    unfolding get_valid_user
    run req caller (set_role (parsed body)) = do
      updated ← set_role_core after_seconds session_config config clock body
      pure (user updated)
    run req caller (set_role (rejected response)) = pure (rejected_body response)
    run req caller get_user = get_valid_user (unwrap_or (lookup "id" req.query) "")
    run req caller (list_user_sessions (parsed id)) = do
      listed ← list_user_sessions_core after_seconds session_config config clock id
      pure (sessions listed)
    run req caller (list_user_sessions (rejected response)) = pure (rejected_body response)
    run req caller (ban_user (parsed body)) = do
      banned ← ban_user_core after_seconds session_config config clock body caller.id
      pure (user banned)
    run req caller (ban_user (rejected response)) = pure (rejected_body response)
    run req caller (unban_user (parsed id)) = do
      updated ← unban_user_core after_seconds session_config config clock id
      pure (user updated)
    run req caller (unban_user (rejected response)) = pure (rejected_body response)
    run req caller (impersonate_user (parsed id)) = do
      (session, target) ←
          impersonate_user_core after_seconds config clock env.id env.token id caller.id
            (lookup "x-forwarded-for" req.headers) (lookup "user-agent" req.headers)
      pure (impersonating session target)
    run req caller (impersonate_user (rejected response)) = pure (rejected_body response)
    run req caller (revoke_user_session (parsed token)) = do
      done ← revoke_user_session_core after_seconds session_config config token
      pure (success done)
    run req caller (revoke_user_session (rejected response)) = pure (rejected_body response)
    run req caller (revoke_user_sessions (parsed id)) = do
      done ← revoke_user_sessions_core after_seconds session_config config clock id
      pure (success done)
    run req caller (revoke_user_sessions (rejected response)) = pure (rejected_body response)

    unfoldable pub run_authorized : AuthRequest → AdminCall → User × Session → Exec Db AdminReply
    unfolding run
    run_authorized req call (caller, session) = do
      allowed ← lift (authorize caller (permission_of call) (message_of call))
      run req caller call

    module _ (split_parse : String → List (Option (String × String))) where
      unfoldable pub handle : (ℕ → ℕ) → AuthRequest → AdminCall → Exec Db AdminReply
      unfolding run_authorized
      handle session_clock req call =
          require_session split_parse session_config session_clock req >>= run_authorized req call
