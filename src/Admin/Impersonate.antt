-- ===== src/Admin/Impersonate.antt =====
-- Impersonating a user and stopping it (crates/api/src/plugins/admin/handlers.rs). The response is the
-- session, whose token goes into the cookie, and the user.
pub mod Soundness
use better_auth_rs.Prelude.{
  ℕ, ℤ, pos, ◌+◌, String, Bool, true, false, not, ◌&&◌, Option, none, some, List, [], ◌∷◌, ◌++◌,
  any, keep, map, split, trim, join, is_empty, is_some, or_else, unwrap_or, if◌then◌else◌, ◌==◌,
}
use better_auth_rs.Error.{
  AuthResult, ok, err, bad_request, not_found, forbidden, banned_user, internal,
}
use better_auth_rs.Request.{lookup}
use better_auth_rs.Store.{Exec, query, pure, throw, lift, ◌>>=◌, ◌>>◌}
use better_auth_rs.Store.Db.{User, Session, Db}
use better_auth_rs.Session.Statements
use better_auth_rs.Session.Statements.{CreateSession}
use better_auth_rs.Session.Manager
use better_auth_rs.Session.Manager.{SessionConfig}
use better_auth_rs.Session.Issue.{get_user_by_id, update_user_row, or_user_not_found, ban_is_over}
use better_auth_rs.Admin.{AdminConfig, Permissions}
use better_auth_rs.Admin.Access.{has_permission, target_is_admin}
use better_auth_rs.Admin.Update.{update_user, or_no_user, lifted}

module _ (after_seconds : ℕ → ℤ → Option ℕ) (config : AdminConfig) where
  -- A banned user is not impersonated, unless the ban is over, and then it is lifted.
  unfoldable pub check_target_ban : (ℕ → ℕ) → String → User → Exec Db User
  check_target_ban clock user_id target =
      let lift_it = update_user user_id lifted (clock 1) in
      if not target.banned
      then pure target
      else if ban_is_over (clock 0) target.ban_expires
      then lift_it
      else throw (banned_user config.banned_user_message)

  abbrev pub impersonation_end : ℕ → ℕ
  impersonation_end now =
      unwrap_or (after_seconds now (unwrap_or config.impersonation_session_duration (pos 3600)))
        (now + 3_600_000_000_000)

  abbrev pub is_protected : String → User → Bool
  is_protected user_id target =
      not config.allow_impersonating_admins && target_is_admin (some user_id) target.role config

  -- `(id, token)` are the fresh identifier and token of the session.
  unfoldable pub impersonate_target :
      (ℕ → ℕ)
      → String
      → String
      → String
      → String
      → Option String
      → Option String
      → User
      → Exec Db (Session × User)
  unfolding check_target_ban
  impersonate_target clock id token user_id admin_user_id ip_address user_agent target = do
    allowed ← check_target_ban clock user_id target
    session ← Statements.create_session id token (clock 3) (record {
      user_id = allowed.id;
      expires_at = impersonation_end (clock 2);
      ip_address = ip_address;
      user_agent = user_agent;
      impersonated_by = some admin_user_id;
      active_organization_id = none;
    })
    pure (session, allowed)

  unfoldable pub impersonate_found :
      (ℕ → ℕ)
      → String
      → String
      → String
      → String
      → Option String
      → Option String
      → User
      → Exec Db (Session × User)
  unfolding impersonate_target
  impersonate_found clock id token user_id admin_user_id ip_address user_agent target =
      if is_protected user_id target
      then throw (forbidden "You cannot impersonate admins")
      else impersonate_target clock id token user_id admin_user_id ip_address user_agent target

  unfoldable pub impersonate_other :
      (ℕ → ℕ)
      → String
      → String
      → String
      → String
      → Option String
      → Option String
      → Exec Db (Session × User)
  unfolding or_no_user impersonate_found
  impersonate_other clock id token user_id admin_user_id ip_address user_agent = do
    found ← get_user_by_id user_id
    target ← or_no_user found
    impersonate_found clock id token user_id admin_user_id ip_address user_agent target

  unfoldable pub impersonate_user_core :
      (ℕ → ℕ)
      → String
      → String
      → String
      → String
      → Option String
      → Option String
      → Exec Db (Session × User)
  unfolding impersonate_other
  impersonate_user_core clock id token user_id admin_user_id ip_address user_agent =
      if user_id == admin_user_id
      then throw (bad_request "Cannot impersonate yourself")
      else impersonate_other clock id token user_id admin_user_id ip_address user_agent

unfoldable pub impersonator : Option String → Exec Db String
impersonator none = throw (bad_request "You are not impersonating anyone")
impersonator (some admin_id) = pure admin_id

unfoldable pub or_failed : {A : Type 0} → String → Option A → Exec Db A
or_failed message none = throw (internal message)
or_failed message (some a) = pure a

unfoldable pub return_session : Session → User → Session → Exec Db (Session × User)
return_session session admin_user admin_session =
    let leave = Statements.delete_session session.token >> pure (admin_session, admin_user) in
    if not (admin_session.user_id == admin_user.id)
    then throw (internal "Failed to find admin session")
    else leave

-- `session_token` is that of the administrator's own session, from the signed cookie.
unfoldable pub stop_impersonating_core : Session → String → Exec Db (Session × User)
unfolding impersonator or_failed return_session
stop_impersonating_core session session_token = do
  admin_id ← impersonator session.impersonated_by
  user ← get_user_by_id admin_id
  admin_user ← or_failed "Failed to find user" user
  found ← Statements.get_session session_token
  admin_session ← or_failed "Failed to find admin session" found
  return_session session admin_user admin_session
