-- ===== src/Admin/Users.antt =====
-- The handlers of the admin plugin on roles, bans and sessions
-- (crates/api/src/plugins/admin/handlers.rs). A response stands as the rows
-- it is made from. `clock n` is the n-th reading of the clock in a call; `after_seconds` is chrono's
-- `try_seconds` with the instant so many seconds later, and no instant is out of range.
pub mod Banning
use better_auth_rs.Prelude.{
  ℕ, ℤ, pos, ◌+◌, String, Bool, true, false, not, ◌&&◌, Option, none, some, List, [], ◌∷◌, ◌++◌,
  any, keep, map, split, trim, join, is_empty, is_some, or_else, unwrap_or, if◌then◌else◌, ◌==◌,
}
use better_auth_rs.Error.{
  AuthResult, ok, err, bad_request, not_found, forbidden, banned_user, internal,
}
use better_auth_rs.Request.{lookup}
use better_auth_rs.Store.{Exec, query, pure, throw, lift, ◌>>=◌, ◌>>◌}
use better_auth_rs.Store.Db.{User, Session, Db}
use better_auth_rs.Session.Statements
use better_auth_rs.Session.Statements.{CreateSession}
use better_auth_rs.Session.Manager
use better_auth_rs.Session.Manager.{SessionConfig}
use better_auth_rs.Session.Issue.{get_user_by_id, update_user_row, or_user_not_found, ban_is_over}
use better_auth_rs.Admin.Update.{UpdateUser, update_user, or_no_user, lifted}
use better_auth_rs.Admin.{AdminConfig, Permissions}
use better_auth_rs.Admin.Access.{has_permission, target_is_admin}

-- `RoleInput` of types.rs
pub data RoleInput : Type 0 where
  one : String → RoleInput
  many : List String → RoleInput

abbrev pub joined : RoleInput → String
joined (one role) = role
joined (many roles) = join "," roles

abbrev pub pieces : List String → List String
pieces [] = []
pieces (role ∷ roles) = split b',' role ++ pieces roles

abbrev filled : List String → List String
filled names = keep (λ name. not (is_empty name)) (map trim names)

abbrev pub roles : RoleInput → List String
roles (one role) = filled (split b',' role)
roles (many list) = filled (pieces list)

abbrev no_names : List String → Bool
no_names [] = true
no_names (name ∷ names) = false

abbrev known_roles : List String → List (String × Permissions) → AuthResult (Unit {0})
known_roles names [] = ok tt
known_roles names (role ∷ rest) =
    if any (λ name. not (is_some (lookup name (role ∷ rest)))) names
    then err (bad_request "You are not allowed to set a non-existent role value")
    else ok tt

unfoldable pub validate_role_input : RoleInput → AdminConfig → AuthResult (Unit {0})
validate_role_input role config =
    if no_names (roles role)
    then err (bad_request "role is required")
    else known_roles (roles role) config.roles

pub record SetRoleRequest : Type 0 where
  pub user_id : String
  pub role : RoleInput

pub record BanUserRequest : Type 0 where
  pub user_id : String
  pub ban_reason : Option String
  pub ban_expires_in : Option ℤ

unfoldable pub get_user_core : String → Exec Db User
unfolding or_no_user
get_user_core id = get_user_by_id id >>= or_no_user

module _ (after_seconds : ℕ → ℤ → Option ℕ) (sessions : SessionConfig) (config : AdminConfig) where
  unfoldable pub set_role_core : (ℕ → ℕ) → SetRoleRequest → Exec Db User
  unfolding or_no_user
  set_role_core clock body = do
    found ← get_user_by_id body.user_id
    target ← or_no_user found
    valid ← lift (validate_role_input body.role config)
    update_user body.user_id
        (record {
          role = some (joined body.role);
          banned = none;
          ban_reason = none;
          ban_expires = none;
        })
        (clock 0)

  unfoldable pub list_user_sessions_core : (ℕ → ℕ) → String → Exec Db (List Session)
  list_user_sessions_core clock user_id = Manager.list_user_sessions sessions clock user_id

  abbrev pub expiry : ℕ → Option ℤ → Option ℕ
  expiry now none = none
  expiry now (some secs) = after_seconds now secs

  abbrev pub ban_update : ℕ → BanUserRequest → UpdateUser
  ban_update now body = record {
    role = none;
    banned = some true;
    ban_reason = some (unwrap_or (or_else body.ban_reason config.default_ban_reason) "No reason");
    ban_expires = expiry now (or_else body.ban_expires_in config.default_ban_expires_in);
  }

  unfoldable pub ban_other : (ℕ → ℕ) → BanUserRequest → Exec Db User
  unfolding or_no_user
  ban_other clock body = do
    found ← get_user_by_id body.user_id
    target ← or_no_user found
    updated ← update_user body.user_id (ban_update (clock 0) body) (clock 1)
    revoked ← Manager.revoke_all_user_sessions sessions (λ n. clock (n + 2)) body.user_id
    pure updated

  unfoldable pub ban_user_core : (ℕ → ℕ) → BanUserRequest → String → Exec Db User
  unfolding ban_other
  ban_user_core clock body admin_user_id =
      if body.user_id == admin_user_id
      then throw (bad_request "You cannot ban yourself")
      else ban_other clock body

  unfoldable pub unban_user_core : (ℕ → ℕ) → String → Exec Db User
  unfolding or_no_user
  unban_user_core clock user_id = do
    found ← get_user_by_id user_id
    target ← or_no_user found
    update_user user_id lifted (clock 0)

  unfoldable pub revoke_user_session_core : String → Exec Db Bool
  revoke_user_session_core token = do done ← Statements.delete_session token; pure true

  unfoldable pub revoke_user_sessions_core : (ℕ → ℕ) → String → Exec Db Bool
  revoke_user_sessions_core clock user_id = do
    done ← Manager.revoke_all_user_sessions sessions clock user_id
    pure true

pub record HasPermissionRequest : Type 0 where
  pub permission : Option (List (String × List String))
  pub permissions : Option (List (String × List String))

abbrev requested_permissions : HasPermissionRequest → Option (List (String × List String))
requested_permissions body = or_else body.permissions body.permission

abbrev answer_for : AdminConfig → User → Option (List (String × List String)) → AuthResult Bool
answer_for config user none =
    err (bad_request "invalid permission check. no permission(s) were passed.")
answer_for config user (some requested) =
    ok (has_permission (some user.id) user.role config requested)

unfoldable pub has_permission_core : AdminConfig → HasPermissionRequest → User → AuthResult Bool
has_permission_core config body user = answer_for config user (requested_permissions body)
