-- ===== src/Admin.antt =====
-- The admin plugin (crates/api/src/plugins/admin): its configuration, who may do what, and its
-- handlers on roles, bans, impersonation and sessions.
pub mod Access
pub mod Update
pub mod Users
pub mod Impersonate
pub mod Plugin
use better_auth_rs.Prelude.{String, Bool, Option, List, ℤ}

-- `RolePermissions` of access.rs: the actions that a role may take on a resource.
pub record Permissions : Type 0 where
  pub permissions : List (String × List String)

-- `AdminConfig` of admin/mod.rs. Durations are seconds.
pub record AdminConfig : Type 0 where
  pub default_role : String
  pub admin_roles : List String
  pub admin_user_ids : Option (List String)
  pub roles : List (String × Permissions)
  pub default_ban_reason : Option String
  pub default_ban_expires_in : Option ℤ
  pub impersonation_session_duration : Option ℤ
  pub banned_user_message : String
  pub allow_impersonating_admins : Bool
