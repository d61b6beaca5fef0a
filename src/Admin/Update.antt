-- ===== src/Admin/Update.antt =====
-- `update_user` of crates/seaorm/src/store/users.rs with the derived `apply_update`
-- (crates/seaorm-macros/src/auth_entity.rs), for updates of the role and the ban.
use better_auth_rs.Prelude.{ℕ, String, Bool, true, false, Option, none, some, or_else}
use better_auth_rs.Error.{not_found}
use better_auth_rs.Store.{Exec, query, pure, throw, ◌>>=◌}
use better_auth_rs.Store.Db.{User, Db}
use better_auth_rs.Session.Issue.{get_user_by_id, update_user_row, or_user_not_found}

-- `UpdateUser`: what is none is left as it is.
pub record UpdateUser : Type 0 where
  pub role : Option String
  pub banned : Option Bool
  pub ban_reason : Option String
  pub ban_expires : Option ℕ

abbrev pub apply_ban : UpdateUser → Option Bool → User → User
apply_ban update (some false) u = record u { banned = false; ban_reason = none; ban_expires = none }
apply_ban update (some true) u = record u {
  banned = true;
  ban_reason = or_else update.ban_reason u.ban_reason;
  ban_expires = or_else update.ban_expires u.ban_expires;
}
apply_ban update none u = record u {
  ban_reason = or_else update.ban_reason u.ban_reason;
  ban_expires = or_else update.ban_expires u.ban_expires;
}

abbrev pub apply_update : UpdateUser → ℕ → User → User
apply_update update now u =
    let ban = apply_ban update update.banned u in
    record ban { role = or_else update.role u.role; updated_at = now }

unfoldable pub update_user : String → UpdateUser → ℕ → Exec Db User
unfolding or_user_not_found
update_user id update now = do
  found ← get_user_by_id id
  model ← or_user_not_found found
  updated ← query (update_user_row id (apply_update update now))
  or_user_not_found updated

-- `.ok_or_else(|| AuthError::not_found("User not found"))`
unfoldable pub or_no_user : Option User → Exec Db User
or_no_user none = throw (not_found "User not found")
or_no_user (some u) = pure u

abbrev pub lifted : UpdateUser
lifted = record { role = none; banned = some false; ban_reason = none; ban_expires = none }
