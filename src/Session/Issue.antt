-- ===== src/Session/Issue.antt =====
-- `issue_user_session` (crates/api/src/plugins/helpers.rs): a session for a user, unless the admin
-- plugin is on and the user is banned. With it `update_user` of crates/seaorm/src/store/users.rs
-- for the update that lifts a ban (the derive macro clears the reason and the expiry with it).
pub mod Frame
use better_auth_rs.Prelude.{
  ℕ, ◌+◌, String, Bool, true, false, Option, none, some, List, leb, eqb, ◌==◌, ◌&&◌, if◌then◌else◌,
  unwrap_or,
}
use better_auth_rs.Error.{AuthResult, ok, err, user_not_found, banned_user, database}
use better_auth_rs.Store.{Exec, query, read, pure, throw, ◌>>=◌}
use better_auth_rs.Store.Table.{find, update_where, count}
use better_auth_rs.Store.Db.{User, Session, Db}
use better_auth_rs.Session.Manager
use better_auth_rs.Session.Manager.{SessionConfig}

-- The metadata that the admin plugin publishes: "admin.enabled", "admin.banned_user_message".
pub record AdminMetadata : Type 0 where
  pub enabled : Bool
  pub banned_user_message : Option String

abbrev pub has_user_id : String → User → Bool
has_user_id id u = u.id == id

unfoldable pub get_user_by_id : String → Exec Db (Option User)
get_user_by_id id = read (λ d. find (has_user_id id) d.users)

abbrev pub lift_ban : ℕ → User → User
lift_ban now u = record u {
  banned = false;
  ban_reason = none;
  ban_expires = none;
  updated_at = now;
}

-- The row as it stands after the statement.
abbrev pub update_user_row : String → (User → User) → Db → AuthResult (Option User) × Db
update_user_row id change d =
    if eqb (count (has_user_id id) d.users) 0 then (err (database "record not updated"), d) else (
      ok (find (has_user_id id) (update_where (has_user_id id) change d.users)),
      record d { users = update_where (has_user_id id) change d.users },
    )

unfoldable pub or_user_not_found : Option User → Exec Db User
or_user_not_found none = throw user_not_found
or_user_not_found (some u) = pure u

-- `update_user` with the ban lifted
unfoldable pub unban_user : String → ℕ → Exec Db User
unfolding or_user_not_found
unban_user id now = do
  found ← get_user_by_id id
  model ← or_user_not_found found
  updated ← query (update_user_row id (lift_ban now))
  or_user_not_found updated

abbrev pub default_banned_message : String
default_banned_message =
    "You have been banned from this application. Please contact support if you believe this is an error."

-- `ban_expires.is_some_and(|expires| expires <= now)`
abbrev pub ban_is_over : ℕ → Option ℕ → Bool
ban_is_over now none = false
ban_is_over now (some expires) = leb expires now

module _ (config : SessionConfig) (admin : AdminMetadata) where
  unfoldable pub check_ban : (ℕ → ℕ) → User → Exec Db User
  check_ban clock u =
      let lifted = unban_user u.id (clock 1) in
      let refused =
        throw (banned_user (unwrap_or admin.banned_user_message default_banned_message)) in
      if admin.enabled && u.banned
      then if ban_is_over (clock 0) u.ban_expires then lifted else refused
      else pure u

  -- The session that is issued; its identifier and token are fresh.
  unfoldable pub issue_user_session :
      (ℕ → ℕ) → String → String → String → Option String → Option String → Exec Db Session
  unfolding or_user_not_found check_ban
  issue_user_session clock id token user_id ip_address user_agent = do
    found ← get_user_by_id user_id
    user ← or_user_not_found found
    allowed ← check_ban clock user
    Manager.create_session config id token (λ n. clock (n + 2)) allowed ip_address user_agent
