-- ===== src/Admin/Users/Banning.antt =====
-- What a ban achieves when no other request runs meanwhile and no statement fails.
use better_auth_rs.Prelude.{
  ℕ, ℤ, Bool, ◌+◌, String, true, false, Option, none, some, ◌≡◌, refl, ap, All, or_else, unwrap_or,
  ◌==◌,
}
use better_auth_rs.Error.{ok, err, banned_user}
use better_auth_rs.Store.{query, alone, ◌>>=◌}
use better_auth_rs.Store.Table.{
  find, update_where, delete_where, find-update_where, find_holds, count_found, All-delete_where,
}
use better_auth_rs.Store.Db.{User, Db}
use better_auth_rs.Session.Statements
use better_auth_rs.Session.Statements.{is_of, set_sessions}
use better_auth_rs.Session.Manager
use better_auth_rs.Session.Manager.{SessionConfig}
use better_auth_rs.Session.Issue.{
  AdminMetadata, has_user_id, get_user_by_id, or_user_not_found, ban_is_over, check_ban,
  issue_user_session, default_banned_message,
}
use better_auth_rs.Admin.{AdminConfig}
use better_auth_rs.Admin.Update.{UpdateUser, apply_ban, apply_update, update_user, or_no_user}
use better_auth_rs.Admin.Users.{BanUserRequest, ban_update, ban_other, ban_user_core, expiry}

apply_ban-id : (update : UpdateUser) (o : Option Bool) (u : User) → (apply_ban update o u).id ≡ u.id
apply_ban-id update none u = refl
apply_ban-id update (some true) u = refl
apply_ban-id update (some false) u = refl

abbrev pub set_users : Db → String → (User → User) → Db
set_users d id change = record d { users = update_where (has_user_id id) change d.users }

module _ (id : String) (d : Db) (u : User) (found : find (has_user_id id) d.users ≡ some u) where
  -- The user's row after an update.
  pub find-update_user :
      (update : UpdateUser) (now : ℕ)
      → find (has_user_id id) (set_users d id (apply_update update now)).users
        ≡ some (apply_update update now u)
  find-update_user update now =
      let same =
        find-update_where (has_user_id id) (has_user_id id) (apply_update update now) d.users
          (λ a. ap (λ x. x == id) (apply_ban-id update update.banned a)) in
      rw (same, found, find_holds (has_user_id id) d.users u found) refl

  -- An update of a user who is there, alone.
  pub update_user_lem :
      (update : UpdateUser) (now : ℕ)
      → update_user id update now (alone d)
        ≡ (ok (apply_update update now u), alone (set_users d id (apply_update update now)))
  unfolding update_user get_user_by_id or_user_not_found query ◌>>=◌
  update_user_lem update now =
      let some_row =
        count_found (has_user_id id) (has_user_id id) d.users u found
          (find_holds (has_user_id id) d.users u found) in
      rw (found, some_row, find-update_user update now) refl

revoke_all_lem :
    (sessions : SessionConfig) (clock : ℕ → ℕ) (id : String) (d : Db)
    → (n : ℕ) × (Manager.revoke_all_user_sessions sessions clock id (alone d)
        ≡ (ok n, alone (set_sessions d (delete_where (is_of id) d.sessions))))
unfolding Manager.revoke_all_user_sessions Manager.list_user_sessions Statements.get_user_sessions
    Statements.delete_user_sessions query ◌>>=◌
revoke_all_lem sessions clock id d = (_, refl)

module _ (after_seconds : ℕ → ℤ → Option ℕ) (sessions : SessionConfig) (config : AdminConfig) where
  -- The database after a ban.
  abbrev after_ban : (ℕ → ℕ) → BanUserRequest → Db → Db
  after_ban clock body d =
      let users =
        set_users d body.user_id
          (apply_update (ban_update after_seconds sessions config (clock 0) body) (clock 1)) in
      set_sessions users (delete_where (is_of body.user_id) d.sessions)

  ban_other_lem :
      (clock : ℕ → ℕ) (body : BanUserRequest) (d : Db) (u : User)
      → find (has_user_id body.user_id) d.users ≡ some u
      → ban_other after_seconds sessions config clock body (alone d) ≡ (
        ok (apply_update (ban_update after_seconds sessions config (clock 0) body) (clock 1) u),
        alone (after_ban clock body d),
      )
  unfolding ban_other or_no_user get_user_by_id query ◌>>=◌
  ban_other_lem clock body d u found =
      let update = ban_update after_seconds sessions config (clock 0) body in
      let (n, revoked) =
        revoke_all_lem sessions (λ n. clock (n + 2)) body.user_id
          (set_users d body.user_id (apply_update update (clock 1))) in
      rw (found, update_user_lem body.user_id d u found update (clock 1), revoked) refl

  refused :
      (admin : AdminMetadata) (clock : ℕ → ℕ) (id token user_id : String) (ip agent : Option String)
      (d : Db) (u : User)
      → find (has_user_id user_id) d.users ≡ some u
      → admin.enabled ≡ true
      → u.banned ≡ true
      → ban_is_over (clock 0) u.ban_expires ≡ false
      → (issue_user_session sessions admin clock id token user_id ip agent (alone d)).0
        ≡ err (banned_user (unwrap_or admin.banned_user_message default_banned_message))
  unfolding issue_user_session get_user_by_id or_user_not_found check_ban query ◌>>=◌
  refused admin clock id token user_id ip agent d u found enabled banned lasting =
      rw (found, enabled, banned, lasting) refl

  -- A ban of another user who is there, alone: it succeeds, no session of the user is left, and until the
  -- new expiry (or the old one, where the ban has no duration) a sign-in of the user, alone, is
  -- refused as banned.
  pub ban_user_core_refuses :
      (clock clock' : ℕ → ℕ) (body : BanUserRequest) (admin_user_id : String) (d : Db) (u : User)
      (admin : AdminMetadata) (id token : String) (ip agent : Option String)
      → (body.user_id == admin_user_id) ≡ false
      → find (has_user_id body.user_id) d.users ≡ some u
      → admin.enabled ≡ true
      → ban_is_over (clock' 0) (
          or_else
            (expiry after_seconds sessions config
              (clock 0)
              (or_else body.ban_expires_in config.default_ban_expires_in))
            u.ban_expires)
        ≡ false
      → ((ban_user_core after_seconds sessions config clock body admin_user_id (alone d)).0
          ≡ ok (apply_update (ban_update after_seconds sessions config (clock 0) body) (clock 1) u))
        × All
            (λ s. is_of body.user_id s ≡ false)
            (ban_user_core after_seconds sessions config clock body admin_user_id
              (alone d)).1.db.sessions
        × ((issue_user_session sessions admin clock' id token body.user_id ip agent
              (ban_user_core after_seconds sessions config clock body admin_user_id (alone d)).1).0
            ≡ err (banned_user (unwrap_or admin.banned_user_message default_banned_message)))
  unfolding ban_user_core
  ban_user_core_refuses clock clock' body admin_user_id d u admin id token ip agent other found
        enabled lasting =
      let update = ban_update after_seconds sessions config (clock 0) body in
      rw (other, ban_other_lem clock body d u found)
        (
          refl,
          All-delete_where (is_of body.user_id) d.sessions,
          refused admin clock' id token body.user_id ip agent (after_ban clock body d)
              (apply_update update (clock 1) u)
              (find-update_user body.user_id d u found update (clock 1)) enabled refl lasting,
        )
