-- ===== src/Tests/Admins.antt =====
-- The theorems on the admin plugin at work.
use better_auth_rs.Prelude.{
  ℕ, ℤ, pos, true, false, none, some, [], ◌∷◌, ◌≡◌, ◌↔◌, ◌⊎◌, refl, All, Any, ◌+◌, Option,
}
use better_auth_rs.Error.{ok, err, banned_user}
use better_auth_rs.Request.{parsed, lookup}
use better_auth_rs.Store.{alone, query, ◌>>=◌}
use better_auth_rs.Store.Table.{find, update_where, delete_where, count}
use better_auth_rs.Store.Db.{User, Session, Db}
use better_auth_rs.Session.Statements
use better_auth_rs.Session.Statements.{is_of}
use better_auth_rs.Session.Manager
use better_auth_rs.Session.Issue.{
  AdminMetadata, issue_user_session, has_user_id, get_user_by_id, or_user_not_found, check_ban,
  unban_user, default_banned_message,
}
use better_auth_rs.Session.Token.{require_session, extract_session_token}
use better_auth_rs.Admin.{AdminConfig}
use better_auth_rs.Admin.Access.{
  has_permission, role_names, is_admin_user_id, target_is_admin, configured_roles, allows,
  is_admin_role,
}
use better_auth_rs.Admin.Access.Grants.{IsAdminUser, Grants, has_permission-Grants}
use better_auth_rs.Admin.Update.{apply_update, update_user, or_no_user}
use better_auth_rs.Admin.Users.{
  BanUserRequest, ban_update, ban_user_core, ban_other, revoke_user_session_core,
}
use better_auth_rs.Admin.Impersonate.{
  impersonate_user_core, impersonate_other, impersonate_found, impersonate_target, check_target_ban,
  stop_impersonating_core, impersonator, or_failed, return_session,
}
use better_auth_rs.Admin.Users.Banning.{ban_user_core_refuses}
use better_auth_rs.Admin.Impersonate.Soundness.{
  Impersonates, impersonate_user_core_sound, Stopped, stop_impersonating_core_sound,
}
use better_auth_rs.Admin.Plugin.{
  AdminEnv, revoke_user_session, success, request_for, handle, run_authorized, authorize, run,
}
use better_auth_rs.Admin.Plugin.Authorized.{handle-Grants}
use better_auth_rs.Tests.{alice, bob, clock, config, db, visited, request, session_of}

abbrev admins : AdminConfig
admins = record {
  default_role = "user";
  admin_roles = "admin" ∷ [];
  admin_user_ids = some ("alice" ∷ []);
  roles = [];
  default_ban_reason = none;
  default_ban_expires_in = none;
  impersonation_session_duration = none;
  banned_user_message = "banned";
  allow_impersonating_admins = false;
}

abbrev ban_metadata : AdminMetadata
ban_metadata = record { enabled = true; banned_user_message = none }

-- Ten later, whatever the number of seconds.
abbrev ten_later : ℕ → ℤ → Option ℕ
ten_later now secs = some (now + 10)

has_permission-Grants_example :
    (has_permission (some "bob") (some "user, admin") admins (("user", "ban" ∷ []) ∷ []) ≡ true) ↔ (
      IsAdminUser admins (some "bob")
      ⊎ Any (Grants admins (("user", "ban" ∷ []) ∷ [])) (role_names (some "user, admin") "user"))
has_permission-Grants_example =
    has_permission-Grants (some "bob") (some "user, admin") admins (("user", "ban" ∷ []) ∷ [])

granted : has_permission (some "bob") (some "user, admin") admins (("user", "ban" ∷ []) ∷ []) ≡ true
unfolding has_permission is_admin_user_id role_names configured_roles allows lookup
granted = refl

abbrev ban_bob : BanUserRequest
ban_bob = record { user_id = "bob"; ban_reason = none; ban_expires_in = some (pos 60) }

found_bob : find (has_user_id "bob") db.users ≡ some bob
unfolding find
found_bob = refl

ban_user_core_refuses_example :
    ((ban_user_core ten_later config admins clock ban_bob "alice" (alone db)).0
      ≡ ok (apply_update (ban_update ten_later config admins (clock 0) ban_bob) (clock 1) bob))
    × All
        (λ s. is_of "bob" s ≡ false)
        (ban_user_core ten_later config admins clock ban_bob "alice" (alone db)).1.db.sessions
    × ((issue_user_session config ban_metadata clock "id" "token" "bob" none none
          (ban_user_core ten_later config admins clock ban_bob "alice" (alone db)).1).0
        ≡ err (banned_user default_banned_message))
ban_user_core_refuses_example =
    ban_user_core_refuses ten_later config admins clock clock ban_bob "alice" db bob ban_metadata
      "id" "token" none none refl found_bob refl refl

-- A ban of bob that was to last until 5 and was never lifted, and a new one without a duration: the old
-- expiry stays, and the next sign-in lifts the new ban.
abbrev banned_until_5 : User
banned_until_5 = record bob { banned = true; ban_expires = some 5 }

abbrev with_old_ban : Db
with_old_ban = record db { users = alice ∷ banned_until_5 ∷ [] }

abbrev ban_for_good : BanUserRequest
ban_for_good = record { user_id = "bob"; ban_reason = none; ban_expires_in = none }

reban_is_over :
    (issue_user_session config ban_metadata clock "id" "token" "bob" none none
      (ban_user_core ten_later config admins clock ban_for_good "alice" (alone with_old_ban)).1).0
    ≡ ok (record (session_of "token" bob 1010) {
      id = "id";
      created_at = 10;
      updated_at = 10;
      active_organization_id = none;
    })
unfolding issue_user_session check_ban unban_user get_user_by_id or_user_not_found ban_user_core
    ban_other update_user or_no_user Manager.revoke_all_user_sessions Manager.list_user_sessions
    Manager.create_session Statements.create_session Statements.get_user_sessions
    Statements.delete_user_sessions find update_where delete_where count query ◌>>=◌
reban_is_over = refl

abbrev impersonated : Session
impersonated = record (session_of "token" bob 3_600_000_000_010) {
  id = "id";
  created_at = 10;
  updated_at = 10;
  active_organization_id = none;
  impersonated_by = some "alice";
}

entered_as_bob :
    (impersonate_user_core
      (λ now secs. none)
      admins
      clock
      "id"
      "token"
      "bob"
      "alice"
      none
      none
      visited).0
    ≡ ok (impersonated, bob)
unfolding impersonate_user_core impersonate_other impersonate_found impersonate_target
    check_target_ban get_user_by_id or_no_user target_is_admin is_admin_user_id is_admin_role
    role_names Statements.create_session find query ◌>>=◌
entered_as_bob = refl

impersonate_user_core_sound_example :
    Impersonates (λ now secs. none) admins clock "bob" "alice" visited impersonated
impersonate_user_core_sound_example =
    impersonate_user_core_sound (λ now secs. none) admins clock "id" "token" "bob" "alice" none none
      visited impersonated bob entered_as_bob

abbrev phone : Session
phone = session_of "phone" alice 1000

stopped_alice : (stop_impersonating_core impersonated "phone" visited).0 ≡ ok (phone, alice)
unfolding stop_impersonating_core impersonator or_failed return_session get_user_by_id
    Statements.get_session Statements.delete_session find query ◌>>=◌
stopped_alice = refl

stop_impersonating_core_sound_example : Stopped impersonated "phone" phone alice
stop_impersonating_core_sound_example =
    stop_impersonating_core_sound impersonated "phone" visited phone alice stopped_alice

abbrev env : AdminEnv
env = record {
  after_seconds = ten_later;
  empty_id = "id is required";
  clock = clock;
  id = "id";
  token = "token";
}

revoked :
    (handle config admins env
      (λ header. [])
      clock
      request
      (revoke_user_session (parsed "old"))
      visited).0
    ≡ ok (success true)
unfolding handle run_authorized authorize run revoke_user_session_core has_permission
    is_admin_user_id require_session extract_session_token Manager.get_session
    Statements.get_session Statements.delete_session lookup find query ◌>>=◌
revoked = refl

handle-Grants_example :
    (u : User) × (s : Session) × ((require_session (λ header. []) config clock request visited).0
      ≡ ok (u, s))
    × (IsAdminUser admins (some u.id)
        ⊎ Any (Grants admins (request_for ("session", "revoke"))) (role_names u.role "user"))
handle-Grants_example =
    handle-Grants config admins env (λ header. []) clock request
      (revoke_user_session (parsed "old")) visited (success true) revoked
