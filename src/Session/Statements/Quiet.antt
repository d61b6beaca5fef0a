-- ===== src/Session/Statements/Quiet.antt =====
-- The statements of several parts leave an empty schedule empty.
use better_auth_rs.Prelude.{ℕ, String, Option, none, some, ◌≡◌, refl}
use better_auth_rs.Error.{ok}
use better_auth_rs.Store.{alone, query, ◌>>=◌}
use better_auth_rs.Store.Table.{delete_where}
use better_auth_rs.Store.Quiet.{IsQuiet, quiet_rules}
use better_auth_rs.Store.Db.{Session, Db}
use better_auth_rs.Session.Statements.{
  get_session, or_not_found, update_session_expiry, delete_session,
  update_session_active_organization, set_sessions, has_token,
}

pub IsQuiet-read_session : (token : String) → IsQuiet (get_session token)
unfolding get_session
IsQuiet-read_session token = search quiet_rules

IsQuiet-or_not_found : (o : Option Session) → IsQuiet (or_not_found o)
unfolding or_not_found
IsQuiet-or_not_found none = search quiet_rules
IsQuiet-or_not_found (some s) = search quiet_rules

pub IsQuiet-update_session_expiry :
    (token : String) (e now : ℕ) → IsQuiet (update_session_expiry token e now)
unfolding update_session_expiry
IsQuiet-update_session_expiry token e now = search (quiet_rules, IsQuiet-or_not_found)

pub IsQuiet-delete_session : (token : String) → IsQuiet (delete_session token)
unfolding delete_session
IsQuiet-delete_session token = search quiet_rules

-- Deleting a session, alone.
pub delete_session_lem :
    (token : String) (d : Db)
    → delete_session token (alone d)
      ≡ (ok tt, alone (set_sessions d (delete_where (has_token token) d.sessions)))
unfolding delete_session query ◌>>=◌
delete_session_lem token d = refl

pub IsQuiet-update_session_active_organization :
    (token : String) (o : Option String) (now : ℕ)
    → IsQuiet (update_session_active_organization token o now)
unfolding update_session_active_organization
IsQuiet-update_session_active_organization token o now = search (quiet_rules, IsQuiet-or_not_found)
