-- ===== src/Tests/Sessions.antt =====
-- The theorems on sessions at work.
use better_auth_rs.Prelude.{keep, ℕ, ◌+◌, true, false, ◌&&◌, none, some, ◌≡◌, refl, All, length}
use better_auth_rs.Error.{ok}
use better_auth_rs.Store.{alone, query, ◌>>=◌}
use better_auth_rs.Store.Table.{find, count}
use better_auth_rs.Store.Db.{Session}
use better_auth_rs.Session.Statements
use better_auth_rs.Session.Statements.{is_active_token, has_token, is_active_of, is_stale}
use better_auth_rs.Session.Manager.{
  is_dead, is_live, get_session, revoke_session, cleanup_expired_sessions,
}
use better_auth_rs.Session.Manager.Access.{get_session_available, get_session_sound}
use better_auth_rs.Session.Manager.Revocation.{get_session-revoke_session}
use better_auth_rs.Session.Manager.Others.{
  after_revoke_other, revoke_other_user_sessions_sound, cleanup_expired_sessions_sound, is_lasting,
}
use better_auth_rs.Tests.{db, config, clock, visited, alice, session_of}

abbrev phone : Session
phone = session_of "phone" alice 1000

found_phone : Statements.get_session "phone" visited ≡ (ok (some phone), alone db)
unfolding Statements.get_session query find
found_phone = refl

get_session_available_example :
    (s' : Session) × ((get_session config clock "phone" visited).0 ≡ ok (some s'))
get_session_available_example =
    get_session_available config clock "phone" phone visited (alone db) found_phone refl

opened_phone : (get_session config clock "phone" visited).0 ≡ ok (some phone)
unfolding get_session Statements.get_session ◌>>=◌ query find
opened_phone = refl

get_session_sound_example :
    (is_active_token "phone" phone ≡ true)
    × (s : Session) × ((Statements.get_session "phone" visited).0 ≡ ok (some s))
    × (is_dead (clock 0) s ≡ false)
get_session_sound_example = get_session_sound config clock "phone" visited phone opened_phone

get_session-revoke_session_example :
    (get_session config clock "phone" (revoke_session config clock "phone" (alone db)).1).0
    ≡ ok none
get_session-revoke_session_example = get_session-revoke_session config clock clock "phone" db

revoke_other_user_sessions_sound_example :
    All
      (λ t. (is_active_of "alice" t && is_live (clock 0) t) ≡ true → t.token ≡ "phone")
      (after_revoke_other config clock "alice" "phone" db)
    × (find (has_token "phone") (after_revoke_other config clock "alice" "phone" db)
        ≡ find (has_token "phone") db.sessions)
revoke_other_user_sessions_sound_example =
    revoke_other_user_sessions_sound config clock "alice" "phone" db

cleaned_one : (cleanup_expired_sessions config 10 (alone db)).0 ≡ ok 1
unfolding cleanup_expired_sessions Statements.delete_expired_sessions query count
cleaned_one = refl

cleanup_expired_sessions_sound_example :
    ((cleanup_expired_sessions config 10 (alone db)).1.db.sessions
      ≡ keep (is_lasting 10) db.sessions)
    × ((n : ℕ) × ((cleanup_expired_sessions config 10 (alone db)).0 ≡ ok n)
        × (n + length (keep (is_lasting 10) db.sessions) ≡ length db.sessions))
cleanup_expired_sessions_sound_example = cleanup_expired_sessions_sound config 10 db
