-- ===== src/Session/Manager.antt =====
-- crates/core/src/session.rs: `SessionManager`. `clock n` is the n-th reading of the clock in a call.
pub mod Access
pub mod Frame
pub mod Revocation
pub mod Others
use better_auth_rs.Prelude.{
  ℕ, ℤ, ◌+◌, String, Bool, true, false, not, ◌&&◌, ◌||◌, Option, none, some, List, [], ◌∷◌, ltb,
  lez, sub_ℕ, ◌==◌, keep, if◌then◌else◌, length,
}
use better_auth_rs.Error.{AuthResult, ok, err}
use better_auth_rs.Store.{Exec, pure, attempt, ◌>>=◌}
use better_auth_rs.Store.Db.{User, Session, Db}
use better_auth_rs.Session.Statements

-- `SessionConfig`. Durations are nanoseconds.
pub record SessionConfig : Type 0 where
  pub expires_in : ℕ
  pub update_age : Option ℤ
  pub disable_session_refresh : Bool
  pub fresh_age : Option ℕ
  pub cookie_name : String

abbrev pub is_dead : ℕ → Session → Bool
is_dead now s = ltb s.expires_at now || not s.active

abbrev pub is_live : ℕ → Session → Bool
is_live now s = ltb now s.expires_at && s.active

module _ (config : SessionConfig) where
  unfoldable pub create_session :
      String → String → (ℕ → ℕ) → User → Option String → Option String → Exec Db Session
  create_session id token clock user ip_address user_agent =
      Statements.create_session id token (clock 1) (record {
        user_id = user.id;
        expires_at = clock 0 + config.expires_in;
        ip_address = ip_address;
        user_agent = user_agent;
        impersonated_by = none;
        active_organization_id = none;
      })

  -- Whether `update_age` has passed since the last update.
  abbrev pub is_old : ℕ → Session → Option ℤ → Bool
  is_old now s none = true
  is_old now s (some age) = lez age (sub_ℕ now s.updated_at)

  abbrev pub should_refresh : ℕ → Session → Bool
  should_refresh now s =
      if config.disable_session_refresh then false else is_old now s config.update_age

  -- The re-read after a refresh: a failure and a missing row keep the earlier value.
  abbrev pub reread : Session → AuthResult (Option Session) → Session
  reread s (ok (some refreshed)) = refreshed
  reread s (ok none) = s
  reread s (err e) = s

  refreshed : String → Session → AuthResult (Unit {0}) → Exec Db (Option Session)
  refreshed token s (ok u) = do
    again ← attempt (Statements.get_session token)
    pure (some (reread s again))
  refreshed token s (err e) = pure (some s)

  refresh : (ℕ → ℕ) → String → Session → Exec Db (Option Session)
  unfolding refreshed
  refresh clock token s = do
    done ← attempt (Statements.update_session_expiry token (clock 2 + config.expires_in) (clock 3))
    refreshed token s done

  -- An expired session is deleted, whatever becomes of the deletion.
  drop_dead : String → Exec Db (Option Session)
  drop_dead token = do done ← attempt (Statements.delete_session token); pure none

  examine : (ℕ → ℕ) → String → Option Session → Exec Db (Option Session)
  unfolding refresh drop_dead
  examine clock token none = pure none
  examine clock token (some s) =
      if is_dead (clock 0) s
      then drop_dead token
      else if should_refresh (clock 1) s
      then refresh clock token s
      else pure (some s)

  unfoldable pub get_session : (ℕ → ℕ) → String → Exec Db (Option Session)
  unfolding examine
  get_session clock token = do found ← Statements.get_session token; examine clock token found

  unfoldable pub list_user_sessions : (ℕ → ℕ) → String → Exec Db (List Session)
  list_user_sessions clock user_id = do
    sessions ← Statements.get_user_sessions user_id
    pure (keep (is_live (clock 0)) sessions)

  revoke_found : String → Option Session → Exec Db Bool
  revoke_found token none = pure false
  revoke_found token (some s) = do done ← Statements.delete_session token; pure true

  unfoldable pub revoke_session : (ℕ → ℕ) → String → Exec Db Bool
  unfolding revoke_found
  revoke_session clock token = do found ← get_session clock token; revoke_found token found

  unfoldable pub revoke_all_user_sessions : (ℕ → ℕ) → String → Exec Db ℕ
  revoke_all_user_sessions clock user_id = do
    sessions ← list_user_sessions clock user_id
    done ← Statements.delete_user_sessions user_id
    pure (length sessions)

  -- The loop over the listed sessions, with its count.
  pub revoke_loop : String → List Session → ℕ → Exec Db ℕ
  revoke_loop current_token [] n = pure n
  revoke_loop current_token (s ∷ l) n =
      let skipped = revoke_loop current_token l n in
      let revoked =
        Statements.delete_session s.token >>= λ _. revoke_loop current_token l (n + 1) in
      if s.token == current_token then skipped else revoked

  unfoldable pub revoke_other_user_sessions : (ℕ → ℕ) → String → String → Exec Db ℕ
  revoke_other_user_sessions clock user_id current_token = do
    sessions ← list_user_sessions clock user_id
    revoke_loop current_token sessions 0

  unfoldable pub cleanup_expired_sessions : ℕ → Exec Db ℕ
  cleanup_expired_sessions now = Statements.delete_expired_sessions now

  abbrev pub is_session_fresh : ℕ → Session → Bool
  is_session_fresh now s = elim config.fresh_age [
    | none ↦ false
    | some age ↦ ltb now (s.created_at + age)
  ]
