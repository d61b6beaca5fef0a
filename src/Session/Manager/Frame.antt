-- ===== src/Session/Manager/Frame.antt =====
-- The session manager changes the sessions table alone.
use better_auth_rs.Prelude.{ℕ, String, Bool-cases, inl, inr, Option, none, some}
use better_auth_rs.Error.{AuthResult, ok, err}
use better_auth_rs.Store.Db.{User, Session, Db}
use better_auth_rs.Store.Rely.{Keeps}
use better_auth_rs.Store.Frames.{Frames, frame_rules}
use better_auth_rs.Session.Statements.Frame.{
  get_session-Keeps, update_session_expiry-Keeps, delete_session-Keeps, create_session-Keeps,
}
use better_auth_rs.Session.Manager.{
  SessionConfig, is_dead, should_refresh, get_session, create_session, examine, refresh, refreshed,
  drop_dead,
}

module _ {R : Db → Db → Type 0} (frames : Frames R) (config : SessionConfig) where
  refreshed-Keeps :
      (token : String) (s : Session) (r : AuthResult (Unit {0}))
      → Keeps R (refreshed config token s r)
  unfolding refreshed
  refreshed-Keeps token s (ok u) = search (frame_rules, frames, get_session-Keeps)
  refreshed-Keeps token s (err e) = search (frame_rules, frames)

  refresh-Keeps :
      (clock : ℕ → ℕ) (token : String) (s : Session) → Keeps R (refresh config clock token s)
  unfolding refresh
  refresh-Keeps clock token s =
      search (frame_rules, frames, update_session_expiry-Keeps, refreshed-Keeps)

  drop_dead-Keeps : (token : String) → Keeps R (drop_dead config token)
  unfolding drop_dead
  drop_dead-Keeps token = search (frame_rules, frames, delete_session-Keeps)

  examine-Keeps :
      (clock : ℕ → ℕ) (token : String) (o : Option Session) → Keeps R (examine config clock token o)
  unfolding examine
  examine-Keeps clock token none = search (frame_rules, frames)
  examine-Keeps clock token (some s) = elim (Bool-cases (is_dead (clock 0) s)) [
    | inl dead ↦ rw dead (drop_dead-Keeps token)
    | inr live ↦ elim (Bool-cases (should_refresh config (clock 1) s)) [
      | inl due ↦ rw (live, due) (refresh-Keeps clock token s)
      | inr fresh ↦ rw (live, fresh) (search (frame_rules, frames))
    ]
  ]

  pub manager_get_session-Keeps :
      (clock : ℕ → ℕ) (token : String) → Keeps R (get_session config clock token)
  unfolding get_session
  manager_get_session-Keeps clock token =
      search (frame_rules, frames, get_session-Keeps, examine-Keeps)

  pub manager_create_session-Keeps :
      (id token : String) (clock : ℕ → ℕ) (u : User) (ip agent : Option String)
      → Keeps R (create_session config id token clock u ip agent)
  unfolding create_session
  manager_create_session-Keeps id token clock u ip agent =
      search (frame_rules, frames, create_session-Keeps)
