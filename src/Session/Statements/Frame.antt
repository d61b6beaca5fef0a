-- ===== src/Session/Statements/Frame.antt =====
-- The statements on sessions change the sessions table alone.
use better_auth_rs.Prelude.{ℕ, String, Option, none, some, Bool-cases, inl, inr, eqb}
use better_auth_rs.Error.{ok}
use better_auth_rs.Store
use better_auth_rs.Store.Db.{Session, Db}
use better_auth_rs.Store.Rely.{Keeps}
use better_auth_rs.Store.Table.{count, delete_where}
use better_auth_rs.Store.Frames.{Frames, framed-query, frame_rules}
use better_auth_rs.Session.Statements.{
  CreateSession, get_session, create_session, or_not_found, update_row, updated_row,
  update_session_expiry, delete_session, update_session_active_organization, has_id, has_token,
  set_sessions,
}

module _ {R : Db → Db → Type 0} (frames : Frames R) where
  update_row-Keeps : (id : String) (f : Session → Session) (d : Db) → R d (update_row id f d).1
  update_row-Keeps id f d = elim (Bool-cases (eqb (count (has_id id) d.sessions) 0)) [
    | inl e ↦ rw e (frames.reflexive d)
    | inr e ↦ rw e (frames.sessions_free d _)
  ]

  pub get_session-Keeps : (token : String) → Keeps R (get_session token)
  unfolding get_session
  get_session-Keeps token = search (frame_rules, frames)

  pub create_session-Keeps :
      (id token : String) (now : ℕ) (c : CreateSession) → Keeps R (create_session id token now c)
  unfolding create_session
  create_session-Keeps id token now c = framed-query frames _ (λ d. frames.sessions_free d _)

  or_not_found-Keeps : (o : Option Session) → Keeps R (or_not_found o)
  unfolding or_not_found
  or_not_found-Keeps none = search (frame_rules, frames)
  or_not_found-Keeps (some s) = search (frame_rules, frames)

  update-Keeps : (id : String) (f : Session → Session) → Keeps R (Store.query (update_row id f))
  update-Keeps id f = framed-query frames _ (update_row-Keeps id f)

  pub update_session_expiry-Keeps :
      (token : String) (e now : ℕ) → Keeps R (update_session_expiry token e now)
  unfolding update_session_expiry
  update_session_expiry-Keeps token e now =
      search (frame_rules, frames, or_not_found-Keeps, update-Keeps)

  updated-Keeps : (id : String) (f : Session → Session) → Keeps R (Store.query (updated_row id f))
  updated-Keeps id f = framed-query frames _ (λ d.
      elim (Bool-cases (eqb (count (has_id id) d.sessions) 0)) [
        | inl e ↦ rw e (frames.reflexive d)
        | inr e ↦ rw e (frames.sessions_free d _)
      ])

  pub update_session_active_organization-Keeps :
      (token : String) (o : Option String) (now : ℕ)
      → Keeps R (update_session_active_organization token o now)
  unfolding update_session_active_organization
  update_session_active_organization-Keeps token o now =
      search (frame_rules, frames, or_not_found-Keeps, updated-Keeps)

  delete-Keeps :
      (token : String)
      → Keeps R
          (Store.query (λ d. (ok tt, set_sessions d (delete_where (has_token token) d.sessions))))
  delete-Keeps token = framed-query frames _ (λ d. frames.sessions_free d _)

  pub delete_session-Keeps : (token : String) → Keeps R (delete_session token)
  unfolding delete_session
  delete_session-Keeps token = search (frame_rules, frames, delete-Keeps)
