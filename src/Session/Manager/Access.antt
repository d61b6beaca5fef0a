-- ===== src/Session/Manager/Access.antt =====
-- What `get_session` promises, whatever other requests do meanwhile and whichever statement fails.
use better_auth_rs.Prelude.{
  ap, ◌∙◌, ℕ, ◌+◌, String, true, false, Option, none, some, ◌≡◌, refl, arith, Bool-cases, inl, inr,
}
use better_auth_rs.Error.{AuthResult, ok, err, AuthResult-cases}
use better_auth_rs.Store.{World, ◌>>=◌}
use better_auth_rs.Store.Answers.{query_ok, bind_ok}
use better_auth_rs.Store.Table.{find_holds}
use better_auth_rs.Store.Db.{Session, Db}
use better_auth_rs.Session.Statements
use better_auth_rs.Session.Statements.{is_active_token}
use better_auth_rs.Session.Manager.{
  SessionConfig, is_dead, should_refresh, get_session, examine, refreshed, reread,
}

module _ (config : SessionConfig) (clock : ℕ → ℕ) (token : String) where
  refreshed-some :
      (s : Session) (r : AuthResult (Unit {0})) (w : World Db)
      → (s' : Session) × ((refreshed config token s r w).0 ≡ ok (some s'))
  unfolding refreshed ◌>>=◌
  refreshed-some s (ok u) w = (reread config s (Statements.get_session token w).0, refl)
  refreshed-some s (err e) w = (s, refl)

  examine_live :
      (s : Session) (w : World Db)
      → is_dead (clock 0) s ≡ false
      → (s' : Session) × ((examine config clock token (some s) w).0 ≡ ok (some s'))
  unfolding examine ◌>>=◌
  examine_live s w h = elim (Bool-cases (should_refresh config (clock 1) s)) [
    | inl due ↦
        let after =
          Statements.update_session_expiry token (clock 2 + config.expires_in) (clock 3) w in
        rw (h, due) (refreshed-some s after.0 after.1)
    | inr fresh ↦ rw (h, fresh) (s, refl)
  ]

  -- A live session stays usable: once the first statement has read a session that is not expired,
  -- the call returns a session, whatever other requests do after it and whichever later statement
  -- fails.
  pub get_session_available :
      (s : Session) (w w' : World Db)
      → Statements.get_session token w ≡ (ok (some s), w')
      → is_dead (clock 0) s ≡ false
      → (s' : Session) × ((get_session config clock token w).0 ≡ ok (some s'))
  unfolding get_session ◌>>=◌
  get_session_available s w w' read live = rw read (examine_live s w' live)

-- What the read statement returns is the active row of the token.
get_session-is_active :
    (token : String) (w : World Db) (s : Session)
    → (Statements.get_session token w).0 ≡ ok (some s)
    → is_active_token token s ≡ true
unfolding Statements.get_session
get_session-is_active token w s h =
    let (d, e) = query_ok _ w _ h in find_holds (is_active_token token) d.sessions s (ground arith)

some_of : {s s' : Session} → ok (some s) ≡ ok (some s') → s ≡ s'
some_of e = cc

module _ (config : SessionConfig) (clock : ℕ → ℕ) (token : String) where
  reread_active :
      (s s' : Session) (w : World Db)
      → is_active_token token s ≡ true
      → reread config s (Statements.get_session token w).0 ≡ s'
      → is_active_token token s' ≡ true
  reread_active s s' w h e = elim (AuthResult-cases (Statements.get_session token w).0) [
    | inl (none, r) ↦ rw (← e, r) h
    | inl (some t, r) ↦ rw (← e, r) (get_session-is_active token w t r)
    | inr (x, r) ↦ rw (← e, r) h
  ]

  refreshed_active :
      (s s' : Session) (r : AuthResult (Unit {0})) (w : World Db)
      → is_active_token token s ≡ true
      → (refreshed config token s r w).0 ≡ ok (some s')
      → is_active_token token s' ≡ true
  unfolding refreshed ◌>>=◌
  refreshed_active s s' (ok u) w h e = reread_active s s' w h (cc e)
  refreshed_active s s' (err x) w h e = rw (← some_of e) h

  examine_sound :
      (o : Option Session) (s' : Session) (w : World Db)
      → (examine config clock token o w).0 ≡ ok (some s')
      → (s : Session) × (o ≡ some s)
        × (is_dead (clock 0) s ≡ false)
        × (is_active_token token s ≡ true → is_active_token token s' ≡ true)
  unfolding examine ◌>>=◌
  examine_sound none s' w e = cc
  examine_sound (some s) s' w e = elim (Bool-cases (is_dead (clock 0) s)) [
    | inl dead ↦ let e' = rw dead at e in cc
    | inr live ↦ elim (Bool-cases (should_refresh config (clock 1) s)) [
      | inl due ↦
          (s, refl, live, λ h. let e' = rw (live, due) at e in refreshed_active s s' _ _ h e')
      | inr fresh ↦ (s, refl, live, λ h. let e' = rw (live, fresh) at e in rw (← some_of e') h)
    ]
  ]

  -- A session that the call returns is an active one of the token, and the session that its first
  -- statement read was not expired: whatever other requests do meanwhile and whichever statement
  -- fails.
  pub get_session_sound :
      (w : World Db) (s' : Session)
      → (get_session config clock token w).0 ≡ ok (some s')
      → (is_active_token token s' ≡ true)
        × (s : Session) × ((Statements.get_session token w).0 ≡ ok (some s))
        × (is_dead (clock 0) s ≡ false)
  unfolding get_session
  get_session_sound w s' e =
      let (o, first, later) =
        bind_ok (Statements.get_session token) (examine config clock token) w _ e in
      let (s, same, live, keeps) = examine_sound o s' _ later in
      let read = first ∙ ap ok same in (keeps (get_session-is_active token w s read), s, read, live)
