-- ===== src/Session/Manager/Revocation.antt =====
-- What revoking achieves when no other request runs meanwhile and no statement fails.
use better_auth_rs.Prelude.{
  ap, ℕ, ◌+◌, String, true, false, Option, none, some, ◌≡◌, refl, arith, Bool-cases, inl, inr, ◌⊎◌,
  Option-cases, eq_refl,
}
use better_auth_rs.Error.{AuthResult, ok, err}
use better_auth_rs.Store.{query, alone, ◌>>=◌}
use better_auth_rs.Store.Quiet.{IsQuiet, IsQuiet-pure, quiet_rules}
use better_auth_rs.Store.Table.{
  find, delete_where, find-delete_where, find-update_where, count_found, update_where,
}
use better_auth_rs.Store.Db.{Session, Db}
use better_auth_rs.Session.Statements
use better_auth_rs.Session.Statements.Quiet.{
  IsQuiet-read_session, IsQuiet-update_session_expiry, IsQuiet-delete_session, delete_session_lem,
}
use better_auth_rs.Session.Statements.{is_active_token, has_token, set_sessions}
use better_auth_rs.Session.Manager.{
  SessionConfig, is_dead, should_refresh, get_session, revoke_session, examine, refresh, refreshed,
  drop_dead, revoke_found,
}

module _ (config : SessionConfig) where
  -- Nothing is active under the token: the call finds nothing and changes nothing.
  get_session_absent :
      (clock : ℕ → ℕ) (token : String) (d : Db)
      → find (is_active_token token) d.sessions ≡ none
      → get_session config clock token (alone d) ≡ (ok none, alone d)
  unfolding get_session Statements.get_session query ◌>>=◌
  get_session_absent clock token d h = rw h

  IsQuiet-refreshed :
      (token : String) (s : Session) (r : AuthResult (Unit {0}))
      → IsQuiet (refreshed config token s r)
  unfolding refreshed
  IsQuiet-refreshed token s (ok u) = search (quiet_rules, IsQuiet-read_session)
  IsQuiet-refreshed token s (err e) = search quiet_rules

  IsQuiet-refresh :
      (clock : ℕ → ℕ) (token : String) (s : Session) → IsQuiet (refresh config clock token s)
  unfolding refresh
  IsQuiet-refresh clock token s =
      search (quiet_rules, IsQuiet-update_session_expiry, IsQuiet-refreshed)

  IsQuiet-drop_dead : (token : String) → IsQuiet (drop_dead config token)
  unfolding drop_dead
  IsQuiet-drop_dead token = search (quiet_rules, IsQuiet-delete_session)

  IsQuiet-examine :
      (clock : ℕ → ℕ) (token : String) (o : Option Session) → IsQuiet (examine config clock token o)
  unfolding examine
  IsQuiet-examine clock token none = IsQuiet-pure none
  IsQuiet-examine clock token (some s) = elim (Bool-cases (is_dead (clock 0) s)) [
    | inl dead ↦ rw dead (IsQuiet-drop_dead token)
    | inr live ↦ elim (Bool-cases (should_refresh config (clock 1) s)) [
      | inl due ↦ rw (live, due) (IsQuiet-refresh clock token s)
      | inr fresh ↦ rw (live, fresh) (IsQuiet-pure (some s))
    ]
  ]

  IsQuiet-get_session : (clock : ℕ → ℕ) (token : String) → IsQuiet (get_session config clock token)
  unfolding get_session
  IsQuiet-get_session clock token = search (quiet_rules, IsQuiet-read_session, IsQuiet-examine)

  abbrev renewed : (ℕ → ℕ) → Session → Session
  renewed clock s = record s { expires_at = clock 2 + config.expires_in; updated_at = clock 3 }

  -- What remains when every row of the token is deleted.
  abbrev without_token : String → Db → Db
  without_token token d = set_sessions d (delete_where (has_token token) d.sessions)

  module _ (clock : ℕ → ℕ) (token : String) (d : Db) (s : Session)
      (found : find (is_active_token token) d.sessions ≡ some s) where
    get_session_dead :
        is_dead (clock 0) s ≡ true
        → get_session config clock token (alone d) ≡ (ok none, alone (without_token token d))
    unfolding get_session examine drop_dead Statements.get_session Statements.delete_session query
        ◌>>=◌
    get_session_dead dead = rw (found, dead)

    get_session_fresh :
        is_dead (clock 0) s ≡ false
        → should_refresh config (clock 1) s ≡ false
        → get_session config clock token (alone d) ≡ (ok (some s), alone d)
    unfolding get_session examine Statements.get_session query ◌>>=◌
    get_session_fresh live fresh = rw (found, live, fresh)

    get_session-renewed :
        is_dead (clock 0) s ≡ false
        → should_refresh config (clock 1) s ≡ true
        → get_session config clock token (alone d) ≡ (
          ok (some (renewed clock s)),
          alone (set_sessions d (update_where (Statements.has_id s.id) (renewed clock) d.sessions)),
        )
    unfolding get_session examine refresh refreshed Statements.get_session
        Statements.update_session_expiry query ◌>>=◌
    get_session-renewed live due =
        let same =
          find-update_where (is_active_token token) (Statements.has_id s.id) (renewed clock)
            d.sessions (λ a. refl) in
        let some_row =
          count_found (is_active_token token) (Statements.has_id s.id) d.sessions s found
            (eq_refl s.id) in
        rw (found, live, due, found, some_row, same, found, eq_refl s.id)

  -- The three outcomes of a call that is alone: nothing under the token, an expired session, and a
  -- live one.
  get_session_cases :
      (clock : ℕ → ℕ) (token : String) (d : Db)
      → (get_session config clock token (alone d) ≡ (ok none, alone d))
          × (find (is_active_token token) d.sessions ≡ none)
        ⊎ (get_session config clock token (alone d) ≡ (ok none, alone (without_token token d)))
        ⊎ ((s : Session) × ((get_session config clock token (alone d)).0 ≡ ok (some s)))
  get_session_cases clock token d = elim (Option-cases (find (is_active_token token) d.sessions)) [
    | inl absent ↦ inl (get_session_absent clock token d absent, absent)
    | inr (s, found) ↦ elim (Bool-cases (is_dead (clock 0) s)) [
      | inl dead ↦ inr (inl (get_session_dead clock token d s found dead))
      | inr live ↦ elim (Bool-cases (should_refresh config (clock 1) s)) [
        | inl due ↦ inr (
            inr
              (renewed clock s, ap (λ p. p.0) (get_session-renewed clock token d s found live due)))
        | inr fresh ↦
            inr (inr (s, ap (λ p. p.0) (get_session_fresh clock token d s found live fresh)))
      ]
    ]
  ]

  no_row :
      (token : String) (d : Db)
      → find (is_active_token token) (without_token token d).sessions ≡ none
  no_row token d =
      find-delete_where (has_token token) (is_active_token token) d.sessions (λ a h. ground arith)

  -- After `revoke_session`, run alone on any database, whatever it answers, a call of `get_session` with
  -- the token, run alone at whatever time, answers that there is none.
  pub get_session-revoke_session :
      (clock clock' : ℕ → ℕ) (token : String) (d : Db)
      → (get_session config clock' token (revoke_session config clock token (alone d)).1).0
        ≡ ok none
  unfolding revoke_session revoke_found ◌>>=◌
  get_session-revoke_session clock clock' token d = elim (get_session_cases clock token d) [
    | inl (r, absent) ↦ rw (r, get_session_absent clock' token d absent)
    | inr (inl r) ↦ rw (r, get_session_absent clock' token (without_token token d) (no_row token d))
    | inr (inr (s, r)) ↦
        let after = (get_session config clock token (alone d)).1.db in
        rw (
          r,
          (IsQuiet-get_session clock token).at d,
          delete_session_lem token after,
          get_session_absent clock' token (without_token token after) (no_row token after),
        )
  ]
