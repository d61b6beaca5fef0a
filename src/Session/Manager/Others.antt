-- ===== src/Session/Manager/Others.antt =====
-- `revoke_other_user_sessions` and `cleanup_expired_sessions`, alone.
use better_auth_rs.Prelude.{
  leb, ap, subst, ◌∙◌, sym, ℕ, ◌+◌, String, Bool, true, false, ◌≡◌, refl, arith, Bool-cases, inl,
  inr, eq_iff, eq_refl, List, [], ◌∷◌, if◌then◌else◌, any, any_self, any-keep, keep, All, All-of,
  All-map₂, length, ◌==◌, ◌&&◌,
}
use better_auth_rs.Error.{ok}
use better_auth_rs.Store.{query, alone, ◌>>=◌}
use better_auth_rs.Store.Table.{
  find, delete_where, count, All-delete_where, delete_where-All, find-delete_where_disjoint,
  count-add-delete_where,
}
use better_auth_rs.Store.Db.{Session, Db}
use better_auth_rs.Session.Statements
use better_auth_rs.Session.Statements.{
  is_active_of, has_token, set_sessions, insert_newest, newest_first, is_stale,
}
use better_auth_rs.Session.Statements.Quiet.{delete_session_lem}
use better_auth_rs.Session.Manager.{
  SessionConfig, is_live, list_user_sessions, revoke_loop, revoke_other_user_sessions,
  cleanup_expired_sessions,
}

abbrev is_other : String → Session → Bool
is_other current s = if s.token == current then false else true

-- The table after the loop over the listed sessions.
purge : String → List Session → List Session → List Session
purge current [] xs = xs
purge current (s ∷ l) xs =
    purge current l (if s.token == current then xs else delete_where (has_token s.token) xs)

module _ (config : SessionConfig) (current : String) where
  revoke_loop_lem :
      (l : List Session) (n : ℕ) (d : Db)
      → revoke_loop config current l n (alone d)
        ≡ (ok (n + count (is_other current) l), alone (set_sessions d (purge current l d.sessions)))
  unfolding revoke_loop purge count ◌>>=◌
  revoke_loop_lem [] n d = ap (λ k. (ok k, alone d)) (omega arith)
  revoke_loop_lem (s ∷ l) n d = elim (Bool-cases (s.token == current)) [
    | inl same ↦
        rw (same, revoke_loop_lem l n d)
          (ap (λ k. (ok k, alone (set_sessions d (purge current l d.sessions)))) (omega arith))
    | inr other ↦
        rw
          (
            other,
            delete_session_lem s.token d,
            revoke_loop_lem l (n + 1)
                (set_sessions d (delete_where (has_token s.token) d.sessions)),
          )
          (ap
            (λ k. (
              ok k,
              alone
                  (set_sessions d (purge current l (delete_where (has_token s.token) d.sessions))),
            ))
            (omega arith))
  ]

purge-All :
    (P : Session → Type 0) (current : String) (l xs : List Session)
    → All P xs
    → All P (purge current l xs)
unfolding purge
purge-All P current [] xs h = h
purge-All P current (s ∷ l) xs h = elim (Bool-cases (s.token == current)) [
  | inl e ↦ rw e (purge-All P current l xs h)
  | inr e ↦ rw e (
      purge-All P current l (delete_where (has_token s.token) xs)
        (delete_where-All P (has_token s.token) xs h))
]

-- Whether a listed session other than the current one has the token.
abbrev is_revoked : String → List Session → String → Bool
is_revoked current l token = any (λ s. is_other current s && s.token == token) l

-- No row that is left has the token of a session that the loop revoked.
purge_sound :
    (current : String) (l xs : List Session)
    → All (λ t. is_revoked current l t.token ≡ false) (purge current l xs)
unfolding purge
purge_sound current [] xs = All-of (λ t. refl) xs
purge_sound current (s ∷ l) xs = elim (Bool-cases (s.token == current)) [
  | inl e ↦ rw e (purge_sound current l xs)
  | inr e ↦
      let xs' = delete_where (has_token s.token) xs in
      let gone =
        purge-All (λ t. (t.token == s.token) ≡ false) current l xs'
          (All-delete_where (has_token s.token) xs) in
      rw e (
        All-map₂ (λ t h k. ground (arith, eq_iff s.token t.token, eq_iff t.token s.token))
          (purge current l xs') gone (purge_sound current l xs'))
]

-- A listed session whose token is not revoked is the current one.
current_of :
    (current token : String) (l : List Session)
    → any (λ s. s.token == token) l ≡ true
    → is_revoked current l token ≡ false
    → token ≡ current
current_of current token [] h k = cc
current_of current token (s ∷ l) h k =
    ground (arith, eq_iff s.token token, eq_iff s.token current, current_of current token l)

any-insert_newest :
    (q : Session → Bool) (s : Session) (l : List Session)
    → any q (insert_newest s l) ≡ any q (s ∷ l)
any-insert_newest q s [] = refl
any-insert_newest q s (t ∷ l) = ground (arith, any-insert_newest q s l)

any-newest_first : (q : Session → Bool) (l : List Session) → any q (newest_first l) ≡ any q l
any-newest_first q [] = refl
any-newest_first q (s ∷ l) =
    ground (arith, any-insert_newest q s (newest_first l), any-newest_first q l)

-- The sessions that `list_user_sessions` returns.
abbrev listed : ℕ → String → List Session → List Session
listed now user_id xs = keep (is_live now) (newest_first (keep (is_active_of user_id) xs))

abbrev in_list : ℕ → String → Session → Session → Bool
in_list now user_id s t = is_active_of user_id s && (is_live now s && s.token == t.token)

any-listed :
    (now : ℕ) (user_id : String) (xs : List Session) (t : Session)
    → any (λ s. s.token == t.token) (listed now user_id xs) ≡ any (λ s. in_list now user_id s t) xs
any-listed now user_id xs t =
    any-keep (is_live now) (λ s. s.token == t.token) (newest_first (keep (is_active_of user_id) xs))
    ∙ any-newest_first (λ s. is_live now s && s.token == t.token) (keep (is_active_of user_id) xs)
    ∙ any-keep (is_active_of user_id) (λ s. is_live now s && s.token == t.token) xs

find-purge :
    (current : String) (l xs : List Session)
    → find (has_token current) (purge current l xs) ≡ find (has_token current) xs
unfolding purge
find-purge current [] xs = refl
find-purge current (s ∷ l) xs = elim (Bool-cases (s.token == current)) [
  | inl e ↦ rw e (find-purge current l xs)
  | inr e ↦ rw e (
      find-purge current l (delete_where (has_token s.token) xs)
      ∙ find-delete_where_disjoint (has_token s.token) (has_token current) xs (λ a h.
        ground (arith, eq_iff a.token current, eq_iff a.token s.token, eq_iff s.token current)))
]

module _ (config : SessionConfig) (clock : ℕ → ℕ) (user_id current : String) (d : Db) where
  revoke_other_lem : revoke_other_user_sessions config clock user_id current (alone d) ≡ (
    ok (0 + count (is_other current) (listed (clock 0) user_id d.sessions)),
    alone (set_sessions d (purge current (listed (clock 0) user_id d.sessions) d.sessions)),
  )
  unfolding revoke_other_user_sessions list_user_sessions Statements.get_user_sessions query ◌>>=◌
  revoke_other_lem = revoke_loop_lem config current (listed (clock 0) user_id d.sessions) 0 d

  -- The table after `revoke_other_user_sessions`.
  abbrev pub after_revoke_other : List Session
  after_revoke_other =
      (revoke_other_user_sessions config clock user_id current (alone d)).1.db.sessions

  -- After `revoke_other_user_sessions`, run alone, every active row of the user that is unexpired at
  -- the time of the call has the caller's token, and the first row of that token is as before.
  pub revoke_other_user_sessions_sound :
      All
        (λ t. (is_active_of user_id t && is_live (clock 0) t) ≡ true → t.token ≡ current)
        after_revoke_other
      × (find (has_token current) after_revoke_other ≡ find (has_token current) d.sessions)
  revoke_other_user_sessions_sound =
      let l = listed (clock 0) user_id d.sessions in
      subst
        (λ xs.
          All (λ t. (is_active_of user_id t && is_live (clock 0) t) ≡ true → t.token ≡ current) xs
          × (find (has_token current) xs ≡ find (has_token current) d.sessions))
        (sym (ap (λ p. p.1.db.sessions) revoke_other_lem))
        (
          All-map₂
              (λ t h k c.
                current_of current t.token l
                  (any-listed (clock 0) user_id d.sessions t ∙ h (ground (arith, eq_refl t.token)))
                  k)
              (purge current l d.sessions)
              (purge-All _ current l d.sessions (any_self (in_list (clock 0) user_id) d.sessions))
              (purge_sound current l d.sessions),
          find-purge current l d.sessions,
        )

-- A session that is active and not expired at the time.
abbrev pub is_lasting : ℕ → Session → Bool
is_lasting now s = leb now s.expires_at && s.active

delete_stale_lem :
    (now : ℕ) (l : List Session) → delete_where (is_stale now) l ≡ keep (is_lasting now) l
unfolding delete_where
delete_stale_lem now [] = refl
delete_stale_lem now (s ∷ l) = ground (arith, delete_stale_lem now l)

-- `cleanup_expired_sessions`, alone, succeeds; the sessions that it leaves are those that were there and
-- are active and not expired at its time, as they were and in their order; and it answers how many
-- rows it removed.
pub cleanup_expired_sessions_sound :
    (config : SessionConfig) (now : ℕ) (d : Db)
    → ((cleanup_expired_sessions config now (alone d)).1.db.sessions
        ≡ keep (is_lasting now) d.sessions)
      × ((n : ℕ) × ((cleanup_expired_sessions config now (alone d)).0 ≡ ok n)
          × (n + length (keep (is_lasting now) d.sessions) ≡ length d.sessions))
unfolding cleanup_expired_sessions Statements.delete_expired_sessions query
cleanup_expired_sessions_sound config now d =
    let rows = delete_stale_lem now d.sessions in
    (
      rows,
      (
        count (is_stale now) d.sessions,
        refl,
        ap (λ l. count (is_stale now) d.sessions + length l) (sym rows)
            ∙ count-add-delete_where (is_stale now) d.sessions,
      ),
    )
