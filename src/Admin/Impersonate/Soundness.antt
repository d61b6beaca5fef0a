-- ===== src/Admin/Impersonate/Soundness.antt =====
-- What impersonating a user, and stopping it, requires, under any interference and failure.
use better_auth_rs.Prelude.{
  ℕ, ℤ, String, Bool, true, false, not, ◌&&◌, Option, none, some, ◌≡◌, refl, sym, ap, ◌∙◌, inl, inr,
  ◌⊎◌, Bool-cases, eq_iff, eqb, if◌then◌else◌, subst, arith, ◌==◌,
}
use better_auth_rs.Error.{AuthError, ok, ok_of, err_ne_ok}
use better_auth_rs.Store.{World, Exec, query, pure, throw}
use better_auth_rs.Store.Answers.{bind_ok, read_ok, query_ok, throw_fails, pure_ok, guard_ok}
use better_auth_rs.Store.Table.{find, find_holds, count, update_where}
use better_auth_rs.Store.Db.{User, Session, Db}
use better_auth_rs.Session.Statements
use better_auth_rs.Session.Statements.{is_active_token, new_active, CreateSession}
use better_auth_rs.Session.Issue.{
  get_user_by_id, has_user_id, or_user_not_found, update_user_row, ban_is_over,
}
use better_auth_rs.Admin.{AdminConfig}
use better_auth_rs.Admin.Update.{UpdateUser, apply_update, update_user, or_no_user, lifted}
use better_auth_rs.Admin.Impersonate.{
  check_target_ban, impersonation_end, is_protected, impersonate_target, impersonate_found,
  impersonate_other, impersonate_user_core, impersonator, or_failed, return_session,
  stop_impersonating_core,
}

get_user_by_id_ok :
    (id : String) (w : World Db) (o : Option User)
    → (get_user_by_id id w).0 ≡ ok o
    → (d : Db) × (find (has_user_id id) d.users ≡ o)
unfolding get_user_by_id
get_user_by_id_ok id w o h = read_ok (λ d. find (has_user_id id) d.users) w o h

or_user_not_found_ok :
    (o : Option User) (w : World Db) (u : User) → (or_user_not_found o w).0 ≡ ok u → o ≡ some u
unfolding or_user_not_found
or_user_not_found_ok none w u h = throw_fails _ w u h
or_user_not_found_ok (some v) w u h = ap some (pure_ok v u w h)

update_user_row_ok :
    (id : String) (f : User → User) (d : Db) (u : User)
    → (update_user_row id f d).0 ≡ ok (some u)
    → has_user_id id u ≡ true
update_user_row_ok id f d u h = elim (Bool-cases (eqb (count (has_user_id id) d.users) 0)) [
  | inl e ↦ absurd (err_ne_ok (rw e at h))
  | inr e ↦
      find_holds (has_user_id id) (update_where (has_user_id id) f d.users) u (ok_of (rw e at h))
]

-- A user that an update returns has the identifier.
update_user_ok :
    (id : String) (update : UpdateUser) (now : ℕ) (w : World Db) (u : User)
    → (update_user id update now w).0 ≡ ok u
    → u.id ≡ id
unfolding update_user
update_user_ok id update now w u h =
    let (found, _, second) = bind_ok (get_user_by_id id) _ w u h in
    let (model, _, third) = bind_ok (or_user_not_found found) _ _ u second in
    let (updated, row, last) =
      bind_ok (query (update_user_row id (apply_update update now))) _ _ u third in
    let (d, answer) = query_ok (update_user_row id (apply_update update now)) _ updated row in
    let same = or_user_not_found_ok updated _ u last in
    (eq_iff u.id id).0 (update_user_row_ok id (apply_update update now) d u (answer ∙ ap ok same))

or_no_user_ok : (o : Option User) (w : World Db) (u : User) → (or_no_user o w).0 ≡ ok u → o ≡ some u
unfolding or_no_user
or_no_user_ok none w u h = throw_fails _ w u h
or_no_user_ok (some v) w u h = ap some (pure_ok v u w h)

ban_branches :
    (banned over : Bool) (m : Exec Db User) (e : AuthError) (target : User) (w : World Db)
    (u : User)
    → ((if not banned then pure target else if over then m else throw e) w).0 ≡ ok u
    → ((target ≡ u) ⊎ ((m w).0 ≡ ok u)) × ((banned && not over) ≡ false)
ban_branches false over m e target w u h = (inl (pure_ok target u w h), refl)
ban_branches true true m e target w u h = (inr h, refl)
ban_branches true false m e target w u h = throw_fails e w u h

module _ (after_seconds : ℕ → ℤ → Option ℕ) (config : AdminConfig) where
  -- What impersonation requires of the target, and the session that it opens.
  pub record Impersonates (clock : ℕ → ℕ) (user_id admin_user_id : String) (w : World Db)
      (s : Session) : Type 0 where
    pub other : (user_id == admin_user_id) ≡ false
    pub target : User
    pub seen : (get_user_by_id user_id w).0 ≡ ok (some target)
    pub unprotected : is_protected after_seconds config user_id target ≡ false
    pub not_banned : (target.banned && not (ban_is_over (clock 0) target.ban_expires)) ≡ false
    pub opened_for : s.user_id ≡ user_id
    pub by : s.impersonated_by ≡ some admin_user_id
    pub ends : s.expires_at ≡ impersonation_end after_seconds config (clock 2)

  check_target_ban_ok :
      (clock : ℕ → ℕ) (user_id : String) (target : User) (w : World Db) (u : User)
      → target.id ≡ user_id
      → (check_target_ban after_seconds config clock user_id target w).0 ≡ ok u
      → (u.id ≡ user_id)
        × ((target.banned && not (ban_is_over (clock 0) target.ban_expires)) ≡ false)
  unfolding check_target_ban
  check_target_ban_ok clock user_id target w u named h =
      let (who, free) =
        ban_branches target.banned (ban_is_over (clock 0) target.ban_expires)
          (update_user user_id lifted (clock 1)) _ target w u h in
      elim who [
        | inl same ↦ (ap (λ x. x.id) (sym same) ∙ named, free)
        | inr updated ↦ (update_user_ok user_id lifted (clock 1) w u updated, free)
      ]

  create_session_ok :
      (id token : String) (now : ℕ) (c : CreateSession) (w : World Db) (s : Session)
      → (Statements.create_session id token now c w).0 ≡ ok s
      → s ≡ new_active id token now c
  unfolding Statements.create_session
  create_session_ok id token now c w s h = let (d, e) = query_ok _ w s h in sym (ok_of e)

  impersonate_target_ok :
      (clock : ℕ → ℕ) (id token user_id admin_user_id : String) (ip agent : Option String)
      (target : User) (w : World Db) (s : Session) (u : User)
      → target.id ≡ user_id
      → (impersonate_target after_seconds config clock id token user_id admin_user_id ip agent
          target w).0
        ≡ ok (s, u)
      → ((target.banned && not (ban_is_over (clock 0) target.ban_expires)) ≡ false)
        × (s.user_id ≡ user_id)
        × (s.impersonated_by ≡ some admin_user_id)
        × (s.expires_at ≡ impersonation_end after_seconds config (clock 2))
  unfolding impersonate_target
  impersonate_target_ok clock id token user_id admin_user_id ip agent target w s u named h =
      let (allowed, checked, second) =
        bind_ok (check_target_ban after_seconds config clock user_id target) _ w (s, u) h in
      let (created, stored, last) = bind_ok _ _ _ (s, u) second in
      let (same, free) = check_target_ban_ok clock user_id target w allowed named checked in
      let row = create_session_ok id token (clock 3) _ _ created stored in
      let answer = sym (ap (λ p. p.0) (pure_ok _ _ _ last)) ∙ row in
      (
        free,
        ap (λ x. x.user_id) answer ∙ same,
        ap (λ x. x.impersonated_by) answer,
        ap (λ x. x.expires_at) answer,
      )

  impersonate_other_sound :
      (clock : ℕ → ℕ) (id token user_id admin_user_id : String) (ip agent : Option String)
      (w : World Db) (s : Session) (u : User)
      → (user_id == admin_user_id) ≡ false
      → (impersonate_other after_seconds config clock id token user_id admin_user_id ip agent w).0
        ≡ ok (s, u)
      → Impersonates clock user_id admin_user_id w s
  unfolding impersonate_other impersonate_found
  impersonate_other_sound clock id token user_id admin_user_id ip agent w s u other h =
      let (found, read, second) = bind_ok (get_user_by_id user_id) _ w (s, u) h in
      let (target, there, third) = bind_ok (or_no_user found) _ _ (s, u) second in
      let (d, seen) = get_user_by_id_ok user_id w found read in
      let here = seen ∙ or_no_user_ok found _ target there in
      let named =
        (eq_iff target.id user_id).0 (find_holds (has_user_id user_id) d.users target here) in
      let (unprotected, last) =
        guard_ok (is_protected after_seconds config user_id target) _ _ _ (s, u) third in
      let (free, opened_for, by, ends) =
        impersonate_target_ok clock id token user_id admin_user_id ip agent target _ s u named
          last in
      record {
        other = other;
        target = target;
        seen = read ∙ ap ok (or_no_user_ok found _ target there);
        unprotected = unprotected;
        not_banned = free;
        opened_for = opened_for;
        by = by;
        ends = ends;
      }

  -- An impersonation that succeeds, under any interference and failure: the target, who is another user
  -- and whom the first read found, is no administrator unless the configuration allows that, and was not banned, or
  -- the ban was over; the session is the target's, names the administrator, and ends when the
  -- configuration says.
  pub impersonate_user_core_sound :
      (clock : ℕ → ℕ) (id token user_id admin_user_id : String) (ip agent : Option String)
      (w : World Db) (s : Session) (u : User)
      → (impersonate_user_core after_seconds config clock id token user_id admin_user_id ip agent
          w).0
        ≡ ok (s, u)
      → Impersonates clock user_id admin_user_id w s
  unfolding impersonate_user_core
  impersonate_user_core_sound clock id token user_id admin_user_id ip agent w s u h =
      let (other, inner) = guard_ok (user_id == admin_user_id) _ _ w (s, u) h in
      impersonate_other_sound clock id token user_id admin_user_id ip agent w s u other inner

impersonator_ok :
    (o : Option String) (w : World Db) (id : String) → (impersonator o w).0 ≡ ok id → o ≡ some id
unfolding impersonator
impersonator_ok none w id h = throw_fails _ w id h
impersonator_ok (some admin_id) w id h = ap some (pure_ok admin_id id w h)

or_failed_ok :
    {A : Type 0} (message : String) (o : Option A) (w : World Db) (a : A)
    → (or_failed message o w).0 ≡ ok a
    → o ≡ some a
unfolding or_failed
or_failed_ok message none w a h = throw_fails _ w a h
or_failed_ok message (some b) w a h = ap some (pure_ok b a w h)

-- What was read when an impersonation was stopped: the ended session names the user `u` as its
-- impersonator, and `a` is an active session of `u` under the given token.
pub record Stopped (session : Session) (session_token : String) (a : Session) (u : User)
    : Type 0 where
  pub by : session.impersonated_by ≡ some u.id
  pub owner : a.user_id ≡ u.id
  pub user : (d : Db) × (find (has_user_id u.id) d.users ≡ some u)
  pub own : (d : Db) × (find (is_active_token session_token) d.sessions ≡ some a)

stopped :
    (session own : Session) (session_token id : String) (admin : User) (d d' : Db)
    → session.impersonated_by ≡ some id
    → find (has_user_id id) d.users ≡ some admin
    → find (is_active_token session_token) d'.sessions ≡ some own
    → not (own.user_id == admin.id) ≡ false
    → Stopped session session_token own admin
stopped session own session_token id admin d d' named seen shown belongs =
    let same = (eq_iff admin.id id).0 (find_holds (has_user_id id) d.users admin seen) in
    record {
      by = named ∙ ap some (sym same);
      owner = (eq_iff own.user_id admin.id).0 (ground (arith, belongs));
      user = (d, ap (λ x. find (has_user_id x) d.users) same ∙ seen);
      own = (d', shown);
    }

-- Stopping an impersonation that succeeds, under any interference and failure: the answer is the
-- active session of the given token, and it belongs to the user whom the ended session names as
-- its impersonator.
pub stop_impersonating_core_sound :
    (session : Session) (session_token : String) (w : World Db) (a : Session) (u : User)
    → (stop_impersonating_core session session_token w).0 ≡ ok (a, u)
    → Stopped session session_token a u
unfolding stop_impersonating_core return_session Statements.get_session
stop_impersonating_core_sound session session_token w a u h =
    let (id, first, second) = bind_ok (impersonator session.impersonated_by) _ w (a, u) h in
    let (o, read, third) = bind_ok (get_user_by_id id) _ _ (a, u) second in
    let (admin, there, fourth) = bind_ok (or_failed "Failed to find user" o) _ _ (a, u) third in
    let (p, looked, fifth) = bind_ok (Statements.get_session session_token) _ _ (a, u) fourth in
    let (own, active, last) =
      bind_ok (or_failed "Failed to find admin session" p) _ _ (a, u) fifth in
    let (belongs, leave) = guard_ok (not (own.user_id == admin.id)) _ _ _ (a, u) last in
    let (_, _, answer) = bind_ok (Statements.delete_session session.token) _ _ (a, u) leave in
    let same = pure_ok (own, admin) (a, u) _ answer in
    let (d, seen) = get_user_by_id_ok id _ o read in
    let (d', shown) = read_ok (λ d. find (is_active_token session_token) d.sessions) _ p looked in
    subst (λ q. Stopped session session_token q.0 q.1) same
      (stopped session own session_token id admin d d'
        (impersonator_ok session.impersonated_by w id first)
        (seen ∙ or_failed_ok "Failed to find user" o _ admin there)
        (shown ∙ or_failed_ok "Failed to find admin session" p _ own active) belongs)
