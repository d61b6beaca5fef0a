-- ===== src/Session/Issue/Frame.antt =====
-- `issue_user_session` changes the tables of users and sessions alone.
use better_auth_rs.Prelude.{ℕ, String, Option, none, some, Bool-cases, inl, inr, eqb, ◌&&◌}
use better_auth_rs.Store
use better_auth_rs.Store.Db.{User, Db}
use better_auth_rs.Store.Rely.{Keeps}
use better_auth_rs.Store.Table.{count}
use better_auth_rs.Store.Frames.{Frames, framed-query, frame_rules}
use better_auth_rs.Session.Manager.{SessionConfig}
use better_auth_rs.Session.Manager.Frame.{manager_create_session-Keeps}
use better_auth_rs.Session.Issue.{
  AdminMetadata, get_user_by_id, or_user_not_found, unban_user, update_user_row, check_ban,
  ban_is_over, issue_user_session, has_user_id,
}

module _ {R : Db → Db → Type 0} (frames : Frames R) where
  pub get_user_by_id-Keeps : (id : String) → Keeps R (get_user_by_id id)
  unfolding get_user_by_id
  get_user_by_id-Keeps id = search (frame_rules, frames)

  or_user_not_found-Keeps : (o : Option User) → Keeps R (or_user_not_found o)
  unfolding or_user_not_found
  or_user_not_found-Keeps none = search (frame_rules, frames)
  or_user_not_found-Keeps (some u) = search (frame_rules, frames)

  update_user_row-Keeps :
      (id : String) (f : User → User) → Keeps R (Store.query (update_user_row id f))
  update_user_row-Keeps id f = framed-query frames _ (λ d.
      elim (Bool-cases (eqb (count (has_user_id id) d.users) 0)) [
        | inl e ↦ rw e (frames.reflexive d)
        | inr e ↦ rw e (frames.users_free d _)
      ])

  unban_user-Keeps : (id : String) (now : ℕ) → Keeps R (unban_user id now)
  unfolding unban_user
  unban_user-Keeps id now =
      search
        (frame_rules, frames, get_user_by_id-Keeps, or_user_not_found-Keeps, update_user_row-Keeps)

  module _ (config : SessionConfig) (admin : AdminMetadata) where
    check_ban-Keeps : (clock : ℕ → ℕ) (u : User) → Keeps R (check_ban config admin clock u)
    unfolding check_ban
    check_ban-Keeps clock u = elim (Bool-cases (admin.enabled && u.banned)) [
      | inl e ↦ elim (Bool-cases (ban_is_over (clock 0) u.ban_expires)) [
        | inl k ↦ rw (e, k) (unban_user-Keeps u.id (clock 1))
        | inr k ↦ rw (e, k) (search (frame_rules, frames))
      ]
      | inr e ↦ rw e (search (frame_rules, frames))
    ]

    pub issue_user_session-Keeps :
        (clock : ℕ → ℕ) (id token user_id : String) (ip agent : Option String)
        → Keeps R (issue_user_session config admin clock id token user_id ip agent)
    unfolding issue_user_session
    issue_user_session-Keeps clock id token user_id ip agent = search (
      frame_rules, frames, get_user_by_id-Keeps, or_user_not_found-Keeps, check_ban-Keeps,
      manager_create_session-Keeps,
    )
