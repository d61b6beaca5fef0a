-- ===== src/Organization/Members/Keeping.antt =====
-- The handlers that remove members and change roles, run alone, keep an owner in the organization.
use better_auth_rs.Prelude.{
  ℕ, ◌≤◌, String, Bool, true, false, not, ◌&&◌, ◌||◌, Option, none, some, ◌≡◌, refl, sym, ap, ◌∙◌,
  subst, inl, inr, ◌==◌, if◌then◌else◌, Bool-cases,
}
use better_auth_rs.Error.{AuthResult, ok, ok_of, forbidden}
use better_auth_rs.Store.{Exec, alone, pure, throw, lift, ◌>>=◌}
use better_auth_rs.Store.Alone.{
  IsReading, Leaves, Leaves-bind, Leaves-then, Leaves-of_reading, Leaves-query, IsReading-read,
}
use better_auth_rs.Store.Table.{find, count, update_where}
use better_auth_rs.Store.Db.{User, Session, Member, Db}
use better_auth_rs.Session.Issue.{get_user_by_id}
use better_auth_rs.Session.Statements.{update_session_active_organization}
use better_auth_rs.Organization.Statements.{
  has_id, is_member, get_member, update_member_role, update_found, updated_answer, delete_member,
  give_role,
}
use better_auth_rs.Organization.Members.{
  RoleConfig, RemoveMemberRequest, UpdateMemberRoleRequest, has_role, holds_role, or_bad_request,
  keep_owner, find_target, leave_active, delete_target, remove_target, remove_member_core,
  change_role, change_target, not_allowed, update_member_role_core, resolve_organization_id, joined,
  is_active_organization,
}
use better_auth_rs.Organization.Members.Owner.{
  HasOwner, is_owner, deleted-HasOwner, given_role-HasOwner, still_owned,
}
use better_auth_rs.Organization.Rbac
use better_auth_rs.Organization.Rbac.{has_permission_any}
use better_auth_rs.Store.Frames.{Frames, frame_rules}
use better_auth_rs.Store.Rely.{Keeps}
use better_auth_rs.Store.Quiet.{IsQuiet, quiet_rules}
use better_auth_rs.Session.Statements.Frame.{update_session_active_organization-Keeps}
use better_auth_rs.Session.Statements.Quiet.{IsQuiet-update_session_active_organization}
use better_auth_rs.Organization.Members.Parts.{
  IsReading-or_bad_request, IsReading-get_member, IsReading-get_member_by_id,
  IsReading-get_user_by_id, IsReading-keep_owner, IsReading-find_target, keep_owner_lem,
  or_bad_request_ok, get_member_ok, get_member_by_id_ok, find_target_lem,
}
use better_auth_rs.Store.Alone.{IsReading-lift, IsReading-throw, IsReading-pure}

-- What depends on the members alone.
SameMembers : Db → Db → Type 0
SameMembers d d' = d'.members ≡ d.members

SameMembers-Frames : Frames SameMembers
unfolding SameMembers
SameMembers-Frames = record {
  reflexive = λ d. refl;
  transitive = λ a b c h k. k ∙ h;
  users_free = λ d l. refl;
  sessions_free = λ d l. refl;
}

HasOwner-of_members :
    (creator org_id : String) (d d' : Db)
    → SameMembers d d'
    → HasOwner creator org_id d
    → HasOwner creator org_id d'
unfolding SameMembers
HasOwner-of_members creator org_id d d' same h = record {
  keys = λ id. subst (λ l. count (has_id id) l ≤ 1) (sym same) (h.keys id);
  owned = subst (λ l. 1 ≤ count (is_owner creator org_id) l) (sym same) h.owned;
}

lift_answer :
    {A : Type 0} (r : AuthResult A) (d : Db) {a : A}
    → (lift {D = Db} r (alone d)).0 ≡ ok a
    → r ≡ ok a
unfolding ◌>>=◌
lift_answer r d h = h

module _ (config : RoleConfig) (now : ℕ) (user : User) (session : Session) (org_id : String) where
  leave_active-Leaves :
      (self : Bool) (d : Db)
      → HasOwner config.creator_role org_id d
      → Leaves
          (HasOwner config.creator_role org_id)
          d
          (leave_active config now user session org_id self)
  unfolding leave_active
  leave_active-Leaves self d h =
      go (self && is_active_organization session.active_organization_id org_id)
    where
      unset : Exec Db (Unit {0})
      unset = update_session_active_organization session.token none now >>= λ _. pure tt

      unset-Keeps : Keeps SameMembers unset
      unset-Keeps = search (
        frame_rules,
        SameMembers-Frames,
        update_session_active_organization-Keeps SameMembers-Frames,
      )

      IsQuiet-unset : IsQuiet unset
      IsQuiet-unset = search (quiet_rules, IsQuiet-update_session_active_organization)

      go :
          (b : Bool) → Leaves (HasOwner config.creator_role org_id) d (if b then unset else pure tt)
      go true = record {
        holds =
            HasOwner-of_members config.creator_role org_id d _ (unset-Keeps.at (alone d) tt).0 h;
        quiet = ap (λ w. w.schedule) (IsQuiet-unset.at d);
      }
      go false = Leaves-of_reading (IsReading-pure tt) h

  remove_target-Leaves :
      (requester target : Member) (target_user : User) (d : Db)
      → find (has_id target.id) d.members ≡ some target
      → HasOwner config.creator_role org_id d
      → Leaves
          (HasOwner config.creator_role org_id)
          d
          (remove_target config now user session org_id requester target target_user)
  unfolding remove_target delete_target delete_member
  remove_target-Leaves requester target target_user d found h = go (
      not (target.user_id == user.id)
      && not (has_permission_any requester.role Rbac.member Rbac.delete config.roles))
    where
      deletion : Exec Db (Member × User)
      deletion =
          delete_target config now user session org_id target target_user
            (target.user_id == user.id)

      guarded : Exec Db (Member × User)
      guarded =
          keep_owner config.creator_role org_id
            "You cannot leave the organization as the only owner"
            (has_role config.creator_role target)
          >>= λ kept. deletion

      go :
          (b : Bool)
          → Leaves (HasOwner config.creator_role org_id) d (
              if b
              then throw (forbidden "You don't have permission to remove members")
              else guarded)
      go true = Leaves-of_reading (IsReading-throw _) h
      go false = Leaves-bind _ _ (IsReading-keep_owner _ _ _ _) h (λ u allowed.
          Leaves-then _ _
            (Leaves-query _ (
              deleted-HasOwner config.creator_role org_id d h target found
                (keep_owner_lem _ _ _ d _ u allowed)))
            (λ _ d' h'.
              Leaves-then _ _ (leave_active-Leaves _ d' h')
                (λ _ d'' h''. Leaves-of_reading (IsReading-pure _) h'')))

  -- The removal after its organization is known.
  abbrev remove_in : RemoveMemberRequest → String → Exec Db (Member × User)
  remove_in body o = do
    found ← get_member o user.id
    requester ← or_bad_request "Member not found" found
    target ← find_target config.to_lowercase o body.member_id_or_email
    found_user ← get_user_by_id target.user_id
    target_user ← or_bad_request "User not found" found_user
    remove_target config now user session o requester target target_user

  remove_in-Leaves :
      (body : RemoveMemberRequest) (d : Db)
      → HasOwner config.creator_role org_id d
      → Leaves (HasOwner config.creator_role org_id) d (remove_in body org_id)
  remove_in-Leaves body d h = Leaves-bind _ _ (IsReading-get_member org_id user.id) h (λ found _.
      Leaves-bind _ _ (IsReading-or_bad_request "Member not found" found) h (λ requester _.
        Leaves-bind _ _ (IsReading-find_target config.to_lowercase org_id body.member_id_or_email) h
          (λ target chosen.
            Leaves-bind _ _ (IsReading-get_user_by_id target.user_id) h (λ found_user _.
              Leaves-bind _ _ (IsReading-or_bad_request "User not found" found_user) h
                (λ target_user _.
                  remove_target-Leaves requester target target_user d
                    (find_target_lem config.to_lowercase org_id body.member_id_or_email d target
                      h.keys chosen)
                    h)))))

  -- Removing a member, alone, from an organization that has an owner leaves it with one: whoever asks
  -- and whatever the answer, if the organization is the one that the request resolves to and the
  -- members' identifiers are unique.
  pub remove_member_core-HasOwner :
      (body : RemoveMemberRequest) (d : Db)
      → resolve_organization_id body.organization_id session ≡ ok org_id
      → HasOwner config.creator_role org_id d
      → HasOwner config.creator_role org_id
          (remove_member_core config now user session body (alone d)).1.db
  unfolding remove_member_core
  remove_member_core-HasOwner body d e h = whole.holds
    where
      whole :
          Leaves
            (HasOwner config.creator_role org_id)
            d
            (lift (resolve_organization_id body.organization_id session) >>= remove_in body)
      whole = Leaves-bind _ _ (IsReading-lift _) h (λ o resolved.
          subst (λ i. Leaves (HasOwner config.creator_role org_id) d (remove_in body i))
            (ok_of (sym e ∙ lift_answer _ _ resolved)) (remove_in-Leaves body d h))

  update_member_role-Leaves :
      (id role : String) (d : Db)
      → HasOwner config.creator_role org_id d
      → 1
        ≤ count
            (is_owner config.creator_role org_id)
            (update_where (has_id id) (give_role role) d.members)
      → Leaves (HasOwner config.creator_role org_id) d (update_member_role id role)
  unfolding update_member_role update_found
  update_member_role-Leaves id role d h owned =
      Leaves-bind _ _ (IsReading-read _) h (λ found _. on_found found)
    where
      written :
          (o : Option Member) → HasOwner config.creator_role org_id (updated_answer id role d o).1
      written none = h
      written (some m) = given_role-HasOwner config.creator_role org_id d h id role owned

      on_found :
          (o : Option Member)
          → Leaves (HasOwner config.creator_role org_id) d (update_found id role o)
      on_found none = Leaves-of_reading (IsReading-throw _) h
      on_found (some m) = Leaves-query _ (written (find (has_id id) d.members))

  IsReading-not_allowed : {A : Type 0} → IsReading (not_allowed config now user session {A = A})
  unfolding not_allowed
  IsReading-not_allowed = IsReading-throw _

  change_role-Leaves :
      (id role : String) (requester target : Member) (d : Db)
      → find (is_member org_id user.id) d.members ≡ some requester
      → find (has_id id) d.members ≡ some target
      → HasOwner config.creator_role org_id d
      → Leaves
          (HasOwner config.creator_role org_id)
          d
          (change_role config now user session org_id id requester target role)
  unfolding change_role
  change_role-Leaves id role requester target d asked found h =
      elim (Bool-cases (
        (holds_role config.creator_role role || has_role config.creator_role target)
        && not (has_role config.creator_role requester))) [
          | inl refused ↦ rw refused (Leaves-of_reading IsReading-not_allowed h)
          | inr permitted ↦ rw permitted (
              Leaves-bind _ _ (IsReading-keep_owner _ _ _ _) h (λ u allowed.
                update_member_role-Leaves id role d h (
                  still_owned config.creator_role org_id d h user.id id role requester target asked
                    found permitted (keep_owner_lem _ _ _ d _ u allowed))))
        ]

  change_target-Leaves :
      (id role : String) (requester : Member) (d : Db)
      → find (is_member org_id user.id) d.members ≡ some requester
      → HasOwner config.creator_role org_id d
      → Leaves
          (HasOwner config.creator_role org_id)
          d
          (change_target config now user session org_id requester id role)
  unfolding change_target
  change_target-Leaves id role requester d asked h =
      Leaves-bind _ _ (IsReading-get_member_by_id id) h (λ found read_m.
        Leaves-bind _ _ (IsReading-or_bad_request "Member not found" found) h (λ target given.
          elim (Bool-cases (not (target.organization_id == org_id))) [
            | inl other ↦ rw other (Leaves-of_reading IsReading-not_allowed h)
            | inr here ↦ rw here (
                change_role-Leaves id role requester target d asked
                  (get_member_by_id_ok id d found read_m
                    ∙ or_bad_request_ok "Member not found" found d target given)
                  h)
          ]))

  -- The change of a role after its organization is known.
  abbrev update_in : UpdateMemberRoleRequest → String → Exec Db Member
  update_in body o = do
    found ← get_member o user.id
    requester ← or_bad_request "Member not found" found
    if not (has_permission_any requester.role Rbac.member Rbac.update config.roles)
        then not_allowed config now user session
        else change_target config now user session o requester body.member_id (joined body.role)

  update_in-Leaves :
      (body : UpdateMemberRoleRequest) (d : Db)
      → HasOwner config.creator_role org_id d
      → Leaves (HasOwner config.creator_role org_id) d (update_in body org_id)
  update_in-Leaves body d h =
      Leaves-bind _ _ (IsReading-get_member org_id user.id) h (λ found read_m.
        Leaves-bind _ _ (IsReading-or_bad_request "Member not found" found) h (λ requester given.
          elim (Bool-cases
            (not (has_permission_any requester.role Rbac.member Rbac.update config.roles))) [
              | inl refused ↦ rw refused (Leaves-of_reading IsReading-not_allowed h)
              | inr permitted ↦ rw permitted (
                  change_target-Leaves body.member_id (joined body.role) requester d
                    (get_member_ok org_id user.id d found read_m
                      ∙ or_bad_request_ok "Member not found" found d requester given)
                    h)
            ]))

  -- Changing a role, alone, in an organization that has an owner leaves it with one: whoever asks,
  -- whatever the new role and whatever the answer, if the organization is the one that the request
  -- resolves to and the members' identifiers are unique.
  pub update_member_role_core-HasOwner :
      (body : UpdateMemberRoleRequest) (d : Db)
      → resolve_organization_id body.organization_id session ≡ ok org_id
      → HasOwner config.creator_role org_id d
      → HasOwner config.creator_role org_id
          (update_member_role_core config now user session body (alone d)).1.db
  unfolding update_member_role_core
  update_member_role_core-HasOwner body d e h = whole.holds
    where
      whole :
          Leaves
            (HasOwner config.creator_role org_id)
            d
            (lift (resolve_organization_id body.organization_id session) >>= update_in body)
      whole = Leaves-bind _ _ (IsReading-lift _) h (λ o resolved.
          subst (λ i. Leaves (HasOwner config.creator_role org_id) d (update_in body i))
            (ok_of (sym e ∙ lift_answer _ _ resolved)) (update_in-Leaves body d h))
