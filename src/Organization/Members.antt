-- ===== src/Organization/Members.antt =====
-- crates/api/src/plugins/organization/handlers/member.rs: who may remove a member or change a role.
pub mod Owner
pub mod Parts
pub mod Keeping
use better_auth_rs.Prelude.{
  ℕ, String, Bool, true, false, not, ◌&&◌, ◌||◌, Option, none, some, List, any, length, keep, leb,
  ◌==◌, contains_char, join, if◌then◌else◌,
}
use better_auth_rs.Error.{AuthResult, ok, err, bad_request, forbidden}
use better_auth_rs.Store.{Exec, pure, throw, lift, ◌>>=◌, ◌>>◌}
use better_auth_rs.Store.Db.{User, Session, Member, Db}
use better_auth_rs.Session.Issue.{get_user_by_id}
use better_auth_rs.Session.Statements.{update_session_active_organization}
use better_auth_rs.Organization.Rbac
use better_auth_rs.Organization.Rbac.{RolePermissions, has_permission_any, roles_of}
use better_auth_rs.Organization.Statements.{
  get_member, get_member_by_id, get_user_by_email, list_organization_members, update_member_role,
  delete_member,
}

-- What `OrganizationConfig` says of roles, and the lower case of texts.
pub record RoleConfig : Type 0 where
  pub to_lowercase : String → String
  pub creator_role : String
  pub roles : List (String × RolePermissions)

pub record RemoveMemberRequest : Type 0 where
  pub member_id_or_email : String
  pub organization_id : Option String

pub data RoleInput : Type 0 where
  one : String → RoleInput
  many : List String → RoleInput

abbrev pub joined : RoleInput → String
joined (one role) = role
joined (many roles) = join "," roles

pub record UpdateMemberRoleRequest : Type 0 where
  pub member_id : String
  pub role : RoleInput
  pub organization_id : Option String

abbrev pub holds_role : String → String → Bool
holds_role role roles = any (λ r. r == role) (roles_of roles)

abbrev pub has_role : String → Member → Bool
has_role role m = holds_role role m.role

-- `resolve_organization_id` as these handlers call it, without a slug.
abbrev pub resolve_organization_id : Option String → Session → AuthResult String
resolve_organization_id (some id) s = ok id
resolve_organization_id none s = elim s.active_organization_id [
  | none ↦ err (bad_request "No active organization")
  | some id ↦ ok id
]

abbrev pub owner_count : String → List Member → ℕ
owner_count creator members = length (keep (has_role creator) members)

pub or_bad_request : {A : Type 0} → String → Option A → Exec Db A
or_bad_request message none = throw (bad_request message)
or_bad_request message (some a) = pure a

-- The check before the last owner would be lost.
pub keep_owner : String → String → String → Bool → Exec Db (Unit {0})
keep_owner creator org_id message false = pure tt
keep_owner creator org_id message true = do
  all_members ← list_organization_members org_id
  if leb (owner_count creator all_members) 1 then throw (bad_request message) else pure tt

pub find_by_email : (String → String) → String → String → Exec Db Member
unfolding or_bad_request
find_by_email to_lowercase org_id email = do
  found ← get_user_by_email to_lowercase email
  target_user ← or_bad_request "Member not found" found
  target ← get_member org_id target_user.id
  or_bad_request "Member not found" target

pub find_by_id : String → String → Exec Db Member
unfolding or_bad_request
find_by_id org_id id = do
  found ← get_member_by_id id
  target ← or_bad_request "Member not found" found
  if not (target.organization_id == org_id)
      then throw (bad_request "Member not found")
      else pure target

pub find_target : (String → String) → String → String → Exec Db Member
unfolding find_by_email find_by_id
find_target to_lowercase org_id s =
    if contains_char b'@' s then find_by_email to_lowercase org_id s else find_by_id org_id s

-- `session.active_organization_id() == Some(&org_id)`
abbrev pub is_active_organization : Option String → String → Bool
is_active_organization none org_id = false
is_active_organization (some active) org_id = active == org_id

module _ (config : RoleConfig) (now : ℕ) (user : User) (session : Session) where
  leave_active : String → Bool → Exec Db (Unit {0})
  leave_active org_id is_self_removal =
      if is_self_removal && is_active_organization session.active_organization_id org_id
      then (update_session_active_organization session.token none now >>= λ _. pure tt)
      else pure tt

  delete_target : String → Member → User → Bool → Exec Db (Member × User)
  unfolding leave_active
  delete_target org_id target target_user is_self_removal = do
    done ← delete_member target.id
    left ← leave_active org_id is_self_removal
    pure (target, target_user)

  remove_target : String → Member → Member → User → Exec Db (Member × User)
  unfolding keep_owner delete_target
  remove_target org_id requester target target_user =
      if not (target.user_id == user.id)
        && not (has_permission_any requester.role Rbac.member Rbac.delete config.roles)
      then throw (forbidden "You don't have permission to remove members")
      else do
        kept ←
            keep_owner config.creator_role org_id
              "You cannot leave the organization as the only owner"
              (has_role config.creator_role target)
        delete_target org_id target target_user (target.user_id == user.id)

  unfoldable pub remove_member_core : RemoveMemberRequest → Exec Db (Member × User)
  unfolding or_bad_request find_target remove_target
  remove_member_core body = do
    org_id ← lift (resolve_organization_id body.organization_id session)
    found ← get_member org_id user.id
    requester ← or_bad_request "Member not found" found
    target ← find_target config.to_lowercase org_id body.member_id_or_email
    found_user ← get_user_by_id target.user_id
    target_user ← or_bad_request "User not found" found_user
    remove_target org_id requester target target_user

  not_allowed : {A : Type 0} → Exec Db A
  not_allowed = throw (forbidden "You are not allowed to update this member")

  change_role : String → String → Member → Member → String → Exec Db Member
  unfolding keep_owner not_allowed
  change_role org_id member_id requester target new_role =
      if (holds_role config.creator_role new_role || has_role config.creator_role target)
        && not (has_role config.creator_role requester)
      then not_allowed
      else do
        kept ←
            keep_owner config.creator_role org_id
              "You cannot leave the organization without an owner"
              (has_role config.creator_role target
                && requester.id == target.id
                && not (holds_role config.creator_role new_role))
        update_member_role member_id new_role

  change_target : String → Member → String → String → Exec Db Member
  unfolding or_bad_request change_role not_allowed
  change_target org_id requester member_id new_role = do
    found ← get_member_by_id member_id
    target ← or_bad_request "Member not found" found
    if not (target.organization_id == org_id)
        then not_allowed
        else change_role org_id member_id requester target new_role

  unfoldable pub update_member_role_core : UpdateMemberRoleRequest → Exec Db Member
  unfolding or_bad_request change_target not_allowed
  update_member_role_core body = do
    org_id ← lift (resolve_organization_id body.organization_id session)
    found ← get_member org_id user.id
    requester ← or_bad_request "Member not found" found
    if not (has_permission_any requester.role Rbac.member Rbac.update config.roles)
        then not_allowed
        else change_target org_id requester body.member_id (joined body.role)
