-- ===== src/Tests/Organizations.antt =====
-- The theorems on members and roles at work.
use better_auth_rs.Prelude.{String, true, false, none, some, [], ◌∷◌, ◌≡◌, ◌≢◌, refl, arith, eq_iff}
use better_auth_rs.Request.{lookup}
use better_auth_rs.Store.{Turn, World, alone, query, ◌>>=◌}
use better_auth_rs.Store.Table.{count, find, delete_where}
use better_auth_rs.Store.Db.{Db}
use better_auth_rs.Session.Issue.{get_user_by_id}
use better_auth_rs.Organization.Statements.{
  get_member, get_user_by_email, list_organization_members, delete_member,
}
use better_auth_rs.Organization.Rbac
use better_auth_rs.Organization.Rbac.{RolePermissions, has_permission, has_permission_any}
use better_auth_rs.Organization.Rbac.Grants.{has_permission_any-adds}
use better_auth_rs.Organization.Members.{
  RemoveMemberRequest, UpdateMemberRoleRequest, many, remove_member_core, update_member_role_core,
}
use better_auth_rs.Organization.Members.Owner.{HasOwner}
use better_auth_rs.Organization.Members.Keeping.{
  remove_member_core-HasOwner, update_member_role_core-HasOwner,
}
use better_auth_rs.Tests.{db, alice, bob, member_of, session_of, role_config, two_rows}

owned : HasOwner "owner" "org" db
unfolding count
owned = record { keys = λ id. two_rows "m1" "m2" id m1_ne_m2; owned = omega arith }
  where
    m1_ne_m2 : ◌≢◌ {A = String} "m1" "m2"
    m1_ne_m2 = ground (arith, eq_iff "m1" "m2")

abbrev removal : RemoveMemberRequest
removal = record { member_id_or_email = "bob@example.com"; organization_id = none }

remove_member_core-HasOwner_example :
    HasOwner "owner" "org"
      (remove_member_core role_config 10 alice
        (session_of "phone" alice 1000)
        removal
        (alone db)).1.db
remove_member_core-HasOwner_example =
    remove_member_core-HasOwner role_config 10 alice (session_of "phone" alice 1000) "org" removal
      db refl owned

abbrev demotion : UpdateMemberRoleRequest
demotion = record {
  member_id = "m1";
  role = many ("member" ∷ "admin" ∷ []);
  organization_id = some "org";
}

update_member_role_core-HasOwner_example :
    HasOwner "owner" "org"
      (update_member_role_core role_config 10 alice
        (session_of "phone" alice 1000)
        demotion
        (alone db)).1.db
update_member_role_core-HasOwner_example =
    update_member_role_core-HasOwner role_config 10 alice (session_of "phone" alice 1000) "org"
      demotion db refl owned

abbrev no_deletion : RolePermissions
no_deletion = record {
  organization_actions = [];
  member_actions = [];
  invitation_actions = [];
  api_key_actions = "read" ∷ [];
}

admin_deletes : has_permission_any "member, admin" Rbac.member Rbac.delete [] ≡ true
unfolding has_permission_any has_permission lookup
admin_deletes = refl

has_permission_any-adds_example :
    has_permission_any "member, admin" Rbac.member Rbac.delete (("admin", no_deletion) ∷ []) ≡ true
has_permission_any-adds_example =
    has_permission_any-adds "member, admin" Rbac.member Rbac.delete (("admin", no_deletion) ∷ [])
      admin_deletes

-- The check of the owners and the deletion are two statements. Where the other owner is removed in
-- between, as by a request of their own, the removal goes through and no owner is left.
abbrev turn : Turn Db
turn = record { interfere = λ d. d; fails = false }

abbrev raced : World Db
raced = record {
  db = db;
  schedule =
      turn
      ∷ turn
      ∷ turn
      ∷ turn
      ∷ turn
      ∷ record {
        interfere = λ d. record d { members = member_of "m2" bob "owner" ∷ [] };
        fails = false;
      }
      ∷ [];
}

no_owner_after_race :
    (remove_member_core role_config 10 alice
      (session_of "phone" alice 1000)
      removal
      raced).1.db.members
    ≡ []
unfolding remove_member_core get_member get_user_by_email get_user_by_id list_organization_members
    delete_member has_permission_any has_permission lookup ◌>>=◌ query find delete_where
no_owner_after_race = refl
