-- ===== src/ApiKey/Access/Alone.antt =====
-- The permission check on an organization's keys only reads.
use better_auth_rs.Prelude.{String, Option, none, some}
use better_auth_rs.Store.Alone.{IsReading, reading_rules}
use better_auth_rs.Store.Db.{Member}
use better_auth_rs.Organization.Statements.{get_member}
use better_auth_rs.ApiKey.Access.{
  OrganizationMetadata, permit_member, require_org_api_key_permission,
}

module _ (metadata : OrganizationMetadata) where
  permit_member-IsReading :
      (action : String) (o : Option Member) → IsReading (permit_member metadata action o)
  unfolding permit_member
  permit_member-IsReading action none = search reading_rules
  permit_member-IsReading action (some m) = search reading_rules

  pub require_org-IsReading :
      (user_id organization_id action : String)
      → IsReading (require_org_api_key_permission metadata user_id organization_id action)
  unfolding require_org_api_key_permission get_member
  require_org-IsReading user_id organization_id action =
      search (reading_rules, permit_member-IsReading)
