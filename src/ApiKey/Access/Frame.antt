-- ===== src/ApiKey/Access/Frame.antt =====
-- The ownership check only reads.
use better_auth_rs.Prelude.{String, Option, none, some}
use better_auth_rs.Store.Rely.{Keeps}
use better_auth_rs.Store.Frames.{Frames, frame_rules}
use better_auth_rs.Store.Db.{Member, ApiKey, Db}
use better_auth_rs.Organization.Statements.{get_member}
use better_auth_rs.ApiKey.Config.{ApiKeyReferences, ApiKeyConfig, user, organization}
use better_auth_rs.ApiKey.Statements.{get_api_key_by_id}
use better_auth_rs.ApiKey.Access.{
  OrganizationMetadata, permit_member, require_org_api_key_permission, check_owner, owned,
  get_owned_api_key,
}

module _ {R : Db → Db → Type 0} (frames : Frames R) (metadata : OrganizationMetadata) where
  permit_member-Keeps :
      (action : String) (o : Option Member) → Keeps R (permit_member metadata action o)
  unfolding permit_member
  permit_member-Keeps action none = search (frame_rules, frames)
  permit_member-Keeps action (some m) = search (frame_rules, frames)

  pub require_org-Keeps :
      (user_id organization_id action : String)
      → Keeps R (require_org_api_key_permission metadata user_id organization_id action)
  unfolding require_org_api_key_permission get_member
  require_org-Keeps user_id organization_id action =
      search (frame_rules, frames, permit_member-Keeps)

  check_owner-Keeps :
      (references : ApiKeyReferences) (user_id action : String) (key : ApiKey)
      → Keeps R (check_owner metadata references user_id action key)
  unfolding check_owner
  check_owner-Keeps user user_id action key = search (frame_rules, frames)
  check_owner-Keeps organization user_id action key =
      search (frame_rules, frames, require_org-Keeps)

  owned-Keeps :
      (config : ApiKeyConfig) (user_id action : String) (o : Option ApiKey)
      → Keeps R (owned metadata config user_id action o)
  unfolding owned
  owned-Keeps config user_id action none = search (frame_rules, frames)
  owned-Keeps config user_id action (some key) = search (frame_rules, frames, check_owner-Keeps)

  pub get_owned_api_key-Keeps :
      (config : ApiKeyConfig) (key_id user_id action : String)
      → Keeps R (get_owned_api_key metadata config key_id user_id action)
  unfolding get_owned_api_key get_api_key_by_id
  get_owned_api_key-Keeps config key_id user_id action = search (frame_rules, frames, owned-Keeps)
