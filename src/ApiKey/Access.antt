-- ===== src/ApiKey/Access.antt =====
-- Who may use an API key: `get_owned_api_key` and `require_org_api_key_permission` of
-- crates/api/src/plugins/helpers.rs. The metadata that the organization plugin leaves in the context
-- stands as what serde makes of it.
pub mod Ownership
pub mod Frame
pub mod Alone
use better_auth_rs.Prelude.{
  String, Bool, true, false, not, Option, none, some, List, [], any, unwrap_or, if◌then◌else◌, ◌==◌,
}
use better_auth_rs.Error.{not_found}
use better_auth_rs.Store.{Exec, pure, throw, ◌>>=◌, ◌>>◌}
use better_auth_rs.Store.Db.{Member, ApiKey, Db}
use better_auth_rs.Organization.Rbac
use better_auth_rs.Organization.Rbac.{RolePermissions, parse_action, has_permission_any, roles_of}
use better_auth_rs.Organization.Statements.{get_member}
use better_auth_rs.ApiKey.Config.{
  ApiKeyErrorCode, ApiKeyReferences, ApiKeyConfig, api_key_error, config_id_matches, user,
  organization, organization_plugin_required, user_not_member_of_organization,
  insufficient_api_key_permissions,
}
use better_auth_rs.ApiKey.Statements.{get_api_key_by_id}

pub record OrganizationMetadata : Type 0 where
  pub enabled : Option Bool
  pub creator_role : Option String
  pub roles : Option (List (String × RolePermissions))
  pub to_lowercase : String → String

abbrev pub refuse_access : {A : Type 0} → ApiKeyErrorCode → Exec Db A
refuse_access code = throw (api_key_error code)

module _ (metadata : OrganizationMetadata) where
  abbrev pub is_creator : Member → Bool
  is_creator member =
      any (λ role. role == unwrap_or metadata.creator_role "owner") (roles_of member.role)

  abbrev permits : Member → Option Rbac.Action → Bool
  permits member none = false
  permits member (some action) =
      has_permission_any member.role Rbac.api_key action (unwrap_or metadata.roles [])

  abbrev pub is_permitted : String → Member → Bool
  is_permitted action member = permits member (parse_action metadata.to_lowercase action)

  unfoldable pub permit_member : String → Option Member → Exec Db (Unit {0})
  permit_member action none = refuse_access user_not_member_of_organization
  permit_member action (some member) =
      if is_creator member
      then pure tt
      else if is_permitted action member
      then pure tt
      else refuse_access insufficient_api_key_permissions

  unfoldable pub require_org_api_key_permission : String → String → String → Exec Db (Unit {0})
  unfolding permit_member
  require_org_api_key_permission user_id organization_id action =
      if not (unwrap_or metadata.enabled false)
      then refuse_access organization_plugin_required
      else get_member organization_id user_id >>= permit_member action

  unfoldable pub check_owner : ApiKeyReferences → String → String → ApiKey → Exec Db ApiKey
  check_owner user user_id action key =
      if not (key.reference_id == user_id) then throw (not_found "API Key not found") else pure key
  check_owner organization user_id action key =
      require_org_api_key_permission user_id key.reference_id action >> pure key

  unfoldable pub owned : ApiKeyConfig → String → String → Option ApiKey → Exec Db ApiKey
  unfolding check_owner
  owned config user_id action none = throw (not_found "API Key not found")
  owned config user_id action (some key) =
      if not (config_id_matches key.config_id config.config_id)
      then throw (not_found "API Key not found")
      else check_owner config.references user_id action key

  unfoldable pub get_owned_api_key : ApiKeyConfig → String → String → String → Exec Db ApiKey
  unfolding owned
  get_owned_api_key config key_id user_id action =
      get_api_key_by_id key_id >>= owned config user_id action
