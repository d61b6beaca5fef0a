-- ===== src/Organization/Rbac.antt =====
-- crates/api/src/plugins/organization/rbac.rs. A hash map of roles is an association list.
pub mod Grants
use better_auth_rs.Prelude.{
  String, Bool, true, false, ◌||◌, Option, none, some, List, [], ◌∷◌, any, map, split, trim,
  if◌then◌else◌, ◌==◌,
}
use better_auth_rs.Request.{lookup}

pub data Resource : Type 0 where
  organization member invitation api_key : Resource

pub data Action : Type 0 where
  create read update delete cancel : Action

abbrev pub action_str : Action → String
action_str create = "create"
action_str read = "read"
action_str update = "update"
action_str delete = "delete"
action_str cancel = "cancel"

-- `Action::parse`; `str::to_lowercase` follows Unicode's tables and is a parameter.
unfoldable pub parse_action : (String → String) → String → Option Action
parse_action to_lowercase s =
    let lower = to_lowercase s in
    if lower == "create"
    then some create
    else if lower == "read"
    then some read
    else if lower == "update"
    then some update
    else if lower == "delete"
    then some delete
    else if lower == "cancel"
    then some cancel
    else none

-- `==` on actions (derived)
abbrev pub same_action : Action → Action → Bool
same_action create create = true
same_action read read = true
same_action update update = true
same_action delete delete = true
same_action cancel cancel = true
same_action a b = false

-- `RolePermissions` of organization/mod.rs
pub record RolePermissions : Type 0 where
  pub organization_actions : List String
  pub member_actions : List String
  pub invitation_actions : List String
  pub api_key_actions : List String

abbrev pub actions_on : Resource → RolePermissions → List String
actions_on organization p = p.organization_actions
actions_on member p = p.member_actions
actions_on invitation p = p.invitation_actions
actions_on api_key p = p.api_key_actions

-- `default_roles().get(role)`, its permissions on a resource; the map has no entry for API keys.
abbrev pub owner_permissions : Resource → Option (List Action)
owner_permissions organization = some (update ∷ delete ∷ [])
owner_permissions member = some (create ∷ update ∷ delete ∷ [])
owner_permissions invitation = some (create ∷ cancel ∷ [])
owner_permissions api_key = none

abbrev pub admin_permissions : Resource → Option (List Action)
admin_permissions organization = some (update ∷ [])
admin_permissions member = some (create ∷ update ∷ delete ∷ [])
admin_permissions invitation = some (create ∷ cancel ∷ [])
admin_permissions api_key = none

abbrev pub member_permissions : Resource → Option (List Action)
member_permissions resource = none

abbrev pub default_roles : List (String × (Resource → Option (List Action)))
default_roles =
    ("owner", owner_permissions)
    ∷ ("admin", admin_permissions)
    ∷ ("member", member_permissions)
    ∷ []

abbrev pub granted_by : Option (Resource → Option (List Action)) → Resource → Action → Bool
granted_by none resource action = false
granted_by (some permissions) resource action = contains (permissions resource)
  where
    contains : Option (List Action) → Bool
    contains none = false
    contains (some actions) = any (same_action action) actions

abbrev pub granted_by_custom : Option RolePermissions → Resource → Action → Bool
granted_by_custom none resource action = false
granted_by_custom (some p) resource action =
    any (λ a. a == action_str action) (actions_on resource p)

unfoldable pub has_permission : String → Resource → Action → List (String × RolePermissions) → Bool
unfolding lookup
has_permission role resource action custom_roles =
    granted_by_custom (lookup role custom_roles) resource action
    || granted_by (lookup role default_roles) resource action

-- The roles of a comma-separated text.
abbrev pub roles_of : String → List String
roles_of roles = map trim (split b',' roles)

unfoldable pub has_permission_any :
    String → Resource → Action → List (String × RolePermissions) → Bool
has_permission_any roles resource action custom_roles =
    any (λ role. has_permission role resource action custom_roles) (roles_of roles)
