-- ===== src/Admin/Access.antt =====
-- crates/api/src/plugins/admin/access.rs, and `target_is_admin` of admin/mod.rs. A hash map is an
-- association list.
pub mod Grants
use better_auth_rs.Prelude.{
  String, Bool, true, false, not, ◌||◌, ◌&&◌, Option, none, some, List, [], ◌∷◌, any, all, keep,
  map, split, trim, is_empty, unwrap_or, if◌then◌else◌, ◌==◌,
}
use better_auth_rs.Request.{lookup}
use better_auth_rs.Admin.{AdminConfig, Permissions}

abbrev pub holds_all : List String → Option (List String) → Bool
holds_all actions none = false
holds_all actions (some allowed) = all (λ action. any (λ item. item == action) allowed) actions

unfoldable pub allows : Permissions → List (String × List String) → Bool
allows p [] = false
allows p (first ∷ rest) =
    all (λ entry. holds_all entry.1 (lookup entry.0 p.permissions)) (first ∷ rest)

abbrev pub default_roles : List (String × Permissions)
default_roles =
    (
      "admin",
      record {
        permissions =
            (
              "user",
              "create" ∷ "list" ∷ "set-role" ∷ "ban" ∷ "impersonate" ∷ "delete" ∷ "set-password"
                  ∷ "get" ∷ "update" ∷ [],
            )
            ∷ ("session", "list" ∷ "revoke" ∷ "delete" ∷ [])
            ∷ [];
      },
    )
    ∷ ("user", record { permissions = [] })
    ∷ []

abbrev roles_or : List (String × Permissions) → List (String × Permissions)
roles_or [] = default_roles
roles_or (role ∷ roles) = role ∷ roles

unfoldable pub configured_roles : AdminConfig → List (String × Permissions)
configured_roles config = roles_or config.roles

unfoldable pub role_names : Option String → String → List String
role_names role default_role =
    keep (λ name. not (is_empty name)) (map trim (split b',' (unwrap_or role default_role)))

abbrev pub listed : String → Option (List String) → Bool
listed user_id none = false
listed user_id (some ids) = any (λ id. id == user_id) ids

unfoldable pub is_admin_user_id : Option String → AdminConfig → Bool
is_admin_user_id none config = false
is_admin_user_id (some user_id) config = listed user_id config.admin_user_ids

abbrev pub role_allows : List (String × List String) → Option Permissions → Bool
role_allows requested none = false
role_allows requested (some p) = allows p requested

unfoldable pub has_permission :
    Option String → Option String → AdminConfig → List (String × List String) → Bool
has_permission user_id role config requested =
    if is_admin_user_id user_id config
    then true
    else any (λ name. role_allows requested (lookup name (configured_roles config)))
        (role_names role config.default_role)

unfoldable pub is_admin_role : Option String → AdminConfig → Bool
is_admin_role role config =
    any (λ name. any (λ admin. admin == name) config.admin_roles)
      (role_names role config.default_role)

unfoldable pub target_is_admin : Option String → Option String → AdminConfig → Bool
target_is_admin user_id role config = is_admin_user_id user_id config || is_admin_role role config
