-- ===== src/Organization/Rbac/Grants.antt =====
-- What roles grant.
use better_auth_rs.Prelude.{String, Bool, true, List, [], ◌∷◌, ◌≡◌, any, arith}
use better_auth_rs.Request.{lookup}
use better_auth_rs.Organization.Rbac.{
  Resource, Action, RolePermissions, has_permission, has_permission_any, roles_of,
}

has_permission-adds :
    (role : String) (resource : Resource) (action : Action)
    (custom : List (String × RolePermissions))
    → has_permission role resource action [] ≡ true
    → has_permission role resource action custom ≡ true
unfolding has_permission lookup
has_permission-adds role resource action custom h = ground (arith, h)

any_mono :
    (p q : String → Bool) (l : List String)
    → ((r : String) → p r ≡ true → q r ≡ true)
    → any p l ≡ true
    → any q l ≡ true
any_mono p q [] h e = e
any_mono p q (r ∷ l) h e = ground (arith, h r, any_mono p q l h)

-- Custom roles only add to the default ones: what a text of roles grants without any, it grants with
-- whatever custom roles the configuration defines, also under the names of the default ones.
pub has_permission_any-adds :
    (roles : String) (resource : Resource) (action : Action)
    (custom : List (String × RolePermissions))
    → has_permission_any roles resource action [] ≡ true
    → has_permission_any roles resource action custom ≡ true
unfolding has_permission_any
has_permission_any-adds roles resource action custom h =
    any_mono (λ role. has_permission role resource action [])
      (λ role. has_permission role resource action custom) (roles_of roles)
      (λ role. has_permission-adds role resource action custom) h
