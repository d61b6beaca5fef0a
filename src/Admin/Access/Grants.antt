-- ===== src/Admin/Access/Grants.antt =====
-- What a permission check of the admin plugin answers, against the rule it follows.
use better_auth_rs.Prelude.{
  String, Bool, true, false, Option, none, some, List, [], ◌∷◌, ◌≡◌, ◌≢◌, ◌↔◌, ◌⊎◌, inl, inr, refl,
  any, All, Any, any_iff, all_iff, Bool-cases, eq_iff, some_of, true_ne_false, none_ne_some, sym,
  subst, ◌∙◌, ◌==◌, ◌∙◌, ◌==◌,
}
use better_auth_rs.Request.{lookup}
use better_auth_rs.Admin.{AdminConfig, Permissions}
use better_auth_rs.Admin.Access.{
  holds_all, allows, configured_roles, role_names, is_admin_user_id, role_allows, has_permission,
  listed,
}

-- Every action asked for on the resource is one that the role may take on it.
abbrev pub Covers : Permissions → String × List String → Type 0
Covers p (resource, actions) =
    (allowed : List String) × (lookup resource p.permissions ≡ some allowed)
    × All (λ action. Any (λ item. item ≡ action) allowed) actions

-- All that is asked for, which is not nothing.
abbrev pub CoversAll : List (String × List String) → Permissions → Type 0
CoversAll requested p = (requested ≢ []) × All (Covers p) requested

-- A configured role of the name that covers it.
abbrev pub Grants : AdminConfig → List (String × List String) → String → Type 0
Grants config requested name =
    (p : Permissions) × (lookup name (configured_roles config) ≡ some p) × CoversAll requested p

abbrev pub IsAdminId : AdminConfig → String → Type 0
IsAdminId config id =
    (ids : List String) × (config.admin_user_ids ≡ some ids) × Any (λ admin. admin ≡ id) ids

abbrev pub IsAdminUser : AdminConfig → Option String → Type 0
IsAdminUser config user_id = (id : String) × (user_id ≡ some id) × IsAdminId config id

-- A test of an option that fails on nothing.
option_iff :
    {A : Type 0} (f : Option A → Bool) (P : A → Type 0)
    → f none ≡ false
    → ((a : A) → (f (some a) ≡ true) ↔ P a)
    → (o : Option A) → (f o ≡ true) ↔ ((a : A) × (o ≡ some a) × P a)
option_iff f P fails h none =
    ((λ e. absurd (true_ne_false (sym e ∙ fails))), λ (a, e, _). absurd (none_ne_some e))
option_iff f P fails h (some a) =
    ((λ e. (a, refl, (h a).0 e)), λ (b, e, holds). (h a).1 (subst P (sym (some_of e)) holds))

listed_iff : (x : String) (l : List String) → (any (λ y. y == x) l ≡ true) ↔ Any (λ y. y ≡ x) l
listed_iff x l = any_iff (λ y. y == x) (λ y. y ≡ x) (λ y. eq_iff y x) l

is_admin_user_id-IsAdminUser :
    (user_id : Option String) (config : AdminConfig)
    → (is_admin_user_id user_id config ≡ true) ↔ IsAdminUser config user_id
unfolding is_admin_user_id
is_admin_user_id-IsAdminUser user_id config =
    option_iff (λ o. is_admin_user_id o config) (IsAdminId config) refl
      (λ id.
        option_iff (listed id) (λ ids. Any (λ a. a ≡ id) ids) refl (λ ids. listed_iff id ids)
          config.admin_user_ids)
      user_id

holds_all-Any :
    (actions : List String) (o : Option (List String))
    → (holds_all actions o ≡ true) ↔ (
        (allowed : List String) × (o ≡ some allowed)
        × All (λ action. Any (λ item. item ≡ action) allowed) actions)
holds_all-Any actions =
    option_iff (holds_all actions) (λ allowed. All (λ x. Any (λ item. item ≡ x) allowed) actions)
      refl
      (λ allowed.
        all_iff (λ x. any (λ item. item == x) allowed) (λ x. Any (λ item. item ≡ x) allowed)
          (λ x. listed_iff x allowed) actions)

allows-Covers :
    (p : Permissions) (requested : List (String × List String))
    → (allows p requested ≡ true) ↔ CoversAll requested p
unfolding allows
allows-Covers p [] = ((λ h. absurd (true_ne_false (sym h))), λ (h, _). absurd (h refl))
allows-Covers p (entry ∷ rest) =
    let covers =
      all_iff (λ e. holds_all e.1 (lookup e.0 p.permissions)) (Covers p)
        (λ e. holds_all-Any e.1 (lookup e.0 p.permissions)) (entry ∷ rest) in
    ((λ h. ((λ e. cc), covers.0 h)), λ (_, h). covers.1 h)

role_allows-Grants :
    (config : AdminConfig) (requested : List (String × List String)) (name : String)
    → (role_allows requested (lookup name (configured_roles config)) ≡ true)
      ↔ Grants config requested name
role_allows-Grants config requested name =
    option_iff (role_allows requested) (CoversAll requested) refl (λ p. allows-Covers p requested)
      (lookup name (configured_roles config))

-- A permission check answers yes exactly when the user is configured as an administrator, or when one
-- of the user's roles (the default role, where the user has none) is a configured role that covers
-- every action asked for, and something is asked for.
pub has_permission-Grants :
    (user_id role : Option String) (config : AdminConfig) (requested : List (String × List String))
    → (has_permission user_id role config requested ≡ true) ↔ (
        IsAdminUser config user_id
        ⊎ Any (Grants config requested) (role_names role config.default_role))
unfolding has_permission
has_permission-Grants user_id role config requested =
    let by_id = is_admin_user_id-IsAdminUser user_id config in
    let by_role =
      any_iff (λ name. role_allows requested (lookup name (configured_roles config)))
        (Grants config requested) (role_allows-Grants config requested)
        (role_names role config.default_role) in
    elim (Bool-cases (is_admin_user_id user_id config)) [
      | inl e ↦ rw e ((λ _. inl (by_id.0 e)), λ _. refl)
      | inr e ↦ rw e (
        (λ h. inr (by_role.0 h)),
        λ k. elim k [
          | inl admin ↦ absurd (true_ne_false (sym (by_id.1 admin) ∙ e))
          | inr granted ↦ by_role.1 granted
        ],
      )
    ]
