-- ===== src/ApiKey/Access/Ownership.antt =====
-- A key that the ownership check hands over may be used by the caller.
use better_auth_rs.Prelude.{
  String, Bool, true, false, ◌&&◌, ◌||◌, Option, none, some, unwrap_or, ◌≡◌, refl, ap, ◌∙◌, subst,
  ◌==◌, eq_iff, Bool-cases, inl, inr,
}
use better_auth_rs.Error.{ok, ok_of, err_ne_ok}
use better_auth_rs.Store.{World, pure, ◌>>=◌}
use better_auth_rs.Store.Table.{find}
use better_auth_rs.Store.Answers.{bind_ok}
use better_auth_rs.Store.Db.{Member, ApiKey, Db}
use better_auth_rs.Organization.Statements.{is_member, get_member}
use better_auth_rs.ApiKey.Config.{
  ApiKeyReferences, ApiKeyConfig, user, organization, config_id_matches,
}
use better_auth_rs.ApiKey.Statements.{get_api_key_by_id}
use better_auth_rs.ApiKey.Access.{
  OrganizationMetadata, is_creator, is_permitted, permit_member, require_org_api_key_permission,
  check_owner, owned, get_owned_api_key,
}

module _ (metadata : OrganizationMetadata) where
  -- By the members of a database: a member of the organization who is its creator or has the permission.
  abbrev pub holds_permission : String → Option Member → Bool
  holds_permission action none = false
  holds_permission action (some member) =
      is_creator metadata member || is_permitted metadata action member

  -- Whether the caller may act on a key, by the members of a database.
  abbrev pub may_use : Db → ApiKeyReferences → String → String → ApiKey → Bool
  may_use d user user_id action key = key.reference_id == user_id
  may_use d organization user_id action key =
      unwrap_or metadata.enabled false
      && holds_permission action (find (is_member key.reference_id user_id) d.members)

  -- By what the ownership check reads, which starts on the world.
  pub data IsAuthorized (user_id action : String) (key : ApiKey) (w : World Db)
      : ApiKeyReferences → Type 0 where
    own : key.reference_id ≡ user_id → IsAuthorized user_id action key w user
    by_role :
        (o : Option Member)
        → unwrap_or metadata.enabled false ≡ true
        → (get_member key.reference_id user_id w).0 ≡ ok o
        → holds_permission action o ≡ true
        → IsAuthorized user_id action key w organization

  -- By the two reads of the ownership check: the key, and then the caller's membership.
  pub record WasOwned (config : ApiKeyConfig) (key_id user_id action : String) (w : World Db)
      (key : ApiKey) : Type 0 where
    pub found : (get_api_key_by_id key_id w).0 ≡ ok (some key)
    pub in_config : config_id_matches key.config_id config.config_id ≡ true
    pub authorized :
        IsAuthorized user_id action key (get_api_key_by_id key_id w).1 config.references

  pub permit_member_ok :
      (action : String) (o : Option Member) (w : World Db)
      → (permit_member metadata action o w).0 ≡ ok tt
      → holds_permission action o ≡ true
  unfolding permit_member ◌>>=◌
  permit_member_ok action none w h = absurd (err_ne_ok h)
  permit_member_ok action (some m) w h = elim (Bool-cases (is_creator metadata m)) [
    | inl e ↦ rw e refl
    | inr e ↦ elim (Bool-cases (is_permitted metadata action m)) [
      | inl p ↦ rw (e, p) refl
      | inr p ↦ absurd (err_ne_ok (rw (e, p) at h))
    ]
  ]

  pub require_ok :
      (user_id organization_id action : String) (w : World Db)
      → (require_org_api_key_permission metadata user_id organization_id action w).0 ≡ ok tt
      → (unwrap_or metadata.enabled false ≡ true)
        × (o : Option Member) × ((get_member organization_id user_id w).0 ≡ ok o)
        × (holds_permission action o ≡ true)
  unfolding require_org_api_key_permission ◌>>=◌
  require_ok user_id organization_id action w h =
      elim (Bool-cases (unwrap_or metadata.enabled false)) [
        | inr off ↦ absurd (err_ne_ok (rw off at h))
        | inl on ↦
            let (o, first, rest) =
              bind_ok (get_member organization_id user_id) (permit_member metadata action) w tt
                (rw on at h) in
            (on, o, first, permit_member_ok action o _ rest)
      ]

  check_owner_ok :
      (references : ApiKeyReferences) (user_id action : String) (key key' : ApiKey) (w : World Db)
      → (check_owner metadata references user_id action key w).0 ≡ ok key'
      → (key ≡ key') × IsAuthorized user_id action key w references
  unfolding check_owner ◌>>=◌
  check_owner_ok user user_id action key key' w h =
      elim (Bool-cases (key.reference_id == user_id)) [
        | inl e ↦ (ok_of (rw e at h), own ((eq_iff key.reference_id user_id).0 e))
        | inr e ↦ absurd (err_ne_ok (rw e at h))
      ]
  check_owner_ok organization user_id action key key' w h =
      let check = require_org_api_key_permission metadata user_id key.reference_id action in
      let (u, first, rest) = bind_ok check (λ _. pure key) w key' h in
      let (on, o, seen, holds) = require_ok user_id key.reference_id action w first in
      (ok_of rest, by_role o on seen holds)

  owned_ok :
      (config : ApiKeyConfig) (user_id action : String) (o : Option ApiKey) (key : ApiKey)
      (w : World Db)
      → (owned metadata config user_id action o w).0 ≡ ok key
      → (o ≡ some key)
        × (config_id_matches key.config_id config.config_id ≡ true)
        × IsAuthorized user_id action key w config.references
  unfolding owned ◌>>=◌
  owned_ok config user_id action none key w h = absurd (err_ne_ok h)
  owned_ok config user_id action (some k) key w h =
      elim (Bool-cases (config_id_matches k.config_id config.config_id)) [
        | inr e ↦ absurd (err_ne_ok (rw e at h))
        | inl e ↦
            let (same, authorized) =
              check_owner_ok config.references user_id action k key w (rw e at h) in
            (
              ap some same,
              subst (λ k. config_id_matches k.config_id config.config_id ≡ true) same e,
              subst (λ k. IsAuthorized user_id action k w config.references) same authorized,
            )
      ]

  -- Among any other requests and failures.
  pub get_owned_api_key_sound :
      (config : ApiKeyConfig) (key_id user_id action : String) (key : ApiKey) (w : World Db)
      → (get_owned_api_key metadata config key_id user_id action w).0 ≡ ok key
      → WasOwned config key_id user_id action w key
  unfolding get_owned_api_key
  get_owned_api_key_sound config key_id user_id action key w h =
      let (o, first, rest) =
        bind_ok (get_api_key_by_id key_id) (owned metadata config user_id action) w key h in
      let (same, in_config, authorized) = owned_ok config user_id action o key _ rest in
      record { found = first ∙ ap ok same; in_config = in_config; authorized = authorized }
