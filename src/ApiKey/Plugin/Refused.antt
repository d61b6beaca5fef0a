-- ===== src/ApiKey/Plugin/Refused.antt =====
-- The ownership check of a caller who may not change the key hands it over in no case.
use better_auth_rs.Prelude.{
  String, true, false, Option, none, some, unwrap_or, ◌≡◌, true_ne_false, sym, ◌∙◌, subst, arith,
  ◌==◌, Bool-cases, inl, inr, some_of,
}
use better_auth_rs.Store.Table.{find}
use better_auth_rs.Store.Triple.{
  Ensures, Ensures_absurd, Ensures-throw, Ensures-query, Ensures-bind,
}
use better_auth_rs.Store.Db.{Member, ApiKey, Db}
use better_auth_rs.Organization.Statements.{get_member}
use better_auth_rs.ApiKey.Config.{
  ApiKeyReferences, ApiKeyConfig, user, organization, config_id_matches,
}
use better_auth_rs.ApiKey.Usage.{has_id}
use better_auth_rs.ApiKey.Statements.{get_api_key_by_id}
use better_auth_rs.ApiKey.Access.{
  OrganizationMetadata, is_creator, is_permitted, permit_member, require_org_api_key_permission,
  check_owner, owned, get_owned_api_key,
}
use better_auth_rs.ApiKey.Access.Ownership.{may_use, holds_permission}

-- On databases that satisfy an invariant, by which the caller may not act on the key.
module _ (metadata : OrganizationMetadata) (R : Db → Db → Type 0) (R_refl : (d : Db) → R d d)
    (R_trans : (a b c : Db) → R a b → R b c → R a c) (Inv : Db → Type 0)
    (stable : (d d' : Db) → R d d' → Inv d → Inv d') (user_id action : String) (key : ApiKey) where
  -- No answer.
  abbrev pub Never : {A : Type 0} → A → Db → Type 0
  Never a d = true ≡ false

  permit_member-Never :
      (o : Option Member)
      → Ensures R
          (λ d. Inv d × (holds_permission metadata action o ≡ false))
          (permit_member metadata action o)
          Never
  unfolding permit_member
  permit_member-Never none = Ensures-throw R_trans _ _ _ R_refl
  permit_member-Never (some m) = elim (Bool-cases (is_creator metadata m)) [
    | inl e ↦ Ensures_absurd _ _ _ (λ d (i, h). ground arith)
    | inr e ↦ elim (Bool-cases (is_permitted metadata action m)) [
      | inl p ↦ Ensures_absurd _ _ _ (λ d (i, h). ground arith)
      | inr p ↦ rw (e, p) (Ensures-throw R_trans _ _ _ R_refl)
    ]
  ]

  Refuses : ApiKeyReferences → Type 0
  Refuses references = (d : Db) → Inv d → may_use metadata d references user_id action key ≡ false

  require-Never :
      Refuses organization
      → Ensures R Inv
          (require_org_api_key_permission metadata user_id key.reference_id action)
          Never
  unfolding Refuses require_org_api_key_permission get_member
  require-Never closed = elim (Bool-cases (unwrap_or metadata.enabled false)) [
    | inr off ↦ rw off (Ensures-throw R_trans _ _ _ R_refl)
    | inl on ↦ rw on (
        Ensures-bind R_trans _ (λ o d. Inv d × (holds_permission metadata action o ≡ false)) _ _ _
          (Ensures-query R_trans _ _ _ stable (λ d i. (R_refl d, (i, rw on at (closed d i)))))
          permit_member-Never)
  ]

  check_owner-Never :
      (references : ApiKeyReferences)
      → Refuses references
      → Ensures R Inv (check_owner metadata references user_id action key) Never
  unfolding Refuses check_owner
  check_owner-Never user closed = elim (Bool-cases (key.reference_id == user_id)) [
    | inl e ↦ Ensures_absurd _ _ _ (λ d i. true_ne_false (sym e ∙ closed d i))
    | inr e ↦ rw e (Ensures-throw R_trans _ _ _ R_refl)
  ]
  check_owner-Never organization closed =
      Ensures-bind R_trans _ Never _ _ _ (require-Never closed)
        (λ u. Ensures_absurd _ _ _ (λ d h. true_ne_false h))

  owned_key-Never :
      (config : ApiKeyConfig)
      → Refuses config.references
      → Ensures R Inv (owned metadata config user_id action (some key)) Never
  unfolding owned
  owned_key-Never config closed =
      elim (Bool-cases (config_id_matches key.config_id config.config_id)) [
        | inl e ↦ rw e (check_owner-Never config.references closed)
        | inr e ↦ rw e (Ensures-throw R_trans _ _ _ R_refl)
      ]

  owned-Never :
      (config : ApiKeyConfig) (o : Option ApiKey)
      → Refuses config.references
      → Ensures R (λ d. Inv d × (o ≡ some key)) (owned metadata config user_id action o) Never
  owned-Never config none closed = Ensures_absurd _ _ _ (λ d (i, h). absurd (ground arith))
  owned-Never config (some k) closed = record {
    at = λ w rely (i, h).
        (subst (λ x. Ensures R Inv (owned metadata config user_id action (some x)) Never)
            (sym (some_of h)) (owned_key-Never config closed)).at
          w rely i;
  }

  pub get_owned_api_key-Never :
      (config : ApiKeyConfig) (key_id : String)
      → ((d : Db) → Inv d → find (has_id key_id) d.api_keys ≡ some key)
      → ((d : Db) → Inv d → may_use metadata d config.references user_id action key ≡ false)
      → Ensures R Inv (get_owned_api_key metadata config key_id user_id action) Never
  unfolding Refuses get_owned_api_key get_api_key_by_id
  get_owned_api_key-Never config key_id found closed =
      Ensures-bind R_trans _ (λ o d. Inv d × (o ≡ some key)) _ _ _
        (Ensures-query R_trans _ _ _ stable (λ d i. (R_refl d, (i, found d i))))
        (λ o. owned-Never config o closed)
