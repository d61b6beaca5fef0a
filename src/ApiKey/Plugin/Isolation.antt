-- ===== src/ApiKey/Plugin/Isolation.antt =====
-- What the calls of the plugin leave alone: a key that the caller may not change.
use better_auth_rs.Prelude.{
  ℕ, ℤ, String, false, Option, none, some, List, All, ◌≡◌, sym, ap, subst, ◌==◌, eq_iff, Bool-cases,
  inl, inr, or_else, none_ne_some, true_ne_false, ◌⊎◌,
}
use better_auth_rs.Error.{AuthResult, ok, ok_of, err_ne_ok}
use better_auth_rs.Request.{AuthRequest, parsed, rejected, lookup}
use better_auth_rs.Store.{World, Exec, pure, lift, ◌>>=◌}
use better_auth_rs.Store.Table.{find, find-All}
use better_auth_rs.Store.Rely.{Relies, Keeps}
use better_auth_rs.Store.Frames.{Frames, framed-lift, framed-pure, frame_rules}
use better_auth_rs.Store.Triple.{
  Ensures, Ensures_absurd, Ensures-lift, Ensures-bind, Ensures_plain, Ensures_of_Keeps,
}
use better_auth_rs.Store.Db.{ApiKey, Db}
use better_auth_rs.ApiKey.Config.{
  ApiKeyReferences, user, organization, ApiKeyConfig, named, or_no_default, resolve_configuration,
}
use better_auth_rs.ApiKey.Usage.{has_id}
use better_auth_rs.ApiKey.Statements.{is_expired, list_api_keys_by_reference}
use better_auth_rs.ApiKey.Access.{get_owned_api_key}
use better_auth_rs.ApiKey.Access.Ownership.{may_use}
use better_auth_rs.ApiKey.Keys.{
  KeyPlugin, Moment, reference_of, in_organization, create_for, create_key_core, get_key_core,
  delete_key_core, update_key_core, update_owned,
}
use better_auth_rs.ApiKey.Keys.Listing.{list_keys_core}
use better_auth_rs.ApiKey.Plugin.{KeyCall, create, get, list, update, delete, get_by_id, handle_for}
use better_auth_rs.ApiKey.Plugin.Stays
use better_auth_rs.ApiKey.Plugin.Stays.{
  CannotChange, Stands, stays, create_api_key-Stays, delete_api_key-Stays, update_api_key-Stays,
  maybe_delete_expired-Stays,
}
use better_auth_rs.ApiKey.Access.Frame.{get_owned_api_key-Keeps, require_org-Keeps}
use better_auth_rs.ApiKey.Requests.{
  DeleteKeyRequest, UpdateKeyRequest, CreateKeyRequest, ListKeysQuery,
}
use better_auth_rs.ApiKey.Plugin.Refused.{get_owned_api_key-Never}

found_either :
    (a b : Option ApiKeyConfig) (c : ApiKeyConfig)
    → or_no_default (or_else a b) ≡ ok c
    → (a ≡ some c) ⊎ (b ≡ some c)
found_either (some x) b c h = inl (ap some (ok_of h))
found_either none (some y) c h = inr (ap some (ok_of h))
found_either none none c h = absurd (err_ne_ok h)

-- What holds of every configuration holds of the one that is resolved.
resolved-All :
    (P : ApiKeyConfig → Type 0) (l : List ApiKeyConfig) (id : Option String) (c : ApiKeyConfig)
    → All P l
    → resolve_configuration l id ≡ ok c
    → P c
unfolding resolve_configuration
resolved-All P l none c all h = elim (found_either none _ c h) [
  | inl e ↦ absurd (none_ne_some e)
  | inr e ↦ find-All P _ l c all e
]
resolved-All P l (some i) c all h = elim (found_either (named (some i) l) _ c h) [
  | inl e ↦ find-All P _ l c all e
  | inr e ↦ find-All P _ l c all e
]

module _ (plugin : KeyPlugin) (k : String) (key : ApiKey) (user_id : String) where
  open plugin use {json, configurations, metadata}

  abbrev Holds : Db → Type 0
  Holds = Stands metadata configurations k key user_id

  abbrev Keeping : Db → Db → Type 0
  Keeping = Stays.Stays metadata configurations k key user_id

  keeping : Frames Keeping
  keeping = stays metadata configurations k key user_id

  -- A handler that first checks that the caller owns the key does no more when it is this one.
  refused-Ensures :
      {A : Type 0} (config_id : Option String) (config : ApiKeyConfig) (key_id action : String)
      (f : ApiKey → Exec Db A)
      → resolve_configuration configurations config_id ≡ ok config
      → key_id ≡ k
      → ((d : Db)
          → CannotChange metadata configurations k key user_id d config
          → may_use metadata d config.references user_id action key ≡ false)
      → Ensures Keeping Holds
          (get_owned_api_key metadata config key_id user_id action >>= f)
          (λ _ _. Unit {0})
  refused-Ensures config_id config key_id action f resolved same closed =
      Ensures-bind keeping.transitive Holds _ _ _ f
        (get_owned_api_key-Never metadata Keeping keeping.reflexive keeping.transitive Holds
          (λ d d' r s. r.at s) user_id action key config key_id
          (λ d s. subst (λ i. find (has_id i) d.api_keys ≡ some key) (sym same) s.found)
          (λ d s. closed d (resolved-All _ configurations config_id config s.closed resolved)))
        (λ found. Ensures_absurd _ _ _ (λ d h. true_ne_false h))

  abbrev Kept : {A : Type 0} → Exec Db A → Type 0
  Kept m = Ensures Keeping Holds m (λ _ _. Unit {0})

  plainly : {A : Type 0} {m : Exec Db A} → Keeps Keeping m → Kept m
  plainly {A} {m} keeps = Ensures_plain keeping.transitive Holds m keeps

  after_resolving :
      {A : Type 0} (config_id : Option String) (g : ApiKeyConfig → Exec Db A)
      → ((config : ApiKeyConfig)
          → resolve_configuration configurations config_id ≡ ok config
          → Kept (g config))
      → Kept (lift (resolve_configuration configurations config_id) >>= g)
  after_resolving config_id g later =
      Ensures-bind keeping.transitive Holds _ _ _ g
        (Ensures-lift keeping.transitive Holds _ keeping.reflexive)
        (λ config. record { at = λ w rely (s, e). (later config e).at w rely s })

  delete_key_core-Kept : (body : DeleteKeyRequest) → Kept (delete_key_core plugin body user_id)
  unfolding delete_key_core CannotChange
  delete_key_core-Kept body = elim (Bool-cases (body.key_id == k)) [
    | inl same ↦ after_resolving body.config_id _ (λ config e.
        refused-Ensures body.config_id config body.key_id "delete" _ e
          ((eq_iff body.key_id k).0 same) (λ d c. c.1))
    | inr other ↦
        plainly
          (search (frame_rules, keeping, get_owned_api_key-Keeps, delete_api_key-Stays, other))
  ]

  -- What the rest of an update does is kept where it is of another key.
  module _ (moment : Moment) (fresh : (n : ℕ) → is_expired (moment.clock n) key ≡ false) where
    update_owned-Keeps :
        (config : ApiKeyConfig) (body : UpdateKeyRequest json) (found : ApiKey)
        → (body.key_id == k) ≡ false
        → Keeps Keeping (update_owned plugin moment config body found)
    unfolding update_owned
    update_owned-Keeps config body found other =
        search
          (frame_rules, keeping, update_api_key-Stays, maybe_delete_expired-Stays, fresh, other)

    update_key_core-Kept :
        (body : UpdateKeyRequest json) → Kept (update_key_core plugin moment body user_id)
    unfolding update_key_core CannotChange
    update_key_core-Kept body = elim (Bool-cases (body.key_id == k)) [
      | inl same ↦ Ensures-bind keeping.transitive Holds _ _ _ _ (kept_lift _) (λ checked.
          after_resolving body.config_id _ (λ config e.
            Ensures-bind keeping.transitive Holds _ _ _ _ (kept_lift _) (λ valid.
              refused-Ensures body.config_id config body.key_id "update" _ e
                ((eq_iff body.key_id k).0 same) (λ d c. c.0))))
      | inr other ↦ plainly (
          search (frame_rules, keeping, get_owned_api_key-Keeps, update_owned-Keeps, other) depth 8)
    ]
      where
        kept_lift : {A : Type 0} (r : AuthResult A) → Ensures Keeping Holds (lift r) (λ _. Holds)
        kept_lift r =
            Ensures_of_Keeps keeping.transitive Holds (lift r) (λ d d' m s. m.at s)
              (framed-lift keeping r)

    module _ (new : (moment.id == k) ≡ false) where
      reference_of-Keeps :
          (references : ApiKeyReferences) (action : String) (o : Option String)
          → Keeps Keeping (reference_of plugin references user_id action o)
      unfolding reference_of in_organization
      reference_of-Keeps user action o = search (frame_rules, keeping)
      reference_of-Keeps organization action none = search (frame_rules, keeping)
      reference_of-Keeps organization action (some id) =
          search (frame_rules, keeping, require_org-Keeps)

      create_for-Keeps :
          (config : ApiKeyConfig) (body : CreateKeyRequest json) (e : Option ℤ)
          (reference_id : String)
          → Keeps Keeping (create_for plugin moment config body e reference_id)
      unfolding create_for
      create_for-Keeps config body e reference_id =
          search
            (frame_rules, keeping, create_api_key-Stays, maybe_delete_expired-Stays, fresh, new)

      create_key_core-Keeps :
          (body : CreateKeyRequest json)
          → Keeps Keeping (create_key_core plugin moment body user_id)
      unfolding create_key_core
      create_key_core-Keeps body =
          search (frame_rules, keeping, reference_of-Keeps, create_for-Keeps)

      get_key_core-Keeps :
          (id : String) (config_id : Option String)
          → Keeps Keeping (get_key_core plugin moment id config_id user_id)
      unfolding get_key_core
      get_key_core-Keeps id config_id =
          search (frame_rules, keeping, get_owned_api_key-Keeps, maybe_delete_expired-Stays, fresh)

      list_keys_core-Keeps :
          (query : ListKeysQuery) → Keeps Keeping (list_keys_core plugin moment query user_id)
      unfolding list_keys_core list_api_keys_by_reference
      list_keys_core-Keeps query =
          search (frame_rules, keeping, reference_of-Keeps, maybe_delete_expired-Stays, fresh) depth
            8

      get_by_id-Keeps :
          (req : AuthRequest) (o : Option String)
          → Keeps Keeping (get_by_id plugin moment req user_id o)
      unfolding get_by_id
      get_by_id-Keeps req none = search (frame_rules, keeping)
      get_by_id-Keeps req (some id) = search (frame_rules, keeping, get_key_core-Keeps)

      then_pure : {A B : Type 0} (m : Exec Db A) (f : A → B) → Kept m → Kept (m >>= λ a. pure (f a))
      then_pure m f kept =
          Ensures-bind keeping.transitive Holds (λ _ _. Unit {0}) (λ _ _. Unit {0}) m _ kept
            (λ a. Ensures_plain keeping.transitive _ _ (framed-pure keeping (f a)))

      handle_for-Kept :
          (req : AuthRequest) (call : KeyCall plugin)
          → Kept (handle_for plugin moment req call user_id)
      unfolding handle_for
      handle_for-Kept req (create (rejected r)) = plainly (search (frame_rules, keeping))
      handle_for-Kept req (create (parsed body)) =
          plainly (search (frame_rules, keeping, create_key_core-Keeps))
      handle_for-Kept req get = plainly (get_by_id-Keeps req (lookup "id" req.query))
      handle_for-Kept req list = plainly (search (frame_rules, keeping, list_keys_core-Keeps))
      handle_for-Kept req (update (rejected r)) = plainly (search (frame_rules, keeping))
      handle_for-Kept req (update (parsed body)) = then_pure _ _ (update_key_core-Kept body)
      handle_for-Kept req (delete (rejected r)) = plainly (search (frame_rules, keeping))
      handle_for-Kept req (delete (parsed body)) = then_pure _ _ (delete_key_core-Kept body)

-- A key that the caller may neither update nor delete, under any configuration, is the same after each
-- call of the plugin as before it, among requests that keep this so, unless it has expired at one of the
-- clock's readings. The identifier of a new key is not its own.
pub handle_for-Stands :
    (plugin : KeyPlugin) (moment : Moment) (req : AuthRequest) (call : KeyCall plugin) (k : String)
    (key : ApiKey) (user_id : String) (w : World Db)
    → ((n : ℕ) → is_expired (moment.clock n) key ≡ false)
    → (moment.id == k) ≡ false
    → Relies (Stays.Stays plugin.metadata plugin.configurations k key user_id) w.schedule
    → Stands plugin.metadata plugin.configurations k key user_id w.db
    → Stands plugin.metadata plugin.configurations k key user_id
        (handle_for plugin moment req call user_id w).1.db
handle_for-Stands plugin moment req call k key user_id w fresh new rely stands =
    let (kept, _, _) =
      (handle_for-Kept plugin k key user_id moment fresh new req call).at w rely stands in
    kept.at stands
