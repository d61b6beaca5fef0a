-- ===== src/ApiKey/Keys/Listed.antt =====
-- What is listed is the caller's to read.
use better_auth_rs.Prelude.{
  ℕ, String, Bool, true, false, Option, none, some, List, [], ◌∷◌, All, All-take, All-drop,
  All-reverse, All-sort_by, All-keep, All-if, reverse, sort_by, ◌≡◌, refl, ap, subst, keep, map,
  Bool-cases, inl, inr, eq_iff, ◌==◌, unwrap_or, ltb,
}
use better_auth_rs.Error.{ok, ok_of, err_ne_ok}
use better_auth_rs.Store.{World, pure, lift, ◌>>=◌}
use better_auth_rs.Store.Answers.{bind_ok, read_ok}
use better_auth_rs.Store.Db.{Member, ApiKey, Db}
use better_auth_rs.Organization.Statements.{get_member}
use better_auth_rs.ApiKey.Config.{
  ApiKeyConfig, ApiKeyReferences, user, organization, config_id_matches, resolve_configuration,
}
use better_auth_rs.ApiKey.Permissions.{JsonCrate}
use better_auth_rs.ApiKey.Access.{require_org_api_key_permission}
use better_auth_rs.ApiKey.Access.Ownership.{holds_permission, require_ok}
use better_auth_rs.ApiKey.Statements.{
  refers_to, insert_oldest_key, oldest_keys_first, list_api_keys_by_reference,
}
use better_auth_rs.ApiKey.Requests.{ApiKeyView, ListKeysQuery, view_of}
use better_auth_rs.ApiKey.Validate.{maybe_delete_expired}
use better_auth_rs.ApiKey.Keys.{KeyPlugin, Moment, reference_of, in_organization}
use better_auth_rs.ApiKey.Keys.Listing.{
  reversed_if, sort_views, sorted_as_asked, from_offset, up_to_limit, views_in, ListKeysResponse,
  list_response, list_keys_core,
}

-- What is listed, after sorting and the window, holds of each view.
module _ (json : JsonCrate) (P : ApiKeyView json → Type 0) where
  reversed_if-All :
      (o : Option String) (views : List (ApiKeyView json))
      → All P views
      → All P (reversed_if json o views)
  reversed_if-All none views h = h
  reversed_if-All (some direction) views h =
      All-if P (direction == "desc") (reverse views) views (All-reverse P views h) h

  sort_views-All :
      (field : String) (o : Option String) (views : List (ApiKeyView json))
      → All P views
      → All P (sort_views json field o views)
  unfolding sort_views
  sort_views-All field o views h = All-if P (field == "createdAt") _ _ (sorted _) (
      All-if P (field == "updatedAt") _ _ (sorted _) (
        All-if P (field == "name") _ _ (sorted _)
          (All-if P (field == "expiresAt") _ views (sorted _) h)))
    where
      sorted :
          (le : ApiKeyView json → ApiKeyView json → Bool)
          → All P (reversed_if json o (sort_by le views))
      sorted le = reversed_if-All o (sort_by le views) (All-sort_by P le views h)

  pub list_response-All :
      (query : ListKeysQuery) (views : List (ApiKeyView json))
      → All P views
      → All P (list_response json query views).api_keys
  list_response-All query views h =
      limited query.limit _ (offset query.offset _ (sorted query.sort_by))
    where
      sorted :
          (o : Option String) → All P (sorted_as_asked json (record query { sort_by = o }) views)
      sorted none = h
      sorted (some field) = sort_views-All field query.sort_direction views h

      offset :
          (o : Option ℕ) (views : List (ApiKeyView json))
          → All P views
          → All P (from_offset json o views)
      offset none views h = h
      offset (some n) views h = All-drop P n views h

      limited :
          (o : Option ℕ) (views : List (ApiKeyView json))
          → All P views
          → All P (up_to_limit json o views)
      limited none views h = h
      limited (some n) views h = All-take P n views h

oldest_keys_first-All :
    (P : ApiKey → Type 0) (l : List ApiKey) → All P l → All P (oldest_keys_first l)
oldest_keys_first-All P [] h = tt
oldest_keys_first-All P (k ∷ l) (h, hs) =
    inserted (oldest_keys_first l) (oldest_keys_first-All P l hs)
  where
    inserted : (m : List ApiKey) → All P m → All P (insert_oldest_key k m)
    inserted [] hm = (h, tt)
    inserted (j ∷ m) (hj, hm) =
        All-if P (ltb j.created_at k.created_at) (j ∷ insert_oldest_key k m) (k ∷ j ∷ m)
          (hj, inserted m hm) (h, (hj, hm))

module _ (json : JsonCrate) (config : ApiKeyConfig) (reference_id : String) where
  -- A view of a key of this owner and configuration.
  abbrev pub IsOf : ApiKeyView json → Type 0
  IsOf view =
      (view.reference_id ≡ reference_id)
      × (config_id_matches view.config_id config.config_id ≡ true)

  views_of :
      (keys : List ApiKey)
      → All (λ key. refers_to reference_id key ≡ true) keys
      → All (λ view. view.reference_id ≡ reference_id) (map (view_of json) keys)
  views_of [] h = tt
  views_of (key ∷ keys) (h, hs) = ((eq_iff key.reference_id reference_id).0 h, views_of keys hs)

  views_in-IsOf :
      (keys : List ApiKey)
      → All (λ key. refers_to reference_id key ≡ true) keys
      → All IsOf (views_in json config keys)
  views_in-IsOf keys h =
      All-keep (λ view. view.reference_id ≡ reference_id) _ (map (view_of json) keys)
        (views_of keys h)

list_refers :
    (reference_id : String) (keys : List ApiKey) (w : World Db)
    → (list_api_keys_by_reference reference_id w).0 ≡ ok keys
    → All (λ key. refers_to reference_id key ≡ true) keys
unfolding list_api_keys_by_reference
list_refers reference_id keys w h =
    let (d, e) =
      read_ok (λ d. oldest_keys_first (keep (refers_to reference_id) d.api_keys)) w keys h in
    subst (All (λ key. refers_to reference_id key ≡ true)) e
      (oldest_keys_first-All _ (keep (refers_to reference_id) d.api_keys) (kept d.api_keys))
  where
    kept :
        (l : List ApiKey)
        → All (λ key. refers_to reference_id key ≡ true) (keep (refers_to reference_id) l)
    kept [] = tt
    kept (k ∷ l) = elim (Bool-cases (refers_to reference_id k)) [
      | inl e ↦ rw e (e, kept l)
      | inr e ↦ rw e (kept l)
    ]

module _ (plugin : KeyPlugin) (user_id : String) (organization_id : Option String)
    (w : World Db) where
  open plugin use {json, configurations, metadata}

  -- Whose keys the caller may list: their own, or those of the organization that they name and in which
  -- they may read keys, by the membership that is read on the world.
  pub data MayList : ApiKeyReferences → String → Type 0 where
    own : MayList user user_id
    of_organization :
        (id : String) (o : Option Member)
        → organization_id ≡ some id
        → unwrap_or metadata.enabled false ≡ true
        → (get_member id user_id w).0 ≡ ok o
        → holds_permission metadata "read" o ≡ true
        → MayList organization id

  in_organization_ok :
      (o : Option String) (reference_id : String)
      → organization_id ≡ o
      → (in_organization plugin user_id "read" o w).0 ≡ ok reference_id
      → MayList organization reference_id
  unfolding in_organization ◌>>=◌
  in_organization_ok none reference_id same h = absurd (err_ne_ok h)
  in_organization_ok (some id) reference_id same h =
      let (u, first, rest) =
        bind_ok (require_org_api_key_permission metadata user_id id "read") (λ _. pure id) w
          reference_id h in
      let (on, o, seen, holds) = require_ok metadata user_id id "read" w first in
      subst (MayList organization) (ok_of rest) (of_organization id o same on seen holds)

  reference_of_ok :
      (references : ApiKeyReferences) (reference_id : String)
      → (reference_of plugin references user_id "read" organization_id w).0 ≡ ok reference_id
      → MayList references reference_id
  unfolding reference_of ◌>>=◌
  reference_of_ok user reference_id h = subst (MayList user) (ok_of h) own
  reference_of_ok organization reference_id h =
      in_organization_ok organization_id reference_id refl h

-- All that is listed, in whatever order and window is asked for, are keys of one owner and of the
-- configuration that is addressed, and that owner is the caller, or the organization that they name and
-- whose keys they may read by the membership that the first read found, among any other requests and
-- failures.
pub list_keys_core_sound :
    (plugin : KeyPlugin) (moment : Moment) (query : ListKeysQuery) (user_id : String)
    (response : ListKeysResponse plugin.json) (last : Option ℕ) (w : World Db)
    → (list_keys_core plugin moment query user_id w).0 ≡ ok (response, last)
    → (config : ApiKeyConfig) × (reference_id : String) × (resolve_configuration
          plugin.configurations query.config_id
        ≡ ok config)
      × MayList plugin user_id query.organization_id w config.references reference_id
      × All (IsOf plugin.json config reference_id) response.api_keys
unfolding list_keys_core ◌>>=◌
list_keys_core_sound plugin moment query user_id response last w h =
    let (config, resolved, h1) =
      bind_ok (lift (resolve_configuration plugin.configurations query.config_id)) _ w _ h in
    let (reference_id, owner, h2) =
      bind_ok (reference_of plugin config.references user_id "read" query.organization_id) _ _ _
        h1 in
    let (keys, listed, h3) = bind_ok (list_api_keys_by_reference reference_id) _ _ _ h2 in
    let (l, _, h4) =
      bind_ok (maybe_delete_expired moment.instant (moment.clock 0) moment.last) _ _ _ h3 in
    (
      config,
      reference_id,
      resolved,
      reference_of_ok plugin user_id query.organization_id w config.references reference_id owner,
      subst (λ r. All (IsOf plugin.json config reference_id) r.api_keys) (ap (λ p. p.0) (ok_of h4))
          (list_response-All plugin.json (IsOf plugin.json config reference_id) query
            (views_in plugin.json config keys)
            (views_in-IsOf plugin.json config reference_id keys
              (list_refers reference_id keys _ listed))),
    )
