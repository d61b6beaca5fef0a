-- ===== src/ApiKey/Plugin/Stays.antt =====
-- A key that the caller may not change stays as it is, through every call of the plugin and whatever
-- other requests do that leaves it so.
use better_auth_rs.Prelude.{
  ℕ, String, false, Option, none, some, List, ◌∷◌, All, ◌≡◌, refl, sym, ◌∙◌, subst, arith, ◌==◌,
  eq_iff,
}
use better_auth_rs.Error.{AuthResult, ok, err}
use better_auth_rs.Store.Table.{find, find_holds}
use better_auth_rs.Store.Table.Counting.{find_kept_by_delete, find_kept_by_update}
use better_auth_rs.Store.Rely.{Keeps}
use better_auth_rs.Store.Frames.{Frames, framed-query, framed-lift, framed-bind, frame_rules}
use better_auth_rs.Store.Db.{ApiKey, Db}
use better_auth_rs.ApiKey.Config.{ApiKeyConfig}
use better_auth_rs.ApiKey.Usage.{has_id, set_keys, UpdateApiKey, apply_update_fields}
use better_auth_rs.ApiKey.Usage.Step.{apply_update_fields_lem}
use better_auth_rs.ApiKey.Statements.{
  is_expired, CreateApiKey, create_api_key, update_api_key, update_found_key, write_current,
  write_row, delete_api_key, delete_expired_api_keys,
}
use better_auth_rs.ApiKey.Validate.{maybe_delete_expired}
use better_auth_rs.ApiKey.Access.{OrganizationMetadata}
use better_auth_rs.ApiKey.Access.Ownership.{may_use}

not_both : (a id k : String) → a ≡ id → (id == k) ≡ false → (a == k) ≡ false
not_both a id k same other = subst (λ x. (x == k) ≡ false) (sym same) other

apart : (a id k : String) → a ≡ k → (id == k) ≡ false → (a == id) ≡ false
apart a id k same other = ground (arith, eq_iff a id, eq_iff id k)

module _ (metadata : OrganizationMetadata) (configurations : List ApiKeyConfig) (k : String)
    (key : ApiKey) (user_id : String) where
  -- By the members of a database the caller may change the key under no configuration.
  unfoldable pub CannotChange : Db → ApiKeyConfig → Type 0
  CannotChange d config =
      (may_use metadata d config.references user_id "update" key ≡ false)
      × (may_use metadata d config.references user_id "delete" key ≡ false)

  pub record Stands (d : Db) : Type 0 where
    pub found : find (has_id k) d.api_keys ≡ some key
    pub closed : All (CannotChange d) configurations

  pub record Stays (d d' : Db) : Type 0 where
    pub at : Stands d → Stands d'

  pub stays : Frames Stays
  unfolding CannotChange
  stays = record {
    reflexive = λ d. record { at = λ s. s };
    transitive = λ a b c f g. record { at = λ s. g.at (f.at s) };
    users_free = λ d l. record { at = λ s. record { found = s.found; closed = s.closed } };
    sessions_free = λ d l. record { at = λ s. record { found = s.found; closed = s.closed } };
  }

  Stays-set_keys :
      (d : Db) (l : List ApiKey)
      → (find (has_id k) d.api_keys ≡ some key → find (has_id k) l ≡ some key)
      → Stays d (set_keys d l)
  unfolding CannotChange
  Stays-set_keys d l h = record { at = λ s. record { found = h s.found; closed = s.closed } }

  insert-Stays :
      (d : Db) (new : ApiKey) → (new.id == k) ≡ false → Stays d (set_keys d (new ∷ d.api_keys))
  unfolding find
  insert-Stays d new fresh = Stays-set_keys d (new ∷ d.api_keys) (λ h. rw fresh h)

  pub create_api_key-Stays :
      (id : String) (now : ℕ) (input : CreateApiKey)
      → (id == k) ≡ false
      → Keeps Stays (create_api_key id now input)
  unfolding create_api_key
  create_api_key-Stays id now input fresh =
      search (frame_rules, stays, framed-query, insert-Stays, fresh) depth 12

  delete_expired-Stays :
      (now : ℕ) → is_expired now key ≡ false → Keeps Stays (delete_expired_api_keys now)
  unfolding delete_expired_api_keys
  delete_expired-Stays now fresh = framed-query stays _ (λ d.
      Stays-set_keys d _
        (λ h. find_kept_by_delete (is_expired now) (has_id k) d.api_keys key h fresh))

  pub maybe_delete_expired-Stays :
      (instant now : ℕ) (last : Option ℕ)
      → is_expired now key ≡ false
      → Keeps Stays (maybe_delete_expired instant now last)
  unfolding maybe_delete_expired
  maybe_delete_expired-Stays instant now last fresh =
      search (frame_rules, stays, delete_expired-Stays, fresh)

  found_named : (l : List ApiKey) → find (has_id k) l ≡ some key → key.id ≡ k
  found_named l h = (eq_iff key.id k).0 (find_holds (has_id k) l key h)

  pub delete_api_key-Stays : (id : String) → (id == k) ≡ false → Keeps Stays (delete_api_key id)
  unfolding delete_api_key
  delete_api_key-Stays id other = framed-query stays _ (λ d. Stays-set_keys d _ (λ h.
      find_kept_by_delete (has_id id) (has_id k) d.api_keys key h
        (apart key.id id k (found_named d.api_keys h) other)))

  write_row-Stays :
      (d : Db) (id : String) (now : ℕ) (update : UpdateApiKey) (current : ApiKey)
      (r : AuthResult ApiKey)
      → (id == k) ≡ false
      → current.id ≡ id
      → apply_update_fields now current update ≡ r
      → Stays d (write_row d id r).1
  write_row-Stays d id now update current (err e) other same h = stays.reflexive d
  write_row-Stays d id now update current (ok new) other same h = Stays-set_keys d _ (λ f.
      find_kept_by_update (has_id id) (has_id k) (λ _. new) d.api_keys key
        (λ x e. (
          not_both x.id id k ((eq_iff x.id id).0 e) other,
          not_both new.id id k ((apply_update_fields_lem now current update new h).same_id ∙ same)
              other,
        ))
        f)

  write_current-Stays :
      (id : String) (update : UpdateApiKey) (now : ℕ) (d : Db) (o : Option ApiKey)
      → (id == k) ≡ false
      → find (has_id id) d.api_keys ≡ o
      → Stays d (write_current id update now d o).1
  write_current-Stays id update now d none other h = stays.reflexive d
  write_current-Stays id update now d (some current) other h =
      write_row-Stays d id now update current (apply_update_fields now current update) other
        ((eq_iff current.id id).0 (find_holds (has_id id) d.api_keys current h)) refl

  update_found_key-Stays :
      (id : String) (update : UpdateApiKey) (now : ℕ) (o : Option ApiKey)
      → (id == k) ≡ false
      → Keeps Stays (update_found_key id update now o)
  unfolding update_found_key
  update_found_key-Stays id update now none other = search (frame_rules, stays)
  update_found_key-Stays id update now (some found) other =
      framed-bind stays _ _ (framed-lift stays _) (λ checked.
        framed-query stays _
          (λ d. write_current-Stays id update now d (find (has_id id) d.api_keys) other refl))

  pub update_api_key-Stays :
      (id : String) (update : UpdateApiKey) (now : ℕ)
      → (id == k) ≡ false
      → Keeps Stays (update_api_key id update now)
  unfolding update_api_key
  update_api_key-Stays id update now other =
      search (frame_rules, stays, update_found_key-Stays, other)
