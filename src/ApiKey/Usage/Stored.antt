-- ===== src/ApiKey/Usage/Stored.antt =====
-- A use that is let through leaves the updated key as the row of its identifier.
use better_auth_rs.Prelude.{ℕ, String, Bool, Option, none, some, ◌≡◌, ◌≢◌, refl, ap, ◌∙◌, eq_iff}
use better_auth_rs.Error.{AuthResult, ok, err, err_ne_ok}
use better_auth_rs.Store.Table.{find, find_holds, find_replaced}
use better_auth_rs.Store.Db.{ApiKey, Db}
use better_auth_rs.ApiKey.Usage.{
  UpdateApiKey, ConsumeApiKeyResult, allowed, rate_limited, usage_exhausted, Quota, remove, refuse,
  go_on, spend, has_id, apply_update_fields, store_used, consume_limited, consume_quota,
  consume_found, consume,
}
use better_auth_rs.ApiKey.Usage.Step.{apply_update_fields_lem}

allowed_of :
    {a b : ApiKey}
    → ◌≡◌ {A = AuthResult ConsumeApiKeyResult} (ok (allowed a)) (ok (allowed b))
    → a ≡ b
allowed_of h = cc

rate_limited_ne :
    {a : ApiKey} → ◌≢◌ {A = AuthResult ConsumeApiKeyResult} (ok rate_limited) (ok (allowed a))
rate_limited_ne h = cc

exhausted_ne :
    {a : ApiKey} → ◌≢◌ {A = AuthResult ConsumeApiKeyResult} (ok usage_exhausted) (ok (allowed a))
exhausted_ne h = cc

module _ (id : String) (d : Db) (key' : ApiKey) where
  -- The answer lets the use through, and the database has the key as its row.
  abbrev Stores : AuthResult ConsumeApiKeyResult × Db → Type 0
  Stores (r, d') = r ≡ ok (allowed key') → find (has_id id) d'.api_keys ≡ some key'

  store_used-Stores :
      (key : ApiKey) (update : UpdateApiKey) (updated : ℕ) (r : AuthResult ApiKey)
      → find (has_id id) d.api_keys ≡ some key
      → apply_update_fields updated key update ≡ r
      → Stores (store_used d id r)
  store_used-Stores key update updated (err e) found applied h = absurd (err_ne_ok h)
  store_used-Stores key update updated (ok new) found applied h =
      let same_id = (apply_update_fields_lem updated key update new applied).same_id in
      let here = find_holds (has_id id) d.api_keys key found in
      let matches = (eq_iff new.id id).1 (same_id ∙ (eq_iff key.id id).0 here) in
      find_replaced (has_id id) key new d.api_keys found matches ∙ ap some (allowed_of h)

  consume_limited-Stores :
      (key : ApiKey) (updated : ℕ) (o : Option UpdateApiKey)
      → find (has_id id) d.api_keys ≡ some key
      → Stores (consume_limited updated d id key o)
  consume_limited-Stores key updated none found h = absurd (rate_limited_ne h)
  consume_limited-Stores key updated (some update) found h =
      store_used-Stores key update updated (apply_update_fields updated key update) found refl h

  consume_quota-Stores :
      (rate_limit : Bool) (now updated : ℕ) (key : ApiKey) (q : Quota)
      → find (has_id id) d.api_keys ≡ some key
      → Stores (consume_quota rate_limit now updated d id key q)
  consume_quota-Stores rate_limit now updated key remove found h = absurd (exhausted_ne h)
  consume_quota-Stores rate_limit now updated key refuse found h = absurd (exhausted_ne h)
  consume_quota-Stores rate_limit now updated key (go_on update) found h =
      consume_limited-Stores key updated _ found h

  consume_found-Stores :
      (rate_limit : Bool) (now updated : ℕ) (o : Option ApiKey)
      → find (has_id id) d.api_keys ≡ o
      → Stores (consume_found rate_limit now updated d id o)
  consume_found-Stores rate_limit now updated none found h = absurd (err_ne_ok h)
  consume_found-Stores rate_limit now updated (some key) found h =
      consume_quota-Stores rate_limit now updated key (spend now key) found h

  pub consume-Stores :
      (rate_limit : Bool) (now updated : ℕ)
      → (consume id rate_limit now updated d).0 ≡ ok (allowed key')
      → find (has_id id) (consume id rate_limit now updated d).1.api_keys ≡ some key'
  unfolding consume
  consume-Stores rate_limit now updated =
      consume_found-Stores rate_limit now updated (find (has_id id) d.api_keys) refl
