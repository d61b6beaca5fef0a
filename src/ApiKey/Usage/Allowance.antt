-- ===== src/ApiKey/Usage/Allowance.antt =====
-- A key without refill is used at most as often as its count of remaining uses says.
use better_auth_rs.Prelude.{
  ℕ, zero, suc, ◌+◌, ◌≤◌, ℤ, pos, negsuc, String, Bool, true, false, Option, none, some, ◌≡◌, ◌≢◌,
  refl, sym, ap, ◌∙◌, subst, inl, inr, arith, List, [], ◌∷◌, All, lez, pred_ℤ, some_of, unwrap_or,
  Bool-cases, if◌then◌else◌, ◌==◌,
}
use better_auth_rs.Error.{AuthResult, AuthError, ok, err, ok_of}
use better_auth_rs.Store.Db.{ApiKey, Db}
use better_auth_rs.Store.Table.{find, delete_where, find-delete_where, find_holds, find_replaced}
use better_auth_rs.ApiKey.Usage.{
  UpdateApiKey, no_update, set_i32, fits_i32, apply_update_fields, ConsumeApiKeyResult, allowed,
  rate_limited, usage_exhausted, remove, go_on, spend, limit_rate, count_request, has_id, set_keys,
  store_used, consume_limited, consume_found, consume, refill, last_refill, window_expired,
}
use better_auth_rs.ApiKey.Usage.Step.{apply_update_fields_lem}

-- The uses that a count stands for.
abbrev pub units : ℤ → ℕ
units (pos n) = n
units (negsuc n) = 0

-- The key has no refill and at most so many uses left, or it is gone.
abbrev pub HasLeft : String → ℕ → Db → Type 0
HasLeft id n d =
    (key : ApiKey)
    → find (has_id id) d.api_keys ≡ some key
    → (key.refill_amount ≡ none) × (r : ℤ) × (key.remaining ≡ some r) × (units r ≤ n)

-- The requests that one result lets through.
abbrev pub granted : AuthResult ConsumeApiKeyResult → ℕ
granted (ok (allowed key)) = 1
granted (ok rate_limited) = 0
granted (ok usage_exhausted) = 0
granted (err e) = 0

no_refill : (now last : ℕ) (interval : Option ℤ) → refill now last interval none ≡ none
no_refill now last none = refl
no_refill now last (some i) = refl

units_pred : (r : ℤ) → lez r (pos 0) ≡ false → units (pred_ℤ r) + 1 ≡ units r
units_pred (pos zero) h = ground arith
units_pred (pos (suc n)) h = omega arith
units_pred (negsuc n) h = ground arith

spend_no_refill :
    (now : ℕ) (key : ApiKey) (r : ℤ)
    → key.refill_amount ≡ none
    → key.remaining ≡ some r
    → spend now key
      ≡ (if lez r (pos 0) then remove else go_on (record no_update { remaining = some (pred_ℤ r) }))
spend_no_refill now key r a h =
    rw (h, a, no_refill now (last_refill key) key.refill_interval)
      (elim (Bool-cases (lez r (pos 0))) [ inl e ↦ rw e refl | inr e ↦ rw e refl ])

-- Counting a request leaves the other counters of an update.
record KeepsCounters (update update' : UpdateApiKey) : Type 0 where
  remaining : update'.remaining ≡ update.remaining
  amount : update'.refill_amount ≡ update.refill_amount

none_ne_some : {u : UpdateApiKey} → none ≢ some u
none_ne_some h = cc

-- An update is what it was computed to be.
kept :
    {update u v : UpdateApiKey} → KeepsCounters update u → some u ≡ some v → KeepsCounters update v
kept {update} k h = subst (KeepsCounters update) (some_of h) k

count_request_keeps :
    (now : ℕ) (key : ApiKey) (update update' : UpdateApiKey) (tw max : Option ℤ)
    → count_request now key update tw max ≡ some update'
    → KeepsCounters update update'
count_request_keeps now key update update' (some tw) (some max) h =
    elim (Bool-cases (window_expired now key.last_request tw)) [
      | inl e ↦ let h' = rw e at h in kept (record { remaining = refl; amount = refl }) h'
      | inr e ↦ elim (Bool-cases (lez max (unwrap_or key.request_count (pos 0)))) [
        | inl full ↦ let h' = rw (e, full) at h in absurd (none_ne_some h')
        | inr room ↦
            let h' = rw (e, room) at h in kept (record { remaining = refl; amount = refl }) h'
      ]
    ]
count_request_keeps now key update update' (some tw) none h =
    kept (record { remaining = refl; amount = refl }) h
count_request_keeps now key update update' none max h =
    kept (record { remaining = refl; amount = refl }) h

limit_rate_keeps :
    (active : Bool) (now : ℕ) (key : ApiKey) (update update' : UpdateApiKey)
    → limit_rate active now key update ≡ some update'
    → KeepsCounters update update'
limit_rate_keeps false now key update update' h =
    kept (record { remaining = refl; amount = refl }) h
limit_rate_keeps true now key update update' h =
    count_request_keeps now key update update' key.rate_limit_time_window key.rate_limit_max h

-- A column that is set to a value has that value.
set_value :
    (field : String) (v : ℤ) (old r : Option ℤ) → set_i32 field (some v) old ≡ ok r → r ≡ some v
set_value field v old r h = elim (Bool-cases (fits_i32 v)) [
  | inl e ↦ let h' = rw e at h in sym (ok_of h')
  | inr e ↦ let h' = rw e at h in absurd (err_ne_ok h')
]
  where
    err_ne_ok : {e : AuthError} {r : Option ℤ} → err e ≢ ok r
    err_ne_ok h = cc

-- What is left after a result, of the uses before.
record Spent (id : String) (n : ℕ) (out : AuthResult ConsumeApiKeyResult × Db) : Type 0 where
  left : ℕ
  pays : left + granted out.0 ≤ n
  leaves : HasLeft id left out.1

module _ (id : String) (n : ℕ) (d : Db) where
  unchanged :
      (r : AuthResult ConsumeApiKeyResult) → granted r ≡ 0 → HasLeft id n d → Spent id n (r, d)
  unchanged r zero_granted h = record { left = n; pays = omega (arith, zero_granted); leaves = h }

  removed : Spent id n (ok usage_exhausted, set_keys d (delete_where (has_id id) d.api_keys))
  removed = record {
    left = n;
    pays = omega arith;
    leaves = λ key found.
        absurd
          (none_ne (sym (find-delete_where (has_id id) (has_id id) d.api_keys (λ a h. h)) ∙ found));
  }
    where
      none_ne : {key : ApiKey} → none ≢ some key
      none_ne h = cc

  -- A use that is stored leaves one use less.
  stored :
      (now : ℕ) (key : ApiKey) (update : UpdateApiKey) (r : ℤ)
      → find (has_id id) d.api_keys ≡ some key
      → key.refill_amount ≡ none
      → update.remaining ≡ some (pred_ℤ r)
      → update.refill_amount ≡ none
      → units (pred_ℤ r) + 1 ≤ n
      → HasLeft id n d
      → Spent id n (store_used d id (apply_update_fields now key update))
  stored now key update r found no_amount left no_update_amount room h =
      go (apply_update_fields now key update) refl
    where
      go :
          (result : AuthResult ApiKey)
          → apply_update_fields now key update ≡ result
          → Spent id n (store_used d id result)
      go (err f) e = unchanged (err f) refl h
      go (ok key') e =
          let applied = apply_update_fields_lem now key update key' e in
          let used = rw left at applied.remaining in
          let plain = rw (no_update_amount, no_amount) at applied.amount in
          let matches =
            ap (λ i. i == id) applied.same_id ∙ find_holds (has_id id) d.api_keys key found in
          record {
            left = units (pred_ℤ r);
            pays = room;
            leaves = λ key'' found''.
                let same =
                  some_of
                    (sym (find_replaced (has_id id) key key' d.api_keys found matches) ∙ found'') in
                (
                  ap (λ k. k.refill_amount) (sym same) ∙ sym (ok_of plain),
                  pred_ℤ r,
                  ap (λ k. k.remaining) (sym same)
                      ∙ set_value "remaining" (pred_ℤ r) key.remaining key'.remaining used,
                  omega arith,
                );
          }

  limited :
      (now : ℕ) (key : ApiKey) (r : ℤ) (o : Option UpdateApiKey) (update : UpdateApiKey)
      → find (has_id id) d.api_keys ≡ some key
      → key.refill_amount ≡ none
      → update.remaining ≡ some (pred_ℤ r)
      → update.refill_amount ≡ none
      → units (pred_ℤ r) + 1 ≤ n
      → HasLeft id n d
      → ((update' : UpdateApiKey) → o ≡ some update' → KeepsCounters update update')
      → Spent id n (consume_limited now d id key o)
  limited now key r none update found no_amount left plain room h keeps =
      unchanged (ok rate_limited) refl h
  limited now key r (some update') update found no_amount left plain room h keeps =
      let k = keeps update' refl in
      stored now key update' r found no_amount (k.remaining ∙ left) (k.amount ∙ plain) room h

  -- One use.
  consume_found-Spent :
      (rate_limit : Bool) (now updated : ℕ) (o : Option ApiKey)
      → find (has_id id) d.api_keys ≡ o
      → HasLeft id n d
      → Spent id n (consume_found rate_limit now updated d id o)
  consume_found-Spent rate_limit now updated none e h = unchanged _ refl h
  consume_found-Spent rate_limit now updated (some key) e h =
      let (no_amount, r, left, few) = h key e in
      rw (spend_no_refill now key r no_amount left) (elim (Bool-cases (lez r (pos 0))) [
        | inl out ↦ rw out removed
        | inr in_stock ↦ rw in_stock (
            limited updated key r _ (record no_update { remaining = some (pred_ℤ r) }) e no_amount
              refl refl (omega (arith, units_pred r in_stock)) h (limit_rate_keeps _ now key _))
      ])

  consume-Spent :
      (rate_limit : Bool) (now updated : ℕ)
      → HasLeft id n d
      → Spent id n (consume id rate_limit now updated d)
  unfolding consume
  consume-Spent rate_limit now updated h =
      consume_found-Spent rate_limit now updated (find (has_id id) d.api_keys) refl h

-- One attempt to use the key, with what others do to the database before.
pub record Use : Type 0 where
  pub interfere : Db → Db
  pub rate_limit : Bool
  pub now : ℕ
  pub updated : ℕ

-- Attempts in the order in which the transactions are serialised, and how many are let through.
unfoldable pub uses : String → List Use → Db → ℕ
uses id [] d = 0
uses id (u ∷ us) d =
    let (result, d') = consume id u.rate_limit u.now u.updated (u.interfere d) in
    granted result + uses id us d'

-- A key without refill that has at most n uses left is let through at most n times, however often,
-- when and by whom it is used, while nothing else that runs in between gives it uses or refill.
pub uses-within :
    (id : String) (us : List Use) (n : ℕ) (d : Db)
    → All (λ u. (m : ℕ) (d : Db) → HasLeft id m d → HasLeft id m (u.interfere d)) us
    → HasLeft id n d
    → uses id us d ≤ n
unfolding uses
uses-within id [] n d frame h = omega arith
uses-within id (u ∷ us) n d (keeps, frame) h =
    let s = consume-Spent id n (u.interfere d) u.rate_limit u.now u.updated (keeps n d h) in
    let rest =
      uses-within id us s.left (consume id u.rate_limit u.now u.updated (u.interfere d)).1 frame
        s.leaves in
    let pays = s.pays in omega (arith, pays, rest)
