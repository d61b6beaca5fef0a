-- ===== src/ApiKey/Usage/Step.antt =====
-- What one use does to the row of its key.
use better_auth_rs.Prelude.{ℕ, ◌≡◌, sym, ap, ◌∙◌}
use better_auth_rs.Error.{AuthResult, ok}
use better_auth_rs.Error.Chain.{◌>>=◌, chain_ok}
use better_auth_rs.Store.Db.{ApiKey}
use better_auth_rs.ApiKey.Usage.{UpdateApiKey, assembled, set_i32, apply_update_fields}

-- What an update that succeeds leaves in the counters.
pub record Applied (key : ApiKey) (update : UpdateApiKey) (key' : ApiKey) : Type 0 where
  pub same_id : key'.id ≡ key.id
  pub remaining : set_i32 "remaining" update.remaining key.remaining ≡ ok key'.remaining
  pub time_window :
      set_i32 "rate_limit_time_window" update.rate_limit_time_window key.rate_limit_time_window
      ≡ ok key'.rate_limit_time_window
  pub max :
      set_i32 "rate_limit_max" update.rate_limit_max key.rate_limit_max ≡ ok key'.rate_limit_max
  pub amount :
      set_i32 "refill_amount" update.refill_amount key.refill_amount ≡ ok key'.refill_amount
  pub requests :
      set_i32 "request_count" update.request_count key.request_count ≡ ok key'.request_count

-- Six results that must all be there.
module _ {A B : Type 0} (g : A → A → A → A → A → A → B) where
  all_six : (ra rb rc rd re rf : AuthResult A) → AuthResult B
  all_six ra rb rc rd re rf =
      ra >>= λ a. rb >>= λ b. rc >>= λ c. rd >>= λ d. re >>= λ e. rf >>= λ f. ok (g a b c d e f)

  all_six_ok :
      (ra rb rc rd re rf : AuthResult A) (x : B)
      → all_six ra rb rc rd re rf ≡ ok x
      → (a : A) × (b : A) × (c : A) × (d : A) × (e : A) × (f : A) × (ra ≡ ok a)
        × (rb ≡ ok b)
        × (rc ≡ ok c)
        × (rd ≡ ok d)
        × (re ≡ ok e)
        × (rf ≡ ok f)
        × (x ≡ g a b c d e f)
  unfolding all_six
  all_six_ok ra rb rc rd re rf x h =
      let (a, ea, h1) = chain_ok ra _ x h in
      let (b, eb, h2) = chain_ok rb _ x h1 in
      let (c, ec, h3) = chain_ok rc _ x h2 in
      let (d, ed, h4) = chain_ok rd _ x h3 in
      let (e, ee, h5) = chain_ok re _ x h4 in
      let (f, ef, h6) = chain_ok rf _ x h5 in
      (a, b, c, d, e, f, ea, eb, ec, ed, ee, ef, sym (ok_of h6))
    where
      ok_of : {u v : B} → ok u ≡ ok v → u ≡ v
      ok_of h = cc

pub apply_update_fields_lem :
    (now : ℕ) (key : ApiKey) (update : UpdateApiKey) (key' : ApiKey)
    → apply_update_fields now key update ≡ ok key'
    → Applied key update key'
unfolding apply_update_fields all_six
apply_update_fields_lem now key update key' h =
    let (a, b, c, d, e, f, ea, eb, ec, ed, ee, ef, same) =
      all_six_ok (assembled now key update) (set_i32 "remaining" update.remaining key.remaining)
        (set_i32 "rate_limit_time_window" update.rate_limit_time_window key.rate_limit_time_window)
        (set_i32 "rate_limit_max" update.rate_limit_max key.rate_limit_max)
        (set_i32 "refill_interval" update.refill_interval key.refill_interval)
        (set_i32 "refill_amount" update.refill_amount key.refill_amount)
        (set_i32 "request_count" update.request_count key.request_count) key' h in
    record {
      same_id = ap (λ k. k.id) same;
      remaining = ea ∙ ap (λ k. ok k.remaining) (sym same);
      time_window = eb ∙ ap (λ k. ok k.rate_limit_time_window) (sym same);
      max = ec ∙ ap (λ k. ok k.rate_limit_max) (sym same);
      amount = ee ∙ ap (λ k. ok k.refill_amount) (sym same);
      requests = ef ∙ ap (λ k. ok k.request_count) (sym same);
    }
