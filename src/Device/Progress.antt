-- ===== src/Device/Progress.antt =====
-- Each statement on the device codes advances the row of an issued identifier, or leaves it alone.
use better_auth_rs.Prelude.{
  ℕ, String, Bool, true, Option, none, some, ◌≡◌, inl, inr, refl, arith, eq_iff, if◌then◌else◌,
  Bool-cases, ◌∙◌, sym, subst, eqb,
}
use mathlib.Core.Option
use better_auth_rs.Store.Table.{
  find, update_where, delete_where, count, find-update_where, count-update_where,
  count-delete_where, find_before_delete,
}
use better_auth_rs.Store.{query}
use better_auth_rs.Store.Frames.{Frames, frame_rules}
use better_auth_rs.Store.Rely.{Keeps, Keeps-query}
use better_auth_rs.Error.{AuthResult}
use better_auth_rs.Store.Db.{DeviceCode, Db}
use better_auth_rs.Device.Lifecycle.{
  Advances, Advances-refl, Evolves, Evolves-refl, Evolves-trans, Evolves-same, row,
}
use better_auth_rs.Device.Config.{polled_at}
use better_auth_rs.Device.Statements
use better_auth_rs.Device.Statements.{has_id, set_codes}

some_of : {r r' : DeviceCode} → some r ≡ some r' → r ≡ r'
some_of e = cc

pub Evolves-update :
    (id : String) (p : DeviceCode → Bool) (f : DeviceCode → DeviceCode) (d : Db)
    → ((r : DeviceCode) → has_id id (f r) ≡ has_id id r)
    → ((r : DeviceCode) → row id d ≡ some r → p r ≡ true → Advances r (f r))
    → Evolves id d (set_codes d (update_where p f d.device_codes))
Evolves-update id p f d same step = record {
  keeps_key = λ u. rw (count-update_where (has_id id) p f d.device_codes same) u;
  advances = λ u r' e.
      go (find (has_id id) d.device_codes) refl
        (sym (find-update_where (has_id id) p f d.device_codes same) ∙ e);
}
  where
    go :
        (o : Option DeviceCode) {r' : DeviceCode}
        → row id d ≡ o
        → Option.map (λ a. if p a then f a else a) o ≡ some r'
        → (r : DeviceCode) × (row id d ≡ some r) × Advances r r'
    go none e h = cc
    go (some r) e h = elim (Bool-cases (p r)) [
      | inl k ↦ (r, e, subst (Advances r) (some_of (rw k at h)) (step r e k))
      | inr k ↦ (r, e, subst (Advances r) (some_of (rw k at h)) (Advances-refl r))
    ]

pub Evolves-delete :
    (id : String) (p : DeviceCode → Bool) (d : Db)
    → Evolves id d (set_codes d (delete_where p d.device_codes))
Evolves-delete id p d = record {
  keeps_key = λ u. omega (arith, count-delete_where p (has_id id) d.device_codes);
  advances =
      λ u r' e. (r', find_before_delete p (has_id id) d.device_codes r' u e, Advances-refl r');
}

Advances-polled_at :
    (now : ℕ) (r : DeviceCode) → Advances r (Statements.apply_update (polled_at now) r)
Advances-polled_at now r = record {
  same_id = refl;
  same_device_code = refl;
  same_user_code = refl;
  same_expiry = refl;
  same_client = refl;
  claimed_once = inl refl;
  decided_once = inl refl;
}

Advances-claimed :
    (key user_id : String) (r : DeviceCode)
    → Statements.is_unclaimed key r ≡ true
    → Advances r (Statements.claimed_by user_id r)
Advances-claimed key user_id r h = record {
  same_id = refl;
  same_device_code = refl;
  same_user_code = refl;
  same_expiry = refl;
  same_client = refl;
  claimed_once =
      inr (ground (arith, eq_iff r.status "pending"), ground (arith, eq_iff r.status "pending"));
  decided_once = inl refl;
}

module _ (id : String) where
  Evolves-polled :
      (key : String) (now : ℕ) (d : Db)
      → Evolves id d (Statements.update_row key (polled_at now) d).1
  Evolves-polled key now d = elim (Bool-cases (eqb (count (has_id key) d.device_codes) 0)) [
    | inl e ↦ rw e (Evolves-refl id d)
    | inr e ↦ rw e (
        Evolves-update id (has_id key) (Statements.apply_update (polled_at now)) d (λ r. refl)
          (λ r _ _. Advances-polled_at now r))
  ]

  module _ {A : Type 0} where
    pub Keeps-Evolves :
        (op : Db → AuthResult A × Db)
        → ((d : Db) → Evolves id d (op d).1)
        → Keeps (Evolves id) (query op)
    Keeps-Evolves op h = Keeps-query (Evolves-refl id) (Evolves-trans id) op h

-- Users and sessions are other tables.
pub Evolves-Frames : (id : String) → Frames (Evolves id)
Evolves-Frames id = record {
  reflexive = Evolves-refl id;
  transitive = Evolves-trans id;
  users_free = λ d l. Evolves-same id d _ refl;
  sessions_free = λ d l. Evolves-same id d _ refl;
}

module _ (id : String) where
  or_not_found-Keeps : (o : Option DeviceCode) → Keeps (Evolves id) (Statements.or_not_found o)
  unfolding Statements.or_not_found
  or_not_found-Keeps none = search (frame_rules, Evolves-Frames)
  or_not_found-Keeps (some c) = search (frame_rules, Evolves-Frames)

  polled-Keeps :
      (key : String) (now : ℕ)
      → Keeps (Evolves id) (query (Statements.update_row key (polled_at now)))
  polled-Keeps key now = Keeps-Evolves id _ (Evolves-polled id key now)

  pub poll-Keeps :
      (key : String) (now : ℕ)
      → Keeps (Evolves id) (Statements.update_device_code key (polled_at now))
  unfolding Statements.update_device_code
  poll-Keeps key now = search (frame_rules, Evolves-Frames, or_not_found-Keeps, polled-Keeps)

  pub claim-Keeps :
      (key user_id : String) → Keeps (Evolves id) (Statements.claim_device_code key user_id)
  unfolding Statements.claim_device_code
  claim-Keeps key user_id = Keeps-Evolves id _ (λ d.
      Evolves-update id (Statements.is_unclaimed key) (Statements.claimed_by user_id) d (λ r. refl)
        (λ r _ h. Advances-claimed key user_id r h))

  pub delete-Keeps : (key : String) → Keeps (Evolves id) (Statements.delete_device_code key)
  unfolding Statements.delete_device_code
  delete-Keeps key = Keeps-Evolves id _ (λ d. Evolves-delete id (has_id key) d)

  pub delete_if-Keeps :
      (key status : String)
      → Keeps (Evolves id) (Statements.delete_device_code_if_status key status)
  unfolding Statements.delete_device_code_if_status
  delete_if-Keeps key status =
      Keeps-Evolves id _ (λ d. Evolves-delete id (Statements.has_status key status) d)

  pub read_by_device_code-Keeps :
      (code : String) → Keeps (Evolves id) (Statements.get_device_code_by_device_code code)
  unfolding Statements.get_device_code_by_device_code
  read_by_device_code-Keeps code = search (frame_rules, Evolves-Frames)

  pub read_by_user_code-Keeps :
      (code : String) → Keeps (Evolves id) (Statements.get_device_code_by_user_code code)
  unfolding Statements.get_device_code_by_user_code
  read_by_user_code-Keeps code = search (frame_rules, Evolves-Frames)
