-- ===== src/Device/Lifecycle.antt =====
-- The life of one device code, as a preorder on databases: what may become of the row of an
-- identifier that has been issued. Nothing brings a deleted row back, since identifiers are fresh.
use better_auth_rs.Prelude.{
  ◌≤◌, String, Option, none, some, ◌≡◌, ◌≢◌, ◌⊎◌, inl, inr, refl, arith, eq_iff, Option-cases, ◌∙◌,
  sym, ap,
}
use better_auth_rs.Store.Table.{find, count}
use better_auth_rs.Store.Db.{DeviceCode, Db}
use better_auth_rs.Device.Codes.{pending, approved, denied}
use better_auth_rs.Device.Statements.{has_id}

-- How a row may change: a pending row is claimed once, and a claimed one is decided once.
pub record Advances (r r' : DeviceCode) : Type 0 where
  pub same_id : r'.id ≡ r.id
  pub same_device_code : r'.device_code ≡ r.device_code
  pub same_user_code : r'.user_code ≡ r.user_code
  pub same_expiry : r'.expires_at ≡ r.expires_at
  pub same_client : r'.client_id ≡ r.client_id
  pub claimed_once : (r'.user_id ≡ r.user_id) ⊎ ((r.user_id ≡ none) × (r.status ≡ pending))
  pub decided_once :
      (r'.status ≡ r.status)
      ⊎ ((r.status ≡ pending)
          × (r'.user_id ≢ none)
          × ((r'.status ≡ approved) ⊎ (r'.status ≡ denied)))

approved_ne_pending : ◌≢◌ {A = String} "approved" "pending"
approved_ne_pending = ground (arith, eq_iff "approved" "pending")

denied_ne_pending : ◌≢◌ {A = String} "denied" "pending"
denied_ne_pending = ground (arith, eq_iff "denied" "pending")

pub Advances-refl : (r : DeviceCode) → Advances r r
Advances-refl r = record {
  same_id = refl;
  same_device_code = refl;
  same_user_code = refl;
  same_expiry = refl;
  same_client = refl;
  claimed_once = inl refl;
  decided_once = inl refl;
}

pub Advances-trans : {a b c : DeviceCode} → Advances a b → Advances b c → Advances a c
Advances-trans {a} {b} {c} h k = record {
  same_id = k.same_id ∙ h.same_id;
  same_device_code = k.same_device_code ∙ h.same_device_code;
  same_user_code = k.same_user_code ∙ h.same_user_code;
  same_expiry = k.same_expiry ∙ h.same_expiry;
  same_client = k.same_client ∙ h.same_client;
  claimed_once = grind (
    arith, h.claimed_once, k.claimed_once, h.decided_once, approved_ne_pending, denied_ne_pending,
  );
  decided_once = grind (
    arith, h.claimed_once, k.claimed_once, h.decided_once, k.decided_once, approved_ne_pending,
    denied_ne_pending,
  );
}

-- The row of an identifier.
abbrev pub row : String → Db → Option DeviceCode
row id d = find (has_id id) d.device_codes

-- An identifier is a primary key.
abbrev pub IsKey : String → Db → Type 0
IsKey id d = count (has_id id) d.device_codes ≤ 1

-- What may happen to the row of an issued identifier.
pub record Evolves (id : String) (d d' : Db) : Type 0 where
  pub keeps_key : IsKey id d → IsKey id d'
  pub advances :
      IsKey id d
      → (r' : DeviceCode) → row id d' ≡ some r'
      → (r : DeviceCode) × (row id d ≡ some r) × Advances r r'

pub Evolves-refl : (id : String) (d : Db) → Evolves id d d
Evolves-refl id d = record { keeps_key = λ h. h; advances = λ h r e. (r, e, Advances-refl r) }

pub Evolves-trans : (id : String) (a b c : Db) → Evolves id a b → Evolves id b c → Evolves id a c
Evolves-trans id a b c h k = record {
  keeps_key = λ u. k.keeps_key (h.keeps_key u);
  advances = λ u r' e.
      let (r, e₁, later) = k.advances (h.keeps_key u) r' e in
      let (r₀, e₀, first) = h.advances u r e₁ in (r₀, e₀, Advances-trans first later);
}

-- A row that is gone stays gone.
pub Evolves-absent :
    (id : String) (d d' : Db) → Evolves id d d' → IsKey id d → row id d ≡ none → row id d' ≡ none
Evolves-absent id d d' h u gone = elim (Option-cases (row id d')) [
  | inl e ↦ e
  | inr (r', e) ↦ let (r, e₀, _) = h.advances u r' e in cc
]

-- Statements that leave the table alone.
pub Evolves-same : (id : String) (d d' : Db) → d'.device_codes ≡ d.device_codes → Evolves id d d'
Evolves-same id d d' h = record {
  keeps_key = λ u. rw h u;
  advances = λ u r' e. (r', ap (find (has_id id)) (sym h) ∙ e, Advances-refl r');
}
