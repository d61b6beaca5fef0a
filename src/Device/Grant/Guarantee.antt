-- ===== src/Device/Grant/Guarantee.antt =====
-- Issuing a device code leaves the codes that were issued before alone.
use better_auth_rs.Prelude.{ℕ, String, ◌≡◌, ◌≢◌, arith, ◌∷◌, eq_iff, sym, ◌∙◌, Bool-cases, inl, inr}
use better_auth_rs.Request.{Parsed, parsed, rejected}
use better_auth_rs.Store.Rely.{Keeps}
use better_auth_rs.Store.Frames.{frame_rules}
use better_auth_rs.Store.Table.{find, count}
use better_auth_rs.Store.Db.{DeviceCode, Db}
use better_auth_rs.Device.Codes.{Reply, DeviceCodeRequest}
use better_auth_rs.Device.Config.{UrlCrate, DeviceConfig, ServerConfig, Random}
use better_auth_rs.Device.Lifecycle.{Evolves, Advances-refl}
use better_auth_rs.Device.Statements
use better_auth_rs.Device.Statements.{has_id, set_codes}
use better_auth_rs.Device.Progress.{Evolves-Frames, Keeps-Evolves}
use better_auth_rs.Device.Grant.{issue_code, handle_device_code}

Evolves-create :
    (id : String) (r : DeviceCode) (d : Db)
    → r.id ≢ id
    → Evolves id d (set_codes d (r ∷ d.device_codes))
unfolding find count
Evolves-create id r d fresh = elim (Bool-cases (has_id id r)) [
  | inl e ↦ absurd (fresh ((eq_iff r.id id).0 e))
  | inr e ↦ record {
    keeps_key = λ u. rw e (omega arith);
    advances = λ u r' found. (r', rw e at found, Advances-refl r');
  }
]

module _ (url : UrlCrate) (server : ServerConfig) (plugin : DeviceConfig) (id : String)
    (clock : ℕ → ℕ) (random : Random) (fresh : random.row_id ≢ id) where
  create-Keeps :
      (r : DeviceCode) → r.id ≡ random.row_id → Keeps (Evolves id) (Statements.create_device_code r)
  unfolding Statements.create_device_code
  create-Keeps r e = Keeps-Evolves id _ (λ d. Evolves-create id r d (λ same. fresh (sym e ∙ same)))

  issue_code-Keeps :
      (body : DeviceCodeRequest)
      → Keeps (Evolves id) (issue_code url server plugin clock random body)
  unfolding issue_code
  issue_code-Keeps body = search (frame_rules, Evolves-Frames, create-Keeps) depth 8

  pub handle_device_code-Keeps :
      (body : Parsed DeviceCodeRequest Reply)
      → Keeps (Evolves id) (handle_device_code url server plugin clock random body)
  unfolding handle_device_code
  handle_device_code-Keeps (rejected r) = search (frame_rules, Evolves-Frames)
  handle_device_code-Keeps (parsed body) = search (frame_rules, Evolves-Frames, issue_code-Keeps)
