-- ===== src/Error.antt =====
-- crates/core/src/error.rs: `AuthError`, its HTTP status, and `AuthResult`.
-- What a variant takes from another crate (a serde, JWT or database error) is its message.
pub mod Chain
use Prim.Native.Nat.{ℕ}
use Prim.Native.String.{String}
use mathlib.Core.Path.{◌≡◌, refl}
use mathlib.Core.Logic.{◌≢◌, ◌⊎◌, inl, inr}

pub data AuthError : Type 0 where
  bad_request invalid_request validation : String → AuthError
  invalid_credentials unauthenticated : AuthError
  authentication_failed : String → AuthError
  session_not_found : AuthError
  forbidden banned_user : String → AuthError
  unauthorized user_not_found : AuthError
  not_found conflict method_not_allowed payload_too_large unprocessable_entity : String → AuthError
  rate_limited : AuthError
  not_implemented config : String → AuthError
  database serialization : String → AuthError
  plugin_error : (plugin message : String) → AuthError
  internal password_hash jwt : String → AuthError

abbrev pub status_code : AuthError → ℕ
status_code (bad_request m) = 400
status_code (invalid_request m) = 400
status_code (validation m) = 400
status_code invalid_credentials = 401
status_code unauthenticated = 401
status_code (authentication_failed m) = 401
status_code session_not_found = 401
status_code (forbidden m) = 403
status_code (banned_user m) = 403
status_code unauthorized = 403
status_code user_not_found = 404
status_code (not_found m) = 404
status_code (conflict m) = 409
status_code (method_not_allowed m) = 405
status_code (payload_too_large m) = 413
status_code (unprocessable_entity m) = 422
status_code rate_limited = 429
status_code (not_implemented m) = 501
status_code (config m) = 500
status_code (database m) = 500
status_code (serialization m) = 500
status_code (plugin_error p m) = 500
status_code (internal m) = 500
status_code (password_hash m) = 500
status_code (jwt m) = 500

pub data AuthResult {ℓ} (A : Type ℓ) : Type ℓ where
  ok : A → AuthResult A
  err : AuthError → AuthResult A

pub AuthResult-cases {ℓ} :
    {A : Type ℓ} (r : AuthResult A) → ((a : A) × (r ≡ ok a)) ⊎ ((e : AuthError) × (r ≡ err e))
AuthResult-cases (ok a) = inl (a, refl)
AuthResult-cases (err e) = inr (e, refl)

-- `r.map(f)`
abbrev pub map_ok {ℓ κ} : {A : Type ℓ} {B : Type κ} → (A → B) → AuthResult A → AuthResult B
map_ok f (ok a) = ok (f a)
map_ok f (err e) = err e

pub ok_of {ℓ} : {A : Type ℓ} {a b : A} → ok a ≡ ok b → a ≡ b
ok_of h = cc

pub err_of {ℓ} : (A : Type ℓ) {e f : AuthError} → Path (AuthResult A) (err e) (err f) → e ≡ f
err_of A h = cc

pub err_ne_ok {ℓ} : {A : Type ℓ} {e : AuthError} {a : A} → err e ≢ ok a
err_ne_ok h = cc
