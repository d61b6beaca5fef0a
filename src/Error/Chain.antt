-- ===== src/Error/Chain.antt =====
-- `?` in code that only computes a result, as do blocks. Kept apart from the do blocks of handlers.
use better_auth_rs.Prelude.{◌≡◌, refl}
use better_auth_rs.Error.{AuthResult, ok, err}

infixl 10 ◌>>=◌ ◌>>◌
abbrev pub ◌>>=◌ {ℓ κ} :
    {A : Type ℓ} {B : Type κ} → AuthResult A → (A → AuthResult B) → AuthResult B
ok a >>= f = f a
err e >>= f = err e

abbrev pub ◌>>◌ {ℓ κ} : {A : Type ℓ} {B : Type κ} → AuthResult A → AuthResult B → AuthResult B
r >> s = r >>= λ _. s

-- A chain that succeeds has a first part that does.
pub chain_ok {ℓ κ} :
    {A : Type ℓ} {B : Type κ} (r : AuthResult A) (f : A → AuthResult B) (b : B)
    → (r >>= f) ≡ ok b
    → (a : A) × (r ≡ ok a) × (f a ≡ ok b)
chain_ok (ok a) f b h = (a, refl, h)
chain_ok (err e) f b h = cc
