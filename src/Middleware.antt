-- ===== src/Middleware.antt =====
-- crates/core/src/middleware/mod.rs: the trait and the two chains. A middleware may keep a state, as the
-- buckets of the rate limit; `S` is the state of all of them, `Q` the requests and `R` the responses.
pub mod Order
pub mod Chain
use better_auth_rs.Prelude.{Option, none, some, List, [], ◌∷◌, reverse}
use better_auth_rs.Error.{AuthResult, ok, err}

pub record Middleware (S Q R : Type 0) : Type 0 where
  pub before_request : Q → S → AuthResult (Option R) × S
  pub after_request : Q → R → S → AuthResult R × S

module _ {S R : Type 0} where
  -- The loop goes on where the middleware had no answer.
  abbrev pub unless_answered :
      AuthResult (Option R) × S → (S → AuthResult (Option R) × S) → AuthResult (Option R) × S
  unless_answered (ok none, s) rest = rest s
  unless_answered (ok (some r), s) rest = (ok (some r), s)
  unless_answered (err e, s) rest = (err e, s)

  abbrev pub go_on : AuthResult R × S → (R → S → AuthResult R × S) → AuthResult R × S
  go_on (ok r, s) rest = rest r s
  go_on (err e, s) rest = (err e, s)

module _ {S Q R : Type 0} where
  unfoldable pub run_before : List (Middleware S Q R) → Q → S → AuthResult (Option R) × S
  run_before [] req s = (ok none, s)
  run_before (m ∷ ms) req s = unless_answered (m.before_request req s) (run_before ms req)

  unfoldable pub after_loop : List (Middleware S Q R) → Q → R → S → AuthResult R × S
  after_loop [] req response s = (ok response, s)
  after_loop (m ∷ ms) req response s = go_on (m.after_request req response s) (after_loop ms req)

  unfoldable pub run_after : List (Middleware S Q R) → Q → R → S → AuthResult R × S
  unfolding after_loop
  run_after ms = after_loop (reverse ms)
