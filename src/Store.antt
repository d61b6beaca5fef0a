-- ===== src/Store.antt =====
-- How a handler reaches the database (crates/core/src/store/mod.rs, crates/seaorm/src/store).
-- A handler awaits one statement after another. Before each, other requests may have changed the
-- database, and the statement itself may fail: the schedule says what happens before which one.
-- A write whose answer is lost is a failure with the write in the interference.
pub mod Table
pub mod Db
pub mod Rely
pub mod Frames
pub mod Triple
pub mod Answers
pub mod Quiet
pub mod Alone
use better_auth_rs.Prelude.{Bool, false, true, List, [], ◌∷◌, String}
use better_auth_rs.Error.{AuthError, AuthResult, ok, err, database}

pub record Turn (D : Type 0) : Type 0 where
  pub interfere : D → D
  pub fails : Bool

pub record World (D : Type 0) : Type 0 where
  pub db : D
  pub schedule : List (Turn D)

abbrev pub Exec : Type 0 → Type 0 → Type 0
Exec D A = World D → AuthResult A × World D

-- Nobody else is there and nothing fails.
abbrev pub alone : {D : Type 0} → D → World D
alone d = record { db = d; schedule = [] }

module _ {D A : Type 0} where
  pub pure : A → Exec D A
  pure a w = (ok a, w)

  pub throw : AuthError → Exec D A
  throw e w = (err e, w)

  -- `?` on a plain result
  pub lift : AuthResult A → Exec D A
  lift r w = (r, w)

  abbrev pub settle : List (Turn D) → AuthResult A × D → AuthResult A × World D
  settle ts (r, d) = (r, record { db = d; schedule = ts })

  abbrev pub run_turn : Bool → (D → AuthResult A × D) → D → List (Turn D) → AuthResult A × World D
  run_turn true op d ts = (err (database "statement failed"), record { db = d; schedule = ts })
  run_turn false op d ts = settle ts (op d)

  abbrev pub run_query : (D → AuthResult A × D) → D → List (Turn D) → AuthResult A × World D
  run_query op d [] = settle [] (op d)
  run_query op d (t ∷ ts) = run_turn t.fails op (t.interfere d) ts

  -- `match m.await { Ok(…) => …, Err(…) => … }`: the error is a value.
  abbrev pub handed : AuthResult A × World D → AuthResult (AuthResult A) × World D
  handed (r, w) = (ok r, w)

  pub attempt : Exec D A → Exec D (AuthResult A)
  attempt m w = handed (m w)

  -- One statement, which is atomic.
  unfoldable pub query : (D → AuthResult A × D) → Exec D A
  query op w = run_query op w.db w.schedule

module _ {D A B : Type 0} where
  abbrev pub continue : AuthResult A → (A → Exec D B) → Exec D B
  continue (ok a) f w = f a w
  continue (err e) f w = (err e, w)

  infixl 10 ◌>>=◌ ◌>>◌
  -- opening this opens `pure`, `throw`, `lift` and `attempt` too
  unfoldable pub ◌>>=◌ : Exec D A → (A → Exec D B) → Exec D B
  unfolding pure throw lift attempt
  ◌>>=◌ m f w = let (r, w') = m w in continue r f w'

  abbrev pub ◌>>◌ : Exec D A → Exec D B → Exec D B
  m >> n = m >>= λ _. n

-- A statement that only reads.
abbrev pub read : {D A : Type 0} → (D → A) → Exec D A
read f = query (λ d. (ok (f d), d))
