-- ===== src/Store/Quiet.antt =====
-- A handler that is alone and meets no failure stays so: its schedule is empty at the end too.
use better_auth_rs.Prelude.{◌≡◌, refl}
use better_auth_rs.Error.{AuthError, AuthResult, ok, err}
use better_auth_rs.Store.{World, Exec, alone, pure, throw, query, attempt, continue, ◌>>=◌}

pub record IsQuiet {D : Type 0} {A : Type 0} (m : Exec D A) : Type 0 where
  pub at : (d : D) → (m (alone d)).1 ≡ alone (m (alone d)).1.db

module _ {D A : Type 0} where
  pub IsQuiet-pure : (a : A) → IsQuiet (pure {D = D} a)
  unfolding pure
  IsQuiet-pure a = record { at = λ d. refl }

  pub IsQuiet-throw : (e : AuthError) → IsQuiet (throw {D = D} {A = A} e)
  unfolding throw
  IsQuiet-throw e = record { at = λ d. refl }

  pub IsQuiet-query : (op : D → AuthResult A × D) → IsQuiet (query op)
  unfolding query
  IsQuiet-query op = record { at = λ d. refl }

  pub IsQuiet-attempt : (m : Exec D A) → IsQuiet m → IsQuiet (attempt m)
  unfolding attempt
  IsQuiet-attempt m q = record { at = q.at }

module _ {D A B : Type 0} where
  continue_quiet :
      (r : AuthResult A) (f : A → Exec D B) (w : World D)
      → w ≡ alone w.db
      → ((a : A) → IsQuiet (f a))
      → (continue r f w).1 ≡ alone (continue r f w).1.db
  continue_quiet (ok a) f w h q = rw h ((q a).at w.db)
  continue_quiet (err e) f w h q = h

  pub IsQuiet-bind :
      (m : Exec D A) (f : A → Exec D B) → IsQuiet m → ((a : A) → IsQuiet (f a)) → IsQuiet (m >>= f)
  unfolding ◌>>=◌
  IsQuiet-bind m f first later = record {
    at = λ d. continue_quiet (m (alone d)).0 f (m (alone d)).1 (first.at d) later;
  }

pub ruleset quiet_rules =
    (IsQuiet-pure, IsQuiet-throw, IsQuiet-query, IsQuiet-attempt, IsQuiet-bind)
