-- ===== src/Store/Alone.antt =====
-- Handlers that run alone: which of their parts only read, and what holds of the database after them.
use better_auth_rs.Prelude.{◌≡◌, refl, sym, ap, ◌∙◌, subst, [], Bool, true, false, if◌then◌else◌}
use better_auth_rs.Error.{AuthError, AuthResult, ok, err}
use better_auth_rs.Store.Answers.{bind_ok, bind_run}
use better_auth_rs.Store.{World, Exec, alone, pure, throw, lift, query, read, continue, ◌>>=◌}

-- A part that leaves the database as it is.
pub record IsReading {D A : Type 0} (m : Exec D A) : Type 0 where
  pub at : (d : D) → (m (alone d)).1 ≡ alone d

-- What holds of the database that a part leaves, which was started on another.
pub record Leaves {D A : Type 0} (P : D → Type 0) (d : D) (m : Exec D A) : Type 0 where
  pub holds : P (m (alone d)).1.db
  pub quiet : (m (alone d)).1.schedule ≡ []

module _ {D A : Type 0} where
  pub IsReading-pure : (a : A) → IsReading (pure {D = D} a)
  unfolding pure
  IsReading-pure a = record { at = λ d. refl }

  pub IsReading-throw : (e : AuthError) → IsReading (throw {D = D} {A = A} e)
  unfolding throw
  IsReading-throw e = record { at = λ d. refl }

  pub IsReading-lift : (r : AuthResult A) → IsReading (lift {D = D} r)
  unfolding lift
  IsReading-lift r = record { at = λ d. refl }

  pub IsReading-read : (f : D → A) → IsReading (read f)
  unfolding query
  IsReading-read f = record { at = λ d. refl }

  pub IsReading-if :
      (b : Bool) (m n : Exec D A) → IsReading m → IsReading n → IsReading (if b then m else n)
  IsReading-if true m n x y = x
  IsReading-if false m n x y = y

  pub Leaves-of_reading : {P : D → Type 0} {d : D} {m : Exec D A} → IsReading m → P d → Leaves P d m
  Leaves-of_reading {P} {d} {m} r h = record {
    holds = subst (λ w. P w.db) (sym (r.at d)) h;
    quiet = ap (λ w. w.schedule) (r.at d);
  }

  pub Leaves-query :
      {P : D → Type 0} {d : D} (op : D → AuthResult A × D) → P (op d).1 → Leaves P d (query op)
  unfolding query
  Leaves-query op h = record { holds = h; quiet = refl }

module _ {D A B : Type 0} where
  reading_bind :
      (r : AuthResult A) (f : A → Exec D B) (w : World D) (d : D)
      → w ≡ alone d
      → ((a : A) → IsReading (f a))
      → (continue r f w).1 ≡ alone d
  reading_bind (ok a) f w d h later = ap (λ v. (f a v).1) h ∙ (later a).at d
  reading_bind (err e) f w d h later = h

  pub IsReading-bind :
      {m : Exec D A} {f : A → Exec D B}
      → IsReading m
      → ((a : A) → IsReading (f a))
      → IsReading (m >>= f)
  unfolding ◌>>=◌
  IsReading-bind {m} {f} first later = record {
    at = λ d. reading_bind (m (alone d)).0 f (m (alone d)).1 d (first.at d) later;
  }

  -- A sequence that succeeds: its first part did, and the rest on the same database.
  pub reading_ok :
      (m : Exec D A) (f : A → Exec D B) (d : D) (b : B)
      → IsReading m
      → ((m >>= f) (alone d)).0 ≡ ok b
      → (a : A) × ((m (alone d)).0 ≡ ok a) × ((f a (alone d)).0 ≡ ok b)
  reading_ok m f d b reads h =
      let (a, first, rest) = bind_ok m f (alone d) b h in
      (a, first, ap (λ w. (f a w).0) (sym (reads.at d)) ∙ rest)

  pub reading_run :
      (m : Exec D A) (f : A → Exec D B) (d : D) (w' : World D) (b : B)
      → IsReading m
      → (m >>= f) (alone d) ≡ (ok b, w')
      → (a : A) × ((m (alone d)).0 ≡ ok a) × (f a (alone d) ≡ (ok b, w'))
  reading_run m f d w' b reads h =
      let (a, first, rest) = bind_run m f (alone d) w' b h in
      (a, first, ap (f a) (sym (reads.at d)) ∙ rest)

  -- After a part that reads, the rest starts on the same database, and knows the answer.
  pub Leaves-bind :
      {P : D → Type 0} {d : D} (m : Exec D A) (f : A → Exec D B)
      → IsReading m
      → P d
      → ((a : A) → (m (alone d)).0 ≡ ok a → Leaves P d (f a))
      → Leaves P d (m >>= f)
  unfolding ◌>>=◌
  Leaves-bind {P} {d} m f reads h later =
      let (held, q) = go (m (alone d)).0 (m (alone d)).1 (reads.at d) later in
      record { holds = held; quiet = q }
    where
      go :
          (r : AuthResult A) (w : World D)
          → w ≡ alone d
          → ((a : A) → r ≡ ok a → Leaves P d (f a))
          → P (continue r f w).1.db × ((continue r f w).1.schedule ≡ [])
      go (ok a) w same later =
          let l = later a refl in
          (
            subst (λ v. P (f a v).1.db) (sym same) l.holds,
            ap (λ v. (f a v).1.schedule) same ∙ l.quiet,
          )
      go (err e) w same later = (subst (λ v. P v.db) (sym same) h, ap (λ v. v.schedule) same)

  -- After any part, the rest starts on a database of which the same holds.
  pub Leaves-then :
      {P : D → Type 0} {d : D} (m : Exec D A) (f : A → Exec D B)
      → Leaves P d m
      → ((a : A) (d' : D) → P d' → Leaves P d' (f a))
      → Leaves P d (m >>= f)
  unfolding ◌>>=◌
  Leaves-then {P} {d} m f first later =
      let (held, q) = go (m (alone d)).0 (m (alone d)).1 first.holds first.quiet in
      record { holds = held; quiet = q }
    where
      go :
          (r : AuthResult A) (w : World D)
          → P w.db
          → w.schedule ≡ []
          → P (continue r f w).1.db × ((continue r f w).1.schedule ≡ [])
      go (ok a) w h q =
          let l = later a w.db h in
          (
            subst (λ s. P (f a (record { db = w.db; schedule = s })).1.db) (sym q) l.holds,
            ap (λ s. (f a (record { db = w.db; schedule = s })).1.schedule) q ∙ l.quiet,
          )
      go (err e) w h q = (h, q)

pub ruleset reading_rules =
    (IsReading-pure, IsReading-throw, IsReading-lift, IsReading-read, IsReading-if, IsReading-bind)
