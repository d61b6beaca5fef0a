-- ===== src/Store/Frames.antt =====
-- A preorder on databases in which users and sessions may change freely: the code that works on
-- those tables alone keeps it.
use better_auth_rs.Prelude.{List, Bool, true, false, if◌then◌else◌}
use better_auth_rs.Error.{AuthError, AuthResult}
use better_auth_rs.Store.{Exec, pure, throw, lift, attempt, query, read, ◌>>=◌}
use better_auth_rs.Store.Db.{User, Session, Db}
use better_auth_rs.Store.Rely.{
  Keeps, Keeps-pure, Keeps-throw, Keeps-attempt, Keeps-lift, Keeps-query, Keeps-bind,
}

pub record Frames (R : Db → Db → Type 0) : Type 0 where
  pub reflexive : (d : Db) → R d d
  pub transitive : (a b c : Db) → R a b → R b c → R a c
  pub users_free : (d : Db) (l : List User) → R d (record d { users = l })
  pub sessions_free : (d : Db) (l : List Session) → R d (record d { sessions = l })

module _ {R : Db → Db → Type 0} (frames : Frames R) where
  open frames use {reflexive, transitive}

  module _ {A : Type 0} where
    pub framed-pure : (a : A) → Keeps R (pure {D = Db} a)
    framed-pure = Keeps-pure reflexive transitive

    pub framed-throw : (e : AuthError) → Keeps R (throw {D = Db} {A = A} e)
    framed-throw = Keeps-throw reflexive transitive

    pub framed-attempt : (m : Exec Db A) → Keeps R m → Keeps R (attempt m)
    framed-attempt = Keeps-attempt reflexive transitive

    pub framed-lift : (r : AuthResult A) → Keeps R (lift {D = Db} r)
    framed-lift = Keeps-lift reflexive transitive

    -- A test keeps what its two branches keep.
    pub framed-if :
        (b : Bool) (m n : Exec Db A) → Keeps R m → Keeps R n → Keeps R (if b then m else n)
    framed-if true m n h k = h
    framed-if false m n h k = k

    pub framed-query :
        (op : Db → AuthResult A × Db) → ((d : Db) → R d (op d).1) → Keeps R (query op)
    framed-query = Keeps-query reflexive transitive

    pub framed-read : (f : Db → A) → Keeps R (read f)
    framed-read f = framed-query _ reflexive

  module _ {A B : Type 0} where
    pub framed-bind :
        (m : Exec Db A) (f : A → Exec Db B)
        → Keeps R m
        → ((a : A) → Keeps R (f a))
        → Keeps R (m >>= f)
    framed-bind = Keeps-bind reflexive transitive

pub ruleset frame_rules =
    (framed-pure, framed-throw, framed-attempt, framed-read, framed-lift, framed-bind, framed-if)
