-- ===== src/Session/Statements.antt =====
-- crates/seaorm/src/store/sessions.rs
pub mod Quiet
pub mod Frame
use better_auth_rs.Prelude.{
  ℕ, String, Bool, true, not, ◌&&◌, ◌||◌, Option, none, some, List, [], ◌∷◌, ltb, ◌==◌, keep,
  if◌then◌else◌, eqb,
}
use better_auth_rs.Error.{AuthResult, ok, err, session_not_found, database}
use better_auth_rs.Store.{Exec, query, read, pure, throw, ◌>>=◌}
use better_auth_rs.Store.Table.{find, update_where, delete_where, count}
use better_auth_rs.Store.Db.{Session, Db}

abbrev pub set_sessions : Db → List Session → Db
set_sessions d l = record d { sessions = l }

-- WHERE token = … AND active
abbrev pub is_active_token : String → Session → Bool
is_active_token token s = s.token == token && s.active

abbrev pub has_token : String → Session → Bool
has_token token s = s.token == token

abbrev pub has_id : String → Session → Bool
has_id id s = s.id == id

abbrev pub is_active_of : String → Session → Bool
is_active_of user_id s = s.user_id == user_id && s.active

abbrev pub is_of : String → Session → Bool
is_of user_id s = s.user_id == user_id

-- expires_at < now OR NOT active
abbrev pub is_stale : ℕ → Session → Bool
is_stale now s = ltb s.expires_at now || not s.active

-- A missing address or agent is stored as an empty text.
abbrev pub normalize_session_client_field : Option String → Option String
normalize_session_client_field none = some ""
normalize_session_client_field (some value) = some value

pub record CreateSession : Type 0 where
  pub user_id : String
  pub expires_at : ℕ
  pub ip_address : Option String
  pub user_agent : Option String
  pub impersonated_by : Option String
  pub active_organization_id : Option String

-- The identifier and the token are fresh UUIDs; `now` is the clock's reading at the call.
abbrev pub new_active : String → String → ℕ → CreateSession → Session
new_active id token now c = record {
  id = id;
  token = token;
  user_id = c.user_id;
  created_at = now;
  updated_at = now;
  expires_at = c.expires_at;
  active = true;
  active_organization_id = c.active_organization_id;
  ip_address = normalize_session_client_field c.ip_address;
  user_agent = normalize_session_client_field c.user_agent;
  impersonated_by = c.impersonated_by;
}

unfoldable pub create_session : String → String → ℕ → CreateSession → Exec Db Session
create_session id token now c =
    query (λ d.
      (ok (new_active id token now c), set_sessions d (new_active id token now c ∷ d.sessions)))

unfoldable pub get_session : String → Exec Db (Option Session)
get_session token = read (λ d. find (is_active_token token) d.sessions)

-- ORDER BY created_at DESC
abbrev pub insert_newest : Session → List Session → List Session
insert_newest s [] = s ∷ []
insert_newest s (t ∷ l) =
    let later = t ∷ insert_newest s l in if ltb s.created_at t.created_at then later else s ∷ t ∷ l

abbrev pub newest_first : List Session → List Session
newest_first [] = []
newest_first (s ∷ l) = insert_newest s (newest_first l)

unfoldable pub get_user_sessions : String → Exec Db (List Session)
get_user_sessions user_id = read (λ d. newest_first (keep (is_active_of user_id) d.sessions))

-- The second statement of an update: the row is addressed by its key, and must still be there.
abbrev pub update_row : String → (Session → Session) → Db → AuthResult (Unit {0}) × Db
update_row id change d =
    if eqb (count (has_id id) d.sessions) 0
    then (err (database "record not updated"), d)
    else (ok tt, set_sessions d (update_where (has_id id) change d.sessions))

or_not_found : Option Session → Exec Db Session
or_not_found none = throw session_not_found
or_not_found (some s) = pure s

unfoldable pub update_session_expiry : String → ℕ → ℕ → Exec Db (Unit {0})
unfolding or_not_found
update_session_expiry token expires_at now = do
  found ← read (λ d. find (is_active_token token) d.sessions)
  model ← or_not_found found
  query (update_row model.id (λ s. record s { expires_at = expires_at; updated_at = now }))

unfoldable pub delete_session : String → Exec Db (Unit {0})
unfolding get_session
delete_session token = do
  seen ← get_session token
  query (λ d. (ok tt, set_sessions d (delete_where (has_token token) d.sessions)))

unfoldable pub delete_user_sessions : String → Exec Db (Unit {0})
delete_user_sessions user_id =
    query (λ d. (ok tt, set_sessions d (delete_where (is_of user_id) d.sessions)))

unfoldable pub delete_expired_sessions : ℕ → Exec Db ℕ
delete_expired_sessions now = query (λ d.
    (ok (count (is_stale now) d.sessions), set_sessions d (delete_where (is_stale now) d.sessions)))

-- The same with the row as it stands after the statement.
abbrev pub updated_row : String → (Session → Session) → Db → AuthResult (Option Session) × Db
updated_row id change d =
    let rows = update_where (has_id id) change d.sessions in
    if eqb (count (has_id id) d.sessions) 0
    then (err (database "record not updated"), d)
    else (ok (find (has_id id) rows), set_sessions d rows)

unfoldable pub update_session_active_organization : String → Option String → ℕ → Exec Db Session
unfolding or_not_found
update_session_active_organization token organization_id now = do
  found ← read (λ d. find (is_active_token token) d.sessions)
  model ← or_not_found found
  updated ← query (
      updated_row model.id
        (λ s. record s { active_organization_id = organization_id; updated_at = now }))
  or_not_found updated
