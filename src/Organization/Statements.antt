-- ===== src/Organization/Statements.antt =====
-- crates/seaorm/src/store/members.rs, and `get_user_by_email` of users.rs.
use better_auth_rs.Prelude.{
  ℕ, String, Bool, ◌&&◌, Option, none, some, List, [], ◌∷◌, ltb, ◌==◌, keep, if◌then◌else◌,
}
use better_auth_rs.Error.{AuthResult, ok, err, not_found, database}
use better_auth_rs.Store.{Exec, query, read, throw, ◌>>=◌}
use better_auth_rs.Store.Table.{find, update_where, delete_where}
use better_auth_rs.Store.Db.{User, Member, Db}

abbrev pub set_members : Db → List Member → Db
set_members d l = record d { members = l }

abbrev pub has_id : String → Member → Bool
has_id id m = m.id == id

abbrev pub is_in : String → Member → Bool
is_in organization_id m = m.organization_id == organization_id

-- WHERE organization_id = … AND user_id = …
abbrev pub is_member : String → String → Member → Bool
is_member organization_id user_id m = m.organization_id == organization_id && m.user_id == user_id

abbrev pub has_email : String → User → Bool
has_email email u = u.email == email

pub record CreateMember : Type 0 where
  pub organization_id : String
  pub user_id : String
  pub role : String

unfoldable pub create_member : String → ℕ → CreateMember → Exec Db Member
create_member id now c =
    let m : Member = record {
      id = id;
      organization_id = c.organization_id;
      user_id = c.user_id;
      role = c.role;
      created_at = now;
    } in
    query (λ d. (ok m, set_members d (m ∷ d.members)))

unfoldable pub get_member : String → String → Exec Db (Option Member)
get_member organization_id user_id = read (λ d. find (is_member organization_id user_id) d.members)

unfoldable pub get_member_by_id : String → Exec Db (Option Member)
get_member_by_id id = read (λ d. find (has_id id) d.members)

-- `normalize_user_email` is `str::to_lowercase`, which follows Unicode's tables and is a parameter.
unfoldable pub get_user_by_email : (String → String) → String → Exec Db (Option User)
get_user_by_email to_lowercase email = read (λ d. find (has_email (to_lowercase email)) d.users)

-- ORDER BY created_at ASC
abbrev pub insert_oldest : Member → List Member → List Member
insert_oldest m [] = m ∷ []
insert_oldest m (n ∷ l) =
    let later = n ∷ insert_oldest m l in if ltb n.created_at m.created_at then later else m ∷ n ∷ l

abbrev pub oldest_first : List Member → List Member
oldest_first [] = []
oldest_first (m ∷ l) = insert_oldest m (oldest_first l)

unfoldable pub list_organization_members : String → Exec Db (List Member)
list_organization_members organization_id =
    read (λ d. oldest_first (keep (is_in organization_id) d.members))

abbrev pub give_role : String → Member → Member
give_role role m = record m { role = role }

-- The second statement of the update answers with the row that it has written.
abbrev pub updated_answer : String → String → Db → Option Member → AuthResult Member × Db
updated_answer id role d none = (err (database "record not updated"), d)
updated_answer id role d (some m) =
    (ok (give_role role m), set_members d (update_where (has_id id) (give_role role) d.members))

abbrev pub updated_row : String → String → Db → AuthResult Member × Db
updated_row id role d = updated_answer id role d (find (has_id id) d.members)

unfoldable pub update_found : String → String → Option Member → Exec Db Member
update_found id role none = throw (not_found "Member not found")
update_found id role (some m) = query (updated_row id role)

unfoldable pub update_member_role : String → String → Exec Db Member
unfolding update_found
update_member_role member_id role = do
  model ← read (λ d. find (has_id member_id) d.members)
  update_found member_id role model

unfoldable pub delete_member : String → Exec Db (Unit {0})
delete_member id = query (λ d. (ok tt, set_members d (delete_where (has_id id) d.members)))
