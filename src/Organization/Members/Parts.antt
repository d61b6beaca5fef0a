-- ===== src/Organization/Members/Parts.antt =====
-- The parts of the handlers that only read, and what their answers say.
use better_auth_rs.Prelude.{
  ◌≤◌, String, Bool, true, false, not, Option, none, some, ◌≡◌, sym, ap, ◌∙◌, subst, inl, inr,
  arith, keep, leb, ◌==◌, eq_iff, eq_refl, if◌then◌else◌, Bool-cases, contains_char, ◌≢◌,
}
use better_auth_rs.Error.{AuthError, ok, err, ok_of, bad_request}
use better_auth_rs.Store.{alone, pure, throw, query, ◌>>=◌}
use better_auth_rs.Store.Alone.{IsReading, reading_ok, reading_rules}
use better_auth_rs.Store.Table.{find, count, find_key, find_holds}
use better_auth_rs.Store.Db.{Member, Db}
use better_auth_rs.Session.Issue.{get_user_by_id}
use better_auth_rs.Organization.Statements.{
  has_id, is_in, is_member, oldest_first, list_organization_members, get_member, get_member_by_id,
  get_user_by_email,
}
use better_auth_rs.Organization.Members.{
  owner_count, or_bad_request, keep_owner, find_by_email, find_by_id, find_target,
}
use better_auth_rs.Organization.Members.Owner.{is_owner, owner_count_lem}

pub IsReading-or_bad_request :
    {A : Type 0} (message : String) (o : Option A) → IsReading (or_bad_request message o)
unfolding or_bad_request
IsReading-or_bad_request message none = search reading_rules
IsReading-or_bad_request message (some a) = search reading_rules

pub IsReading-get_member : (o u : String) → IsReading (get_member o u)
unfolding get_member
IsReading-get_member o u = search reading_rules

pub IsReading-get_member_by_id : (id : String) → IsReading (get_member_by_id id)
unfolding get_member_by_id
IsReading-get_member_by_id id = search reading_rules

pub IsReading-get_user_by_email :
    (to_lowercase : String → String) (email : String)
    → IsReading (get_user_by_email to_lowercase email)
unfolding get_user_by_email
IsReading-get_user_by_email to_lowercase email = search reading_rules

pub IsReading-get_user_by_id : (id : String) → IsReading (get_user_by_id id)
unfolding get_user_by_id
IsReading-get_user_by_id id = search reading_rules

pub IsReading-keep_owner : (c o m : String) (b : Bool) → IsReading (keep_owner c o m b)
unfolding keep_owner list_organization_members
IsReading-keep_owner c o m true = search reading_rules
IsReading-keep_owner c o m false = search reading_rules

pub IsReading-find_target :
    (to_lowercase : String → String) (o s : String) → IsReading (find_target to_lowercase o s)
unfolding find_target find_by_email find_by_id
IsReading-find_target to_lowercase o s =
    search
      (
        reading_rules, IsReading-or_bad_request, IsReading-get_member, IsReading-get_member_by_id,
        IsReading-get_user_by_email,
      )
      depth 9

-- Where the check lets the handler go on, there are two owners.
pub keep_owner_lem :
    (creator org_id message : String) (d : Db) (b : Bool) (u : Unit {0})
    → (keep_owner creator org_id message b (alone d)).0 ≡ ok u
    → b ≡ true
    → 2 ≤ count (is_owner creator org_id) d.members
unfolding keep_owner list_organization_members ◌>>=◌ query
keep_owner_lem creator org_id message d true u h e =
    elim (Bool-cases (leb (owner_count creator (oldest_first (keep (is_in org_id) d.members))) 1)) [
      | inl few ↦ let h' = rw few at h in absurd (err_ne_ok h')
      | inr enough ↦
          let enough' = rw (owner_count_lem creator org_id d.members) at enough in ground arith
    ]
  where
    err_ne_ok : {e : AuthError} → err e ≢ ok u
    err_ne_ok h = cc
keep_owner_lem creator org_id message d false u h e = absurd (false_ne_true e)
  where
    false_ne_true : false ≢ true
    false_ne_true h = cc

pub get_member_ok :
    (org_id user_id : String) (d : Db) (o : Option Member)
    → (get_member org_id user_id (alone d)).0 ≡ ok o
    → find (is_member org_id user_id) d.members ≡ o
unfolding get_member query
get_member_ok org_id user_id d o h = ok_of h

pub get_member_by_id_ok :
    (id : String) (d : Db) (o : Option Member)
    → (get_member_by_id id (alone d)).0 ≡ ok o
    → find (has_id id) d.members ≡ o
unfolding get_member_by_id query
get_member_by_id_ok id d o h = ok_of h

-- The check of the organization.
pub checked_ok :
    (b : Bool) (message : String) (t target : Member) (d : Db)
    → ((if not b then throw (bad_request message) else pure t) (alone d)).0 ≡ ok target
    → t ≡ target
unfolding ◌>>=◌
checked_ok true message t target d h = ok_of h
checked_ok false message t target d h = cc

pub or_bad_request_ok :
    {A : Type 0} (message : String) (o : Option A) (d : Db) (a : A)
    → (or_bad_request message o (alone d)).0 ≡ ok a
    → o ≡ some a
unfolding or_bad_request ◌>>=◌
or_bad_request_ok message none d a h = cc
or_bad_request_ok message (some b) d a h = ap some (ok_of h)

pub find_by_email_lem :
    (to_lowercase : String → String) (org_id email : String) (d : Db) (target : Member)
    → ((id : String) → count (has_id id) d.members ≤ 1)
    → (find_by_email to_lowercase org_id email (alone d)).0 ≡ ok target
    → find (has_id target.id) d.members ≡ some target
unfolding find_by_email
find_by_email_lem to_lowercase org_id email d target keys h =
    let (u, _, h1) =
      reading_ok (get_user_by_email to_lowercase email) _ d target
        (IsReading-get_user_by_email to_lowercase email) h in
    let (user, _, h2) =
      reading_ok (or_bad_request "Member not found" u) _ d target (IsReading-or_bad_request _ u)
        h1 in
    let (m, read_m, h3) =
      reading_ok (get_member org_id user.id) _ d target (IsReading-get_member org_id user.id) h2 in
    let found =
      get_member_ok org_id user.id d m read_m
      ∙ or_bad_request_ok "Member not found" m d target h3 in
    find_key (is_member org_id user.id) (has_id target.id) d.members target (keys target.id) found
      (eq_refl target.id)

pub find_by_id_lem :
    (org_id id : String) (d : Db) (target : Member)
    → (find_by_id org_id id (alone d)).0 ≡ ok target
    → find (has_id target.id) d.members ≡ some target
unfolding find_by_id
find_by_id_lem org_id id d target h =
    let (m, read_m, h1) =
      reading_ok (get_member_by_id id) _ d target (IsReading-get_member_by_id id) h in
    let (t, here, h2) =
      reading_ok (or_bad_request "Member not found" m) _ d target (IsReading-or_bad_request _ m)
        h1 in
    let found =
      get_member_by_id_ok id d m read_m ∙ or_bad_request_ok "Member not found" m d t here in
    let same = checked_ok (t.organization_id == org_id) _ t target d h2 in
    let key = (eq_iff t.id id).0 (find_holds (has_id id) d.members t found) in
    subst (λ x. find (has_id x.id) d.members ≡ some x) same
      (subst (λ i. find (has_id i) d.members ≡ some t) (sym key) found)

-- Who is found to be removed is the row of its identifier.
pub find_target_lem :
    (to_lowercase : String → String) (org_id text : String) (d : Db) (target : Member)
    → ((id : String) → count (has_id id) d.members ≤ 1)
    → (find_target to_lowercase org_id text (alone d)).0 ≡ ok target
    → find (has_id target.id) d.members ≡ some target
unfolding find_target
find_target_lem to_lowercase org_id text d target keys h =
    elim (Bool-cases (contains_char b'@' text)) [
      | inl at_sign ↦
          let h' = rw at_sign at h in find_by_email_lem to_lowercase org_id text d target keys h'
      | inr plain ↦ let h' = rw plain at h in find_by_id_lem org_id text d target h'
    ]
