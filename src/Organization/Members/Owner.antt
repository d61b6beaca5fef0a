-- ===== src/Organization/Members/Owner.antt =====
-- Members are removed and given roles without leaving an organization that has an owner without one.
use better_auth_rs.Prelude.{
  ◌≤◌, String, Bool, true, false, not, ◌&&◌, ◌||◌, some, List, [], ◌∷◌, ◌≡◌, refl, sym, ◌∙◌, subst,
  inl, inr, arith, ◌≢◌, and_left, and_right, and_intro, length, keep, ◌==◌, eq_iff, Bool-cases,
}
use better_auth_rs.Store.Table.{
  find, count, update_where, delete_where, find_holds, count-update_where, count-delete_where,
}
use better_auth_rs.Store.Table.Counting.{
  count-le-delete, count-le-update, count-delete_other, count-update_kept, count-update_untouched,
}
use better_auth_rs.Store.Db.{Member, Db}
use better_auth_rs.Organization.Statements.{
  has_id, is_in, is_member, insert_oldest, oldest_first, give_role, set_members,
}
use better_auth_rs.Organization.Members.{has_role, holds_role, owner_count}

abbrev pub is_owner : String → String → Member → Bool
is_owner creator org_id m = is_in org_id m && has_role creator m

-- Identifiers are unique, and the organization has an owner.
pub record HasOwner (creator org_id : String) (d : Db) : Type 0 where
  pub keys : (id : String) → count (has_id id) d.members ≤ 1
  pub owned : 1 ≤ count (is_owner creator org_id) d.members

length-keep-insert_oldest :
    (p : Member → Bool) (m : Member) (l : List Member)
    → length (keep p (insert_oldest m l)) ≡ length (keep p (m ∷ l))
length-keep-insert_oldest p m [] = refl
length-keep-insert_oldest p m (n ∷ l) = ground (arith, length-keep-insert_oldest p m l)

length-keep-oldest_first :
    (p : Member → Bool) (l : List Member) → length (keep p (oldest_first l)) ≡ length (keep p l)
length-keep-oldest_first p [] = refl
length-keep-oldest_first p (m ∷ l) =
    ground (arith, length-keep-insert_oldest p m (oldest_first l), length-keep-oldest_first p l)

length-keep-keep :
    (p q : Member → Bool) (l : List Member) → length (keep q (keep p l)) ≡ count (λ m. p m && q m) l
unfolding count
length-keep-keep p q [] = refl
length-keep-keep p q (m ∷ l) = ground (arith, length-keep-keep p q l)

-- What the handlers count is the number of owners in the table.
pub owner_count_lem :
    (creator org_id : String) (l : List Member)
    → owner_count creator (oldest_first (keep (is_in org_id) l)) ≡ count (is_owner creator org_id) l
owner_count_lem creator org_id l =
    length-keep-oldest_first (has_role creator) (keep (is_in org_id) l)
    ∙ length-keep-keep (is_in org_id) (has_role creator) l

module _ (creator org_id : String) (d : Db) (h : HasOwner creator org_id d) where
  -- An owner may go where there are two, and who is no owner may always go.
  pub deleted-HasOwner :
      (target : Member)
      → find (has_id target.id) d.members ≡ some target
      → (has_role creator target ≡ true → 2 ≤ count (is_owner creator org_id) d.members)
      → HasOwner creator org_id (set_members d (delete_where (has_id target.id) d.members))
  deleted-HasOwner target found two = record {
    keys =
        λ id. omega (arith, h.keys id, count-delete_where (has_id target.id) (has_id id) d.members);
    owned = elim (Bool-cases (has_role creator target)) [
      | inl e ↦ omega (
        arith,
        two e,
        h.keys target.id,
        count-le-delete (has_id target.id) (is_owner creator org_id) d.members,
      )
      | inr e ↦ omega (
        arith,
        h.owned,
        count-delete_other (has_id target.id) (is_owner creator org_id) d.members target
            (h.keys target.id) found (no_owner (is_in org_id target) e),
      )
    ];
  }
    where
      no_owner : (b : Bool) {c : Bool} → c ≡ false → (b && c) ≡ false
      no_owner true e = e
      no_owner false e = refl

  pub given_role-HasOwner :
      (id role : String)
      → 1 ≤ count (is_owner creator org_id) (update_where (has_id id) (give_role role) d.members)
      → HasOwner creator org_id
          (set_members d (update_where (has_id id) (give_role role) d.members))
  given_role-HasOwner id role owned = record {
    keys = λ other. omega (
      arith,
      h.keys other,
      count-update_where (has_id other) (has_id id) (give_role role) d.members (λ m. refl),
    );
    owned = owned;
  }

  -- What the two guards of a change of role say together.
  pub still_owned :
      (user_id id role : String) (requester target : Member)
      → find (is_member org_id user_id) d.members ≡ some requester
      → find (has_id id) d.members ≡ some target
      → ((holds_role creator role || has_role creator target) && not (has_role creator requester))
        ≡ false
      → ((has_role creator target && requester.id == target.id && not (holds_role creator role))
            ≡ true
          → 2 ≤ count (is_owner creator org_id) d.members)
      → 1 ≤ count (is_owner creator org_id) (update_where (has_id id) (give_role role) d.members)
  still_owned user_id id role requester target asked found permitted two =
      elim (Bool-cases (holds_role creator role)) [
        | inl n ↦ omega (arith, h.owned, kept (λ o. and_intro (and_left _ _ o) n))
        | inr n ↦ elim (Bool-cases (has_role creator target)) [
          | inr t ↦
              omega (arith, h.owned, kept (λ o. absurd (true_ne_false (sym (and_right _ _ o) ∙ t))))
          | inl t ↦ elim (Bool-cases (requester.id == target.id)) [
            | inl same ↦ omega (
              arith,
              two (guarded t same n),
              h.keys id,
              count-le-update (has_id id) (is_owner creator org_id) (give_role role) d.members,
            )
            | inr other ↦
                count-update_untouched (has_id id) (is_owner creator org_id)
                  (is_member org_id user_id) (give_role role) d.members requester asked
                  (and_intro
                    (and_left _ _ (find_holds (is_member org_id user_id) d.members requester asked))
                    (permits (holds_role creator role) (has_role creator target)
                      (has_role creator requester) t permitted))
                  (subst (λ i. (requester.id == i) ≡ false)
                    ((eq_iff target.id id).0 (find_holds (has_id id) d.members target found)) other)
          ]
        ]
      ]
    where
      true_ne_false : true ≢ false
      true_ne_false h = cc

      guarded : {a b c : Bool} → a ≡ true → b ≡ true → c ≡ false → (a && b && not c) ≡ true
      guarded h k l = rw (h, k, l) refl

      permits : (a b c : Bool) → b ≡ true → ((a || b) && not c) ≡ false → c ≡ true
      permits a b c h k = ground arith

      kept :
          (is_owner creator org_id target ≡ true
            → is_owner creator org_id (give_role role target) ≡ true)
          → count (is_owner creator org_id) d.members
            ≤ count (is_owner creator org_id) (update_where (has_id id) (give_role role) d.members)
      kept k =
          count-update_kept (has_id id) (is_owner creator org_id) (give_role role) d.members target
            (h.keys id) found k
