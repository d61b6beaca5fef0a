-- ===== src/Store/Table/Counting.antt =====
-- How the number of rows of one kind changes when the row of a key is deleted or updated.
use Prim.Native.Nat.{◌+◌}
use better_auth_rs.Prelude.{
  ◌≡◌, refl, Bool, true, false, some, List, [], ◌∷◌, arith, Bool-cases, inl, inr, ◌≤◌, length, keep,
  some_of, ap, ◌∙◌, sym, subst,
}
use better_auth_rs.Store.Table.{find, update_where, delete_where, count}

module _ {A : Type 0} where
  pub length-keep : (p : A → Bool) (xs : List A) → length (keep p xs) ≡ count p xs
  unfolding count
  length-keep p [] = refl
  length-keep p (x ∷ xs) = ground (arith, length-keep p xs)

  -- A deletion by key takes at most as many rows of a kind as it takes rows.
  pub count-le-delete :
      (p q : A → Bool) (xs : List A) → count q xs ≤ count q (delete_where p xs) + count p xs
  unfolding count delete_where
  count-le-delete p q [] = omega arith
  count-le-delete p q (x ∷ xs) = ground (arith, count-le-delete p q xs)

  pub count-le-update :
      (p q : A → Bool) (f : A → A) (xs : List A)
      → count q xs ≤ count q (update_where p f xs) + count p xs
  unfolding count update_where
  count-le-update p q f [] = omega arith
  count-le-update p q f (x ∷ xs) = ground (arith, count-le-update p q f xs)

  -- Deleting the row of a unique key keeps the rows of a kind that this row is not of.
  pub count-delete_other :
      (p q : A → Bool) (xs : List A) (t : A)
      → count p xs ≤ 1
      → find p xs ≡ some t
      → q t ≡ false
      → count q xs ≤ count q (delete_where p xs)
  unfolding count find delete_where
  count-delete_other p q [] t u h k = omega arith
  count-delete_other p q (x ∷ xs) t u h k = elim (Bool-cases (p x)) [
    | inl e ↦
        let same = some_of (rw e at h) in
        let few = rw e at u in
        let none_of = ap q same ∙ k in rw (e, none_of) (omega (arith, few, count-le-delete p q xs))
    | inr e ↦
        let h' = rw e at h in
        let few = rw e at u in
        let rest = count-delete_other p q xs t (omega (arith, few)) h' k in
        rw e (omega (arith, rest))
  ]

  pub count-update_kept :
      (p q : A → Bool) (f : A → A) (xs : List A) (t : A)
      → count p xs ≤ 1
      → find p xs ≡ some t
      → (q t ≡ true → q (f t) ≡ true)
      → count q xs ≤ count q (update_where p f xs)
  unfolding count find update_where
  count-update_kept p q f [] t u h k = omega arith
  count-update_kept p q f (x ∷ xs) t u h k = elim (Bool-cases (p x)) [
    | inl e ↦
        let same = some_of (rw e at h) in
        let few = rw e at u in
        let kept = subst (λ a. q a ≡ true → q (f a) ≡ true) (sym same) k in
        rw e (ground (arith, few, count-le-update p q f xs, kept))
    | inr e ↦
        let h' = rw e at h in
        let few = rw e at u in
        let rest = count-update_kept p q f xs t (omega (arith, few)) h' k in
        rw e (omega (arith, rest))
  ]

  -- A row of the kind that the update does not touch is still there.
  pub count-update_untouched :
      (p q s : A → Bool) (f : A → A) (xs : List A) (r : A)
      → find s xs ≡ some r
      → q r ≡ true
      → p r ≡ false
      → 1 ≤ count q (update_where p f xs)
  unfolding count find update_where
  count-update_untouched p q s f [] r h k e = cc
  count-update_untouched p q s f (x ∷ xs) r h k e = elim (Bool-cases (s x)) [
    | inl c ↦
        let same = some_of (rw c at h) in
        let of_kind = ap q same ∙ k in
        let outside = ap p same ∙ e in rw (outside, of_kind) (omega arith)
    | inr c ↦
        let h' = rw c at h in
        let rest = count-update_untouched p q s f xs r h' k e in omega (arith, rest)
  ]

  -- The first row of a kind stays when another is updated, or when rows that it is not among are deleted.
  pub find_kept_by_delete :
      (p q : A → Bool) (xs : List A) (a : A)
      → find q xs ≡ some a
      → p a ≡ false
      → find q (delete_where p xs) ≡ some a
  unfolding find delete_where
  find_kept_by_delete p q [] a h e = h
  find_kept_by_delete p q (x ∷ xs) a h e = elim (Bool-cases (q x)) [
    | inl here ↦
        let same = some_of (rw here at h) in
        rw (subst (λ y. p y ≡ false) (sym same) e, here) (ap some same)
    | inr later ↦ elim (Bool-cases (p x)) [
      | inl gone ↦ rw gone (find_kept_by_delete p q xs a (rw later at h) e)
      | inr left ↦ rw (left, later) (find_kept_by_delete p q xs a (rw later at h) e)
    ]
  ]

  pub find_kept_by_update :
      (p q : A → Bool) (f : A → A) (xs : List A) (a : A)
      → ((x : A) → p x ≡ true → (q x ≡ false) × (q (f x) ≡ false))
      → find q xs ≡ some a
      → find q (update_where p f xs) ≡ some a
  unfolding find update_where
  find_kept_by_update p q f [] a apart h = h
  find_kept_by_update p q f (x ∷ xs) a apart h =
      ground (arith, apart x, find_kept_by_update p q f xs a apart)
