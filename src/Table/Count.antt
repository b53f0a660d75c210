-- ===== src/Table/Count.antt =====
-- How many rows of a table pass a test, after each statement.
use node_conductor.Base.{
  ◌+◌, ◌≤◌, ◌≡◌, refl, Bool, true, false, none, some, List, [], ◌∷◌, ◌++◌, arith, if◌then◌else◌,
  ◌&&◌, not,
}
use node_conductor.Table.{count_where, find_where, update_where, select_first}

module _ {ℓ} {A : Type ℓ} where
  -- A row appended to the table.
  pub count-append :
      (p : A → Bool) (rows : List A) (r : A)
      → count_where p (rows ++ (r ∷ [])) ≡ count_where p rows + (if p r then 1 else 0)
  unfolding count_where
  count-append p [] r = ground arith
  count-append p (x ∷ rows) r = ground (arith, count-append p rows r)

  -- An update after which a changed row passes only if it passed before.
  pub count-update_le :
      (p q : A → Bool) (f : A → A) (rows : List A)
      → ((r : A) → q r ≡ true → p (f r) ≡ true → p r ≡ true)
      → count_where p (update_where q f rows) ≤ count_where p rows
  unfolding count_where update_where
  count-update_le p q f [] h = omega arith
  count-update_le p q f (x ∷ rows) h = ground (arith, h x, count-update_le p q f rows h)

  -- An update adds at most as many as there are rows that it changes.
  pub count-update_add :
      (p q : A → Bool) (f : A → A) (rows : List A)
      → count_where p (update_where q f rows) ≤ count_where p rows + count_where q rows
  unfolding count_where update_where
  count-update_add p q f [] = omega arith
  count-update_add p q f (x ∷ rows) = ground (arith, count-update_add p q f rows)

  -- An update that leaves the test of every row alone.
  pub count-update_eq :
      (p q : A → Bool) (f : A → A) (rows : List A)
      → ((r : A) → p (f r) ≡ p r)
      → count_where p (update_where q f rows) ≡ count_where p rows
  unfolding count_where update_where
  count-update_eq p q f [] h = refl
  count-update_eq p q f (x ∷ rows) h = ground (arith, h x, count-update_eq p q f rows h)

  -- A stronger test passes fewer rows.
  pub count_mono :
      (p q : A → Bool) (rows : List A)
      → ((r : A) → p r ≡ true → q r ≡ true)
      → count_where p rows ≤ count_where q rows
  unfolding count_where
  count_mono p q [] h = omega arith
  count_mono p q (x ∷ rows) h = ground (arith, h x, count_mono p q rows h)

  pub count-zero_of_find :
      (p : A → Bool) (rows : List A) → find_where p rows ≡ none → count_where p rows ≡ 0
  unfolding count_where find_where
  count-zero_of_find p [] h = refl
  count-zero_of_find p (x ∷ rows) h = ground (arith, count-zero_of_find p rows)

  pub count-zero_of_select_first :
      (before : A → A → Bool) (p : A → Bool) (rows : List A)
      → select_first before p rows ≡ none
      → count_where p rows ≡ 0
  unfolding count_where select_first
  count-zero_of_select_first before p [] h = refl
  count-zero_of_select_first before p (x ∷ rows) h =
      ground (arith, count-zero_of_select_first before p rows)

  pub find-none_of_count :
      (p : A → Bool) (rows : List A) → count_where p rows ≡ 0 → find_where p rows ≡ none
  unfolding count_where find_where
  find-none_of_count p [] h = refl
  find-none_of_count p (x ∷ rows) h = ground (arith, find-none_of_count p rows)

  -- An update adds at most as many as there are changed rows that pass afterwards.
  pub count-update_changed :
      (p q : A → Bool) (f : A → A) (rows : List A)
      → count_where p (update_where q f rows)
        ≤ count_where p rows + count_where (λ r. q r && p (f r)) rows
  unfolding count_where update_where
  count-update_changed p q f [] = omega arith
  count-update_changed p q f (x ∷ rows) = ground (arith, count-update_changed p q f rows)

  pub count-split :
      (p q : A → Bool) (rows : List A)
      → count_where p rows
        ≡ count_where (λ r. p r && q r) rows + count_where (λ r. p r && not (q r)) rows
  unfolding count_where
  count-split p q [] = omega arith
  count-split p q (x ∷ rows) = ground (arith, count-split p q rows)

  pub find-counts :
      (p q : A → Bool) (rows : List A) (r : A)
      → find_where p rows ≡ some r
      → q r ≡ true
      → 1 ≤ count_where (λ x. p x && q x) rows
  unfolding count_where find_where
  find-counts p q [] r h e = absurd cc
  find-counts p q (x ∷ rows) r h e = ground (arith, find-counts p q rows r)

  -- Where one row passes and fails a second test, no row passes both.
  pub find-excludes :
      (p q : A → Bool) (rows : List A) (r : A)
      → count_where p rows ≤ 1
      → find_where p rows ≡ some r
      → q r ≡ false
      → find_where (λ x. p x && q x) rows ≡ none
  find-excludes p q rows r one h e =
      find-none_of_count (λ x. p x && q x) rows
        (omega (arith, one, count-split p q rows, find-counts p (λ x. not (q x)) rows r h (rw e)))

  pub find-includes :
      (p q : A → Bool) (rows : List A) (r : A)
      → find_where p rows ≡ some r
      → q r ≡ true
      → find_where (λ x. p x && q x) rows ≡ some r
  unfolding find_where
  find-includes p q [] r h e = absurd cc
  find-includes p q (x ∷ rows) r h e = ground (arith, find-includes p q rows r)

  pub find-append_none :
      (p : A → Bool) (rows : List A) (new : A)
      → find_where p rows ≡ none
      → p new ≡ true
      → find_where p (rows ++ (new ∷ [])) ≡ some new
  unfolding find_where
  find-append_none p [] new h e = ground arith
  find-append_none p (x ∷ rows) new h e = ground (arith, find-append_none p rows new)

  -- After an update that takes every row that passes out of the test, none is left.
  pub count-update_zero :
      (p q : A → Bool) (f : A → A) (rows : List A)
      → ((r : A) → q r ≡ true → p (f r) ≡ false)
      → ((r : A) → q r ≡ false → p r ≡ false)
      → count_where p (update_where q f rows) ≡ 0
  unfolding count_where update_where
  count-update_zero p q f [] out in_q = refl
  count-update_zero p q f (x ∷ rows) out in_q =
      ground (arith, out x, in_q x, count-update_zero p q f rows out in_q)

  -- An update that leaves the test of every row that it changes alone.
  pub count-update_same :
      (p q : A → Bool) (f : A → A) (rows : List A)
      → ((r : A) → q r ≡ true → p (f r) ≡ p r)
      → count_where p (update_where q f rows) ≡ count_where p rows
  unfolding count_where update_where
  count-update_same p q f [] h = refl
  count-update_same p q f (x ∷ rows) h = ground (arith, h x, count-update_same p q f rows h)

pub count-concat {ℓ} :
    {A : Type ℓ} (p : A → Bool) (xs ys : List A)
    → count_where p (xs ++ ys) ≡ count_where p xs + count_where p ys
unfolding count_where
count-concat p [] ys = omega arith
count-concat p (x ∷ xs) ys = ground (arith, count-concat p xs ys)
