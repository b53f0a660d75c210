-- ===== src/Table/Rows.antt =====
-- Which row a lookup finds, after each statement.
use node_conductor.Base.{
  ◌≡◌, refl, Bool, true, false, none, some, List, [], ◌∷◌, ◌++◌, arith, All, if◌then◌else◌,
  Option-cases, inl, inr,
}
use node_conductor.Table.{find_where, update_where, select_first}

module _ {ℓ} {A : Type ℓ} where
  -- The row that is found passes the test.
  pub find_passes : (p : A → Bool) (rows : List A) (r : A) → find_where p rows ≡ some r → p r ≡ true
  unfolding find_where
  find_passes p [] r h = cc
  find_passes p (x ∷ rows) r h = ground (arith, find_passes p rows r)

  pub select_first_passes :
      (before : A → A → Bool) (p : A → Bool) (rows : List A) (r : A)
      → select_first before p rows ≡ some r
      → p r ≡ true
  unfolding select_first
  select_first_passes before p [] r h = cc
  select_first_passes before p (x ∷ rows) r h = elim (Option-cases (select_first before p rows)) [
    | inl none_left ↦ ground arith
    | inr (m, e) ↦
        ground (arith, select_first_passes before p rows m e, select_first_passes before p rows r)
  ]

  -- An update that keeps the tested columns finds the same row, changed if it was to be changed.
  pub find-update :
      (p q : A → Bool) (f : A → A) (rows : List A) (r : A)
      → ((x : A) → p (f x) ≡ p x)
      → find_where p rows ≡ some r
      → find_where p (update_where q f rows) ≡ some (if q r then f r else r)
  unfolding find_where update_where
  find-update p q f [] r keep h = cc
  find-update p q f (x ∷ rows) r keep h = ground (arith, keep x, find-update p q f rows r keep)

  pub find-append :
      (p : A → Bool) (rows : List A) (new r : A)
      → find_where p rows ≡ some r
      → find_where p (rows ++ (new ∷ [])) ≡ some r
  unfolding find_where
  find-append p [] new r h = cc
  find-append p (x ∷ rows) new r h = ground (arith, find-append p rows new r)

module _ {ℓ κ} {A : Type ℓ} where
  pub All-update :
      (P : A → Type κ) (q : A → Bool) (f : A → A) (rows : List A)
      → ((r : A) → q r ≡ true → P r → P (f r))
      → All P rows
      → All P (update_where q f rows)
  unfolding update_where
  All-update P q f [] h a = a
  All-update P q f (x ∷ rows) h a = (one (q x) (h x) a.0, All-update P q f rows h a.1)
    where
      one : (b : Bool) → (b ≡ true → P x → P (f x)) → P x → P (if b then f x else x)
      one true g px = g refl px
      one false g px = px

module _ {ℓ} {A : Type ℓ} where
  pub update_where_nothing :
      (q : A → Bool) (f : A → A) (rows : List A)
      → find_where q rows ≡ none
      → update_where q f rows ≡ rows
  unfolding find_where update_where
  update_where_nothing q f [] h = refl
  update_where_nothing q f (x ∷ rows) h = ground (arith, update_where_nothing q f rows)

  pub find-update_none :
      (p q : A → Bool) (f : A → A) (rows : List A)
      → ((x : A) → p (f x) ≡ p x)
      → find_where p rows ≡ none
      → find_where p (update_where q f rows) ≡ none
  unfolding find_where update_where
  find-update_none p q f [] keep h = refl
  find-update_none p q f (x ∷ rows) keep h =
      ground (arith, keep x, find-update_none p q f rows keep)

  pub find-append_miss :
      (p : A → Bool) (rows : List A) (new : A)
      → p new ≡ false
      → find_where p (rows ++ (new ∷ [])) ≡ find_where p rows
  unfolding find_where
  find-append_miss p [] new e = ground arith
  find-append_miss p (x ∷ rows) new e = ground (arith, find-append_miss p rows new e)
