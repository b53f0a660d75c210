-- ===== src/Table/Ordered.antt =====
-- SELECT ... ORDER BY, of all rows or of a page of them.
use node_conductor.Base.{
  ℕ, zero, suc, ◌+◌, ◌*◌, ◌≤◌, ◌≡◌, refl, sym, ◌∙◌, ap, inl, inr, Bool, false, List, [], ◌∷◌, ◌++◌,
  arith, All, All-map, length, take, drop, if◌then◌else◌, Bool-cases, take-append-drop, ◌&&◌,
}
use node_conductor.Table.{count_where}
use node_conductor.Table.First.{IsRank}

module _ {ℓ} {A : Type ℓ} where
  unfoldable pub insert_ordered : (A → A → Bool) → A → List A → List A
  insert_ordered before r [] = r ∷ []
  insert_ordered before r (x ∷ xs) =
      let rest = insert_ordered before r xs in if before r x then r ∷ x ∷ xs else x ∷ rest

  -- ORDER BY, where `before` is the order
  unfoldable pub order_by : (A → A → Bool) → List A → List A
  order_by before [] = []
  order_by before (r ∷ rs) = insert_ordered before r (order_by before rs)

  -- WHERE
  unfoldable pub rows_where : (A → Bool) → List A → List A
  rows_where p [] = []
  rows_where p (r ∷ rs) = let rest = rows_where p rs in if p r then r ∷ rest else rest

  -- ORDER BY ... LIMIT ... OFFSET ...
  unfoldable pub select_page : (A → A → Bool) → ℕ → ℕ → List A → List A
  select_page before limit offset rows = take limit (drop offset (order_by before rows))

  count-insert :
      (before : A → A → Bool) (p : A → Bool) (r : A) (rows : List A)
      → count_where p (insert_ordered before r rows) ≡ count_where p (r ∷ rows)
  unfolding insert_ordered count_where
  count-insert before p r [] = refl
  count-insert before p r (x ∷ xs) = ground (arith, count-insert before p r xs)

  -- Ordering keeps the rows, each as often as it is there.
  pub count-order_by :
      (before : A → A → Bool) (p : A → Bool) (rows : List A)
      → count_where p (order_by before rows) ≡ count_where p rows
  unfolding order_by count_where
  count-order_by before p [] = refl
  count-order_by before p (r ∷ rs) =
      count-insert before p r (order_by before rs) ∙ ground (arith, count-order_by before p rs)

  -- No later row comes before an earlier one.
  abbrev pub IsOrdered : (A → A → Bool) → List A → Type ℓ
  IsOrdered before [] = Unit
  IsOrdered before (x ∷ xs) = All (λ y. before y x ≡ false) xs × IsOrdered before xs

  insert-All :
      (before : A → A → Bool) (P : A → Type 0) (r : A) (rows : List A)
      → P r
      → All P rows
      → All P (insert_ordered before r rows)
  unfolding insert_ordered
  insert-All before P r [] p a = (p, tt)
  insert-All before P r (x ∷ xs) p a = elim (Bool-cases (before r x)) [
    | inl e ↦ rw e (p, a)
    | inr e ↦ rw e (a.0, insert-All before P r xs p a.1)
  ]

  insert-IsOrdered :
      (before : A → A → Bool) (r : A) (rows : List A)
      → IsRank before
      → IsOrdered before rows
      → IsOrdered before (insert_ordered before r rows)
  unfolding insert_ordered
  insert-IsOrdered before r [] k o = (tt, tt)
  insert-IsOrdered before r (x ∷ xs) k o = elim (Bool-cases (before r x)) [
    | inl e ↦ rw e (
      (
        k.asymmetric r x e,
        All-map (λ y. before y x ≡ false) (λ y. before y r ≡ false) xs
            (λ y h. k.negative y x r h (k.asymmetric r x e)) o.0,
      ),
      o,
    )
    | inr e ↦
        rw e (
          insert-All before (λ y. before y x ≡ false) r xs e o.0,
          insert-IsOrdered before r xs k o.1,
        )
  ]

  pub order_by-IsOrdered :
      (before : A → A → Bool) (rows : List A)
      → IsRank before
      → IsOrdered before (order_by before rows)
  unfolding order_by
  order_by-IsOrdered before [] k = tt
  order_by-IsOrdered before (r ∷ rs) k =
      insert-IsOrdered before r (order_by before rs) k (order_by-IsOrdered before rs k)

  -- The first pages of one size, put together.
  unfoldable pub pages_from : (A → A → Bool) → ℕ → ℕ → ℕ → List A → List A
  pages_from before limit zero offset rows = []
  pages_from before limit (suc n) offset rows =
      select_page before limit offset rows ++ pages_from before limit n (offset + limit) rows

  length-insert :
      (before : A → A → Bool) (r : A) (rows : List A)
      → length (insert_ordered before r rows) ≡ suc (length rows)
  unfolding insert_ordered
  length-insert before r [] = refl
  length-insert before r (x ∷ xs) = ground (arith, length-insert before r xs)

  pub length-order_by :
      (before : A → A → Bool) (rows : List A) → length (order_by before rows) ≡ length rows
  unfolding order_by
  length-order_by before [] = refl
  length-order_by before (r ∷ rs) =
      length-insert before r (order_by before rs) ∙ ap suc (length-order_by before rs)

  drop-nothing : (n : ℕ) (xs : List A) → length xs ≤ n → drop n xs ≡ []
  drop-nothing zero [] h = refl
  drop-nothing zero (x ∷ xs) h = absurd (omega arith)
  drop-nothing (suc n) [] h = refl
  drop-nothing (suc n) (x ∷ xs) h = drop-nothing n xs (omega arith)

  drop-nil : (n : ℕ) → drop {A = A} n [] ≡ []
  drop-nil zero = refl
  drop-nil (suc n) = refl

  drop-drop : (m n : ℕ) (xs : List A) → drop (m + n) xs ≡ drop n (drop m xs)
  drop-drop zero n xs = ap (λ k. drop k xs) (omega arith)
  drop-drop (suc m) n [] = drop-nil (suc m + n) ∙ sym (drop-nil n)
  drop-drop (suc m) n (x ∷ xs) =
      let step : suc m + n ≡ suc (m + n) = omega arith in
      ap (λ k. drop k (x ∷ xs)) step ∙ drop-drop m n xs

  -- Enough pages hold all rows from the offset on, in order.
  pub pages-cover :
      (before : A → A → Bool) (limit n offset : ℕ) (rows : List A)
      → length rows ≤ offset + n * limit
      → pages_from before limit n offset rows ≡ drop offset (order_by before rows)
  unfolding pages_from select_page
  pages-cover before limit zero offset rows h =
      sym (drop-nothing offset (order_by before rows) (omega (arith, length-order_by before rows)))
  pages-cover before limit (suc n) offset rows h =
      ap (λ ys. take limit (drop offset (order_by before rows)) ++ ys)
        (pages-cover before limit n (offset + limit) rows (omega arith)
          ∙ drop-drop offset limit (order_by before rows))
      ∙ take-append-drop limit (drop offset (order_by before rows))

  pub count-rows_where :
      (p q : A → Bool) (rows : List A)
      → count_where q (rows_where p rows) ≡ count_where (λ r. p r && q r) rows
  unfolding rows_where count_where
  count-rows_where p q [] = refl
  count-rows_where p q (r ∷ rs) = ground (arith, count-rows_where p q rs)
