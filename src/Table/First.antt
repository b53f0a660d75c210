-- ===== src/Table/First.antt =====
-- ORDER BY ... LIMIT 1: which row it finds.
use mathlib.Core.List.{Memᴰ}
use node_conductor.Base.{
  ◌≤◌, ◌≡◌, ap, inl, inr, Bool, true, false, none, some, List, [], ◌∷◌, arith, All, All-map,
  Option-cases, Bool-cases, ◌++◌,
}
use node_conductor.Table.{count_where, find_where, select_first}

module _ {ℓ} {A : Type ℓ} where
  pub select_first-mem :
      (before : A → A → Bool) (p : A → Bool) (rows : List A) (r : A)
      → select_first before p rows ≡ some r
      → Memᴰ r rows
  unfolding select_first
  select_first-mem before p [] r h = absurd cc
  select_first-mem before p (x ∷ rows) r h = elim (Bool-cases (p x)) [
    | inr skipped ↦ Memᴰ.tail (select_first-mem before p rows r (rw (skipped) at h))
    | inl passed ↦ elim (Option-cases (select_first before p rows)) [
      | inl nobody ↦ Memᴰ.head (ground arith)
      | inr (m, e) ↦ elim (Bool-cases (before m x)) [
        | inl earlier ↦ Memᴰ.tail (select_first-mem before p rows r (ground arith))
        | inr later ↦ Memᴰ.head (ground arith)
      ]
    ]
  ]

  nothing_after :
      (before : A → A → Bool) (p : A → Bool) (rows : List A) (m : A)
      → select_first before p rows ≡ none
      → All (λ r. p r ≡ true → before r m ≡ false) rows
  unfolding select_first
  nothing_after before p [] m h = tt
  nothing_after before p (x ∷ rows) m h = elim (Bool-cases (p x)) [
    | inl passed ↦ absurd (ground arith)
    | inr skipped ↦ (λ e. cc, nothing_after before p rows m (ground arith))
  ]

  pub mem-counts :
      (p : A → Bool) (r : A) {rows : List A} → Memᴰ r rows → p r ≡ true → 1 ≤ count_where p rows
  unfolding count_where
  mem-counts p r (Memᴰ.head e) h = ground (arith, ap p e)
  mem-counts p r (Memᴰ.tail m) h = ground (arith, mem-counts p r m h)

  -- In a table where one row passes, that row is the one that is found.
  pub find_unique :
      (p : A → Bool) (r : A) {rows : List A}
      → Memᴰ r rows
      → p r ≡ true
      → count_where p rows ≤ 1
      → find_where p rows ≡ some r
  unfolding count_where find_where
  find_unique p r (Memᴰ.head e) h one = ground (arith, ap p e)
  find_unique p r (Memᴰ.tail m) h one = ground (arith, find_unique p r m h, mem-counts p r m h)

  -- The order ranks the rows: nothing precedes itself or what it follows, and what does not come
  -- before a row does not come before a later one.
  pub record IsRank (before : A → A → Bool) : Type ℓ where
    pub asymmetric : (a b : A) → before a b ≡ true → before b a ≡ false
    pub irreflexive : (a : A) → before a a ≡ false
    pub negative : (a b c : A) → before a b ≡ false → before b c ≡ false → before a c ≡ false

  -- No passing row precedes the row that is found.
  pub select_first-least :
      (before : A → A → Bool) (p : A → Bool) (rows : List A) (m : A)
      → IsRank before
      → select_first before p rows ≡ some m
      → All (λ r. p r ≡ true → before r m ≡ false) rows
  unfolding select_first
  select_first-least before p [] m k h = tt
  select_first-least before p (x ∷ rows) m k h = elim (Bool-cases (p x)) [
    | inr skipped ↦ (λ e. cc, select_first-least before p rows m k (ground arith))
    | inl passed ↦ elim (Option-cases (select_first before p rows)) [
      | inl nobody ↦ (λ _. ground (arith, k.irreflexive m), nothing_after before p rows m nobody)
      | inr (n, e) ↦ elim (Bool-cases (before n x)) [
        | inl earlier ↦ (
          λ _. ground (arith, k.asymmetric n x),
          select_first-least before p rows m k (ground arith),
        )
        | inr later ↦ (
          λ _. ground (arith, k.irreflexive m),
          All-map (λ r. p r ≡ true → before r n ≡ false) (λ r. p r ≡ true → before r m ≡ false) rows
              (λ r h' pr. k.negative r n m (h' pr) (ground arith))
              (select_first-least before p rows n k e),
        )
      ]
    ]
  ]

  -- A passing row appended to a table where none passes is the one that is found.
  pub select_first-append :
      (before : A → A → Bool) (p : A → Bool) (rows : List A) (new : A)
      → select_first before p rows ≡ none
      → p new ≡ true
      → select_first before p (rows ++ (new ∷ [])) ≡ some new
  unfolding select_first
  select_first-append before p [] new h e = ground arith
  select_first-append before p (x ∷ rows) new h e = elim (Bool-cases (p x)) [
    | inl passed ↦ elim (Option-cases (select_first before p rows)) [
      | inl nobody ↦ absurd (ground arith)
      | inr (m, f) ↦ elim (Bool-cases (before m x)) [
        | inl earlier ↦ absurd (ground arith)
        | inr later ↦ absurd (ground arith)
      ]
    ]
    | inr skipped ↦ rw (skipped) (select_first-append before p rows new (ground arith) e)
  ]
