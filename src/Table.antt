-- ===== src/Table.antt =====
-- A table of a relational database as the list of its rows, in the order of insertion, and the
-- statements that the repositories send: SELECT with a condition, UPDATE ... WHERE ... RETURNING.
pub mod Count
pub mod Rows
pub mod First
pub mod Serial
pub mod Upsert
pub mod Ordered
use node_conductor.Base.{ℕ, suc, Bool, Option, none, some, List, [], ◌∷◌, if◌then◌else◌}

module _ {ℓ} {A : Type ℓ} where
  -- SELECT COUNT(*) ... WHERE p
  unfoldable pub count_where : (A → Bool) → List A → ℕ
  count_where p [] = 0
  count_where p (r ∷ rs) = let rest = count_where p rs in if p r then suc rest else rest

  -- SELECT ... WHERE p, the first row
  unfoldable pub find_where : (A → Bool) → List A → Option A
  find_where p [] = none
  find_where p (r ∷ rs) = let rest = find_where p rs in if p r then some r else rest

  -- UPDATE ... SET f WHERE p
  unfoldable pub update_where : (A → Bool) → (A → A) → List A → List A
  update_where p f [] = []
  update_where p f (r ∷ rs) = (if p r then f r else r) ∷ update_where p f rs

  -- SELECT ... WHERE p ORDER BY ... LIMIT 1, where `before` is the order
  unfoldable pub select_first : (A → A → Bool) → (A → Bool) → List A → Option A
  select_first before p [] = none
  select_first before p (r ∷ rs) =
      let rest = select_first before p rs in
      if p r
      then elim rest [ none ↦ some r | some m ↦ if before m r then some m else some r ]
      else rest
