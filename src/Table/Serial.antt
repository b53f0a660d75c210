-- ===== src/Table/Serial.antt =====
-- A table whose `id` comes from a sequence, and INSERT ... ON CONFLICT DO UPDATE on it.
use node_conductor.Base.{ℕ, ◌+◌, Bool, none, some, List, [], ◌∷◌, ◌++◌}
use node_conductor.Table.{find_where, update_where}

pub record Serial {ℓ} (A : Type ℓ) : Type ℓ where
  pub rows : List A
  pub next_id : ℕ

module _ {ℓ} {A : Type ℓ} where
  -- INSERT ... RETURNING; `new` makes the row of the id that the sequence gives.
  unfoldable pub insert : (ℕ → A) → Serial A → Serial A × A
  insert new t =
      (record t { rows = t.rows ++ (new t.next_id ∷ []); next_id = t.next_id + 1 }, new t.next_id)

  -- INSERT ... ON CONFLICT DO UPDATE SET change ... RETURNING, where `same` says which row has the
  -- key of the new one. The sequence is asked before the conflict is met, so it moves on either way.
  unfoldable pub upsert : (A → Bool) → (ℕ → A) → (A → A) → Serial A → Serial A × A
  upsert same new change t = elim (find_where same t.rows) [
    | none ↦ insert new t
    | some r ↦
        (record t { rows = update_where same change t.rows; next_id = t.next_id + 1 }, change r)
  ]
