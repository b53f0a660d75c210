-- ===== src/Table/Upsert.antt =====
-- What INSERT ... ON CONFLICT DO UPDATE makes of the rows of a table.
use mathlib.Core.List.{Memᴰ}
use node_conductor.Base.{
  ℕ, ◌+◌, ◌≡◌, refl, ap, ◌∙◌, ◌⊎◌, inl, inr, Bool, true, false, none, some, List, [], ◌∷◌, ◌++◌,
  arith, if◌then◌else◌, Option-cases, Bool-cases,
}
use node_conductor.Table.{find_where, update_where}
use node_conductor.Table.Rows.{find-update, find-append, find_passes}
use node_conductor.Table.Count.{find-append_none}
use node_conductor.Table.Serial.{Serial, insert, upsert}

module _ {ℓ} {A : Type ℓ} where
  -- A row of an updated table comes from a row.
  pub update-mem :
      (q : A → Bool) (f : A → A) (y : A) (rows : List A)
      → Memᴰ y (update_where q f rows)
      → (r : A) × Memᴰ r rows × (y ≡ (if q r then f r else r))
  unfolding update_where
  update-mem q f y [] m = elim m [ ]
  update-mem q f y (x ∷ rows) (Memᴰ.head e) = (x, Memᴰ.head refl, e)
  update-mem q f y (x ∷ rows) (Memᴰ.tail m) =
      let (r, n, e) = update-mem q f y rows m in (r, Memᴰ.tail n, e)

  pub append-mem :
      (y : A) (xs : List A) (new : A) → Memᴰ y (xs ++ (new ∷ [])) → Memᴰ y xs ⊎ (y ≡ new)
  append-mem y [] new (Memᴰ.head e) = inr e
  append-mem y [] new (Memᴰ.tail m) = elim m [ ]
  append-mem y (x ∷ xs) new (Memᴰ.head e) = inl (Memᴰ.head e)
  append-mem y (x ∷ xs) new (Memᴰ.tail m) = elim (append-mem y xs new m) [
    | inl n ↦ inl (Memᴰ.tail n)
    | inr e ↦ inr e
  ]

  pub find-mem : (p : A → Bool) (rows : List A) (r : A) → find_where p rows ≡ some r → Memᴰ r rows
  unfolding find_where
  find-mem p [] r h = absurd cc
  find-mem p (x ∷ rows) r h = elim (Bool-cases (p x)) [
    | inl passed ↦ Memᴰ.head (ground arith)
    | inr failed ↦ Memᴰ.tail (find-mem p rows r (ground arith))
  ]

  -- Where nothing is found, no row passes.
  pub find-none_fails :
      (p : A → Bool) (rows : List A) (r : A) → find_where p rows ≡ none → Memᴰ r rows → p r ≡ false
  unfolding find_where
  find-none_fails p [] r h m = elim m [ ]
  find-none_fails p (x ∷ rows) r h (Memᴰ.head e) = ground (arith, ap p e)
  find-none_fails p (x ∷ rows) r h (Memᴰ.tail m) = find-none_fails p rows r (ground arith) m

  pub upsert_new :
      (same : A → Bool) (new : ℕ → A) (change : A → A) (t : Serial A)
      → find_where same t.rows ≡ none
      → (upsert same new change t).0
        ≡ record t { rows = t.rows ++ (new t.next_id ∷ []); next_id = t.next_id + 1 }
  unfolding upsert insert
  upsert_new same new change t e = rw (e, upsert) refl

  pub upsert_old :
      (same : A → Bool) (new : ℕ → A) (change : A → A) (t : Serial A) (x : A)
      → find_where same t.rows ≡ some x
      → (upsert same new change t).0
        ≡ record t { rows = update_where same change t.rows; next_id = t.next_id + 1 }
  unfolding upsert
  upsert_old same new change t x e = rw (e, upsert) refl

  -- A row stays where it is, changed if it has the key.
  pub find-upsert :
      (p same : A → Bool) (new : ℕ → A) (change : A → A) (t : Serial A) (r : A)
      → ((x : A) → p (change x) ≡ p x)
      → find_where p t.rows ≡ some r
      → find_where p (upsert same new change t).0.rows ≡ some (if same r then change r else r)
  find-upsert p same new change t r keep h = elim (Option-cases (find_where same t.rows)) [
    | inr (x, e) ↦ rw (upsert_old same new change t x e) (find-update p same change t.rows r keep h)
    | inl e ↦
        rw (upsert_new same new change t e, find-none_fails same t.rows r e (find-mem p t.rows r h))
          (find-append p t.rows (new t.next_id) r h)
  ]

  -- The rows after it come from rows, changed if they had the key, and at most one new one.
  pub upsert-mem :
      (same : A → Bool) (new : ℕ → A) (change : A → A) (t : Serial A) (y : A)
      → Memᴰ y (upsert same new change t).0.rows
      → ((r : A) × Memᴰ r t.rows × (y ≡ (if same r then change r else r)))
        ⊎ ((find_where same t.rows ≡ none) × (y ≡ new t.next_id))
  upsert-mem same new change t y m = elim (Option-cases (find_where same t.rows)) [
    | inr (x, e) ↦
        inl (update-mem same change y t.rows (rw (upsert_old same new change t x e) at m))
    | inl e ↦
        elim (append-mem y t.rows (new t.next_id) (rw (upsert_new same new change t e) at m)) [
          | inr f ↦ inr (e, f)
          | inl n ↦ inl (y, n, rw (find-none_fails same t.rows y e n) refl)
        ]
  ]

  -- The row that is returned is the one with the key in the table that it leaves.
  pub upsert-finds :
      (same : A → Bool) (new : ℕ → A) (change : A → A) (t : Serial A)
      → ((n : ℕ) → same (new n) ≡ true)
      → ((x : A) → same (change x) ≡ same x)
      → find_where same (upsert same new change t).0.rows ≡ some (upsert same new change t).1
  unfolding upsert insert
  upsert-finds same new change t fresh keep = elim (Option-cases (find_where same t.rows)) [
    | inl e ↦ rw (e, upsert) (find-append_none same t.rows (new t.next_id) e (fresh t.next_id))
    | inr (x, e) ↦ rw (e, upsert) (changed x e)
  ]
    where
      changed :
          (x : A)
          → find_where same t.rows ≡ some x
          → find_where same (update_where same change t.rows) ≡ some (change x)
      changed x e =
          find-update same same change t.rows x keep e ∙ rw (find_passes same t.rows x e) refl

module _ {ℓ κ} {A : Type ℓ} where
  -- What holds of a new row and of a changed one holds of the row that is returned.
  pub upsert-row :
      (P : A → Type κ) (same : A → Bool) (new : ℕ → A) (change : A → A) (t : Serial A)
      → ((n : ℕ) → P (new n))
      → ((x : A) → P (change x))
      → P (upsert same new change t).1
  unfolding upsert insert
  upsert-row P same new change t fresh kept = elim (Option-cases (find_where same t.rows)) [
    | inl e ↦ rw (e, upsert) (fresh t.next_id)
    | inr (x, e) ↦ rw (e, upsert) (kept x)
  ]
