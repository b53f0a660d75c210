-- ===== src/Backend/Catalogue/Names.antt =====
-- The unique ids and names of the services (services/register.py, services/update.py), whatever
-- the order of the transactions.
use node_conductor.Base.{
  ℕ, ◌+◌, ◌≤◌, ◌≡◌, refl, subst, inl, inr, Text, false, Option, none, some, List, ◌&&◌, not, ◌==◌,
  arith, is_some, Bool-cases, Option-cases, ==_iff, [], ◌∷◌, ◌++◌,
}
use node_conductor.Table.{count_where, find_where, update_where}
use node_conductor.Table.Count.{
  count-append, count-update_eq, count-update_le, count-update_same, count-split, count_mono,
  count-zero_of_find,
}
use node_conductor.Table.Serial.{insert}
use node_conductor.Backend.Schema.{Service}
use node_conductor.Backend.Catalogue.{
  Catalogue, NewService, Field, unset, null, set, UpdateService, has_service_id, has_name,
  fetch_row_by_id, fetch_row_by_name, new_service, add_service, assign, assigned, other_has_name,
  updated_row, update_service_row,
}

pub record IsNamed (c : Catalogue) : Type 0 where
  pub ids_unique : (i : ℕ) → count_where (has_service_id i) c.services.rows ≤ 1
  pub ids_below :
      (n : ℕ) → count_where (has_service_id (c.services.next_id + n)) c.services.rows ≡ 0
  pub names_unique : (n : Text) → count_where (has_name n) c.services.rows ≤ 1

later-IsNamed :
    (c : Catalogue)
    → IsNamed c
    → IsNamed (record c { services = record c.services { next_id = c.services.next_id + 1 } })
later-IsNamed c v = record {
  ids_unique = v.ids_unique;
  ids_below = λ m.
      subst (λ i. count_where (has_service_id i) c.services.rows ≡ 0) (omega arith)
        (v.ids_below (m + 1));
  names_unique = v.names_unique;
}

inserted-IsNamed :
    (s : NewService) (c : Catalogue)
    → find_where (has_name s.name) c.services.rows ≡ none
    → IsNamed c
    → IsNamed (record c { services = (insert (new_service s) c.services).0 })
unfolding insert
inserted-IsNamed s c free v = record {
  ids_unique = ids;
  ids_below = λ m. ground (
    arith,
    count-append (has_service_id (c.services.next_id + 1 + m)) c.services.rows
        (new_service s c.services.next_id),
    (later-IsNamed c v).ids_below m,
  );
  names_unique = names;
}
  where
    ids :
        (i : ℕ)
        → count_where
            (has_service_id i)
            (c.services.rows ++ (new_service s c.services.next_id ∷ []))
          ≤ 1
    ids i = elim (Bool-cases (c.services.next_id == i)) [
      | inl same ↦
          let at_next : c.services.next_id + 0 ≡ i =
            omega (arith, (==_iff c.services.next_id i).0 same) in
          let zero_before =
            subst (λ j. count_where (has_service_id j) c.services.rows ≡ 0) at_next
              (v.ids_below 0) in
          ground (
            arith,
            count-append (has_service_id i) c.services.rows (new_service s c.services.next_id),
          )
      | inr other ↦ ground (
        arith,
        count-append (has_service_id i) c.services.rows (new_service s c.services.next_id),
        v.ids_unique i,
      )
    ]

    names :
        (n : Text)
        → count_where (has_name n) (c.services.rows ++ (new_service s c.services.next_id ∷ [])) ≤ 1
    names n = elim (Bool-cases (s.name == n)) [
      | inl same ↦
          let zero_before =
            subst (λ m. count_where (has_name m) c.services.rows ≡ 0) ((==_iff s.name n).0 same)
              (count-zero_of_find (has_name s.name) c.services.rows free) in
          ground
            (arith, count-append (has_name n) c.services.rows (new_service s c.services.next_id))
      | inr other ↦ ground (
        arith,
        count-append (has_name n) c.services.rows (new_service s c.services.next_id),
        v.names_unique n,
      )
    ]

pub add_service-IsNamed : (s : NewService) (c : Catalogue) → IsNamed c → IsNamed (add_service s c).0
unfolding add_service fetch_row_by_name
add_service-IsNamed s c v = elim (Option-cases (find_where (has_name s.name) c.services.rows)) [
  | inl free ↦ rw (free, add_service) (inserted-IsNamed s c free v)
  | inr (r, taken) ↦ rw (taken, add_service) (later-IsNamed c v)
]

module _ (i : ℕ) (u : UpdateService) (c : Catalogue) (v : IsNamed c) where
  abbrev rows : List Service
  rows = c.services.rows

  abbrev new_rows : List Service
  new_rows = update_where (has_service_id i) (assigned u) rows

  -- The rows with a name after the update of one row.
  assigned_names :
      (f : Field Text) (n : Text)
      → other_has_name i f c ≡ false
      → ((r : Service) → (assigned u r).name ≡ assign f r.name)
      → count_where (has_name n) new_rows ≤ 1
  assigned_names unset n free same = omega (
    arith,
    v.names_unique n,
    count-update_eq (has_name n) (has_service_id i) (assigned u) rows (λ r. rw (same r) refl),
  )
  assigned_names null n free same = omega (
    arith,
    v.names_unique n,
    count-update_eq (has_name n) (has_service_id i) (assigned u) rows (λ r. rw (same r) refl),
  )
  assigned_names (set m) n free same = elim (Bool-cases (m == n)) [
    | inr other ↦ omega (
      arith,
      v.names_unique n,
      count-update_le (has_name n) (has_service_id i) (assigned u) rows
          (λ r _ h. absurd (ground (arith, same r))),
    )
    | inl own ↦
        let nobody : count_where (λ (r : Service). has_name n r && not (has_service_id i r)) rows
            ≡ 0 =
          subst
            (λ k. count_where (λ (r : Service). has_name k r && not (has_service_id i r)) rows ≡ 0)
            ((==_iff m n).0 own)
            (count-zero_of_find (λ (r : Service). has_name m r && not (has_service_id i r)) rows
              (not_found free)) in
        omega (
          arith,
          nobody,
          v.ids_unique i,
          count-split (has_name n) (has_service_id i) new_rows,
          count_mono (λ (r : Service). has_name n r && has_service_id i r) (has_service_id i)
              new_rows (λ r h. ground arith),
          count-update_eq (has_service_id i) (has_service_id i) (assigned u) rows (λ r. refl),
          count-update_same (λ (r : Service). has_name n r && not (has_service_id i r))
              (has_service_id i) (assigned u) rows (λ r h. ground arith),
        )
  ]
    where
      not_found : {o : Option Service} → is_some o ≡ false → o ≡ none
      not_found {o = none} h = refl
      not_found {o = some r} h = absurd cc

  assigned-IsNamed :
      other_has_name i u.name c ≡ false
      → IsNamed (record c { services = record c.services { rows = new_rows } })
  assigned-IsNamed free = record {
    ids_unique = λ j. omega (
      arith,
      v.ids_unique j,
      count-update_eq (has_service_id j) (has_service_id i) (assigned u) rows (λ r. refl),
    );
    ids_below = λ n. omega (
      arith,
      v.ids_below n,
      count-update_eq (has_service_id (c.services.next_id + n)) (has_service_id i) (assigned u) rows
          (λ r. refl),
    );
    names_unique = λ n. assigned_names u.name n free (λ r. refl);
  }

  pub update_service_row-IsNamed : IsNamed (update_service_row i u c).0
  unfolding update_service_row
  update_service_row-IsNamed = go (fetch_row_by_id i c)
    where
      go : (o : Option Service) → IsNamed (updated_row i u c o).0
      go none = v
      go (some r) = elim (Bool-cases (other_has_name i u.name c)) [
        | inl taken ↦ rw taken v
        | inr free ↦ rw free (assigned-IsNamed free)
      ]

-- The transactions of any processes, in any order.
pub data Step : Catalogue → Catalogue → Type 0 where
  adds : (s : NewService) (c : Catalogue) → Step c (add_service s c).0
  updates : (i : ℕ) (u : UpdateService) (c : Catalogue) → Step c (update_service_row i u c).0

pub data Reach (c : Catalogue) : Catalogue → Type 0 where
  here : Reach c c
  next : {a b : Catalogue} → Reach c a → Step a b → Reach c b

Step-IsNamed : {a b : Catalogue} → Step a b → IsNamed a → IsNamed b
Step-IsNamed (adds s c) v = add_service-IsNamed s c v
Step-IsNamed (updates i u c) v = update_service_row-IsNamed i u c v

-- Through every sequence of insertions and updates of services, no two services have the same id
-- or the same name, and the sequence has given out every id in use.
pub Reach-IsNamed : {a b : Catalogue} → Reach a b → IsNamed a → IsNamed b
Reach-IsNamed here v = v
Reach-IsNamed (next r s) v = Step-IsNamed s (Reach-IsNamed r v)
