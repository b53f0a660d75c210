-- ===== src/Backend/Catalogue/Changes.antt =====
-- What a registration and a partial update of a service change (services/register.py,
-- services/update.py).
use node_conductor.Base.{
  ℕ, ◌+◌, List, ◌≡◌, ◌≢◌, refl, sym, ◌∙◌, ap, subst, inl, inr, Text, true, false, Option, none,
  some, ◌&&◌, not, ◌==◌, arith, is_some, Bool-cases, Option-cases, some_injective, [], ◌∷◌, ◌++◌,
}
use node_conductor.Table.{count_where, find_where, update_where}
use node_conductor.Table.Count.{count-split, count-zero_of_find, find-none_of_count, find-excludes}
use node_conductor.Table.Rows.{find-update, find-update_none, find_passes}
use node_conductor.Backend.Schema.{Service, EventType, Severity, Details, RequestedByType}
use node_conductor.Backend.Catalogue.{
  Catalogue, NewService, Field, unset, null, set, UpdateService, has_service_id, has_name,
  fetch_row_by_id, fetch_row_by_name, add_service, updated_fields, assigned, other_has_name,
  updated_row, update_service_row, CatalogueResult, violation, changed, create_service, updated,
  name_conflict, null_required, is_empty_update, update_service,
}
use node_conductor.Backend.Catalogue.Names.{IsNamed}
use node_conductor.Backend.Catalogue.Fields.{
  named_by, IsUpdated, assigned-IsUpdated, count-updated_fields,
}

-- The row with id `i` is the old one with the fields assigned that the request sets, the rows with
-- other ids are as before, and one event more names the keys of the request, each once.
pub record IsChanged (i : ℕ) (u : UpdateService) (c c' : Catalogue) (r' : Service) : Type 0 where
  pub row : Service
  pub before : fetch_row_by_id i c ≡ some row
  pub after : fetch_row_by_id i c' ≡ some r'
  pub fields : IsUpdated u row r'
  pub others : (j : ℕ) → (i == j) ≡ false → fetch_row_by_id j c' ≡ fetch_row_by_id j c
  pub names : List Text
  pub recorded :
      c'.events
      ≡ c.events
        ++ (record {
          event_type = EventType.service_updated;
          severity = Severity.info;
          service_id = some i;
          job_id = none;
          actor_type = RequestedByType.system;
          actor_id = none;
          details = Details.updated_fields names;
        }
            ∷ [])
  pub named :
      (n : Text)
      → count_where (λ m. m == n) names
        ≡ named_by n 0 u.category
          + (named_by n 1 u.dependencies
              + (named_by n 2 u.description
                  + (named_by n 3 u.device_dependencies
                      + (named_by n 4 u.name + named_by n 5 u.kind))))

abbrev result_row : CatalogueResult → Option Service
result_row (changed r) = some r
result_row _ = none

module _ (i : ℕ) (u : UpdateService) (c c' : Catalogue) (r' : Service) where
  others_kept :
      (j : ℕ)
      → (i == j) ≡ false
      → find_where (has_service_id j) (update_where (has_service_id i) (assigned u) c.services.rows)
        ≡ find_where (has_service_id j) c.services.rows
  others_kept j other = elim (Option-cases (find_where (has_service_id j) c.services.rows)) [
    | inl e ↦
        find-update_none (has_service_id j) (has_service_id i) (assigned u) c.services.rows
          (λ x. refl) e
        ∙ sym e
    | inr (x, e) ↦
        find-update (has_service_id j) (has_service_id i) (assigned u) c.services.rows x (λ x. refl)
          e
        ∙ rw (different x (find_passes (has_service_id j) c.services.rows x e)) (sym e)
  ]
    where
      different : (x : Service) → has_service_id j x ≡ true → has_service_id i x ≡ false
      different x h = ground arith

  row_changed :
      (o : Option Service)
      → fetch_row_by_id i c ≡ o
      → updated i u (updated_row i u c o) ≡ (c', changed r')
      → null_required u ≡ false
      → IsChanged i u c c' r'
  unfolding fetch_row_by_id
  row_changed none e h required = absurd cc
  row_changed (some r) e h required = elim (Bool-cases (other_has_name i u.name c)) [
    | inl taken ↦ absurd (ground (arith, ap (λ p. result_row p.1) (rw taken at h)))
    | inr free ↦
        let done = rw free at h in
        let same : assigned u r ≡ r' = some_injective (ap (λ p. result_row p.1) done) in
        let rows : update_where (has_service_id i) (assigned u) c.services.rows ≡ c'.services.rows =
          ap (λ p. p.0.services.rows) done in
        record {
          row = r;
          before = e;
          after =
              subst (λ z. find_where (has_service_id i) z ≡ some r') rows
                (find-update (has_service_id i) (has_service_id i) (assigned u) c.services.rows r
                    (λ x. refl) e
                  ∙ rw (find_passes (has_service_id i) c.services.rows r e) (ap some same));
          fields = subst (IsUpdated u r) same (assigned-IsUpdated u r required);
          names = updated_fields u;
          named = count-updated_fields u;
          others = λ j other.
              subst
                (λ z.
                  find_where (has_service_id j) z ≡ find_where (has_service_id j) c.services.rows)
                rows (others_kept j other);
          recorded = sym (ap (λ p. p.0.events) done);
        }
  ]

-- A partial update that returns a service has given each field of the row with that id the value
-- that the request sets for it (none for a null in a nullable column, and no null in another one),
-- and has left the fields that it does not set, the id, the status and all other rows alone; it
-- returns the new row, and has recorded one event with the names of the keys that are set, each
-- once.
pub update_changes :
    (i : ℕ) (u : UpdateService) (meanwhile : Catalogue → Catalogue) (c c' : Catalogue)
    (r' : Service)
    → update_service i u meanwhile c ≡ (c', changed r')
    → IsChanged i u (meanwhile c) c' r'
unfolding update_service update_service_row
update_changes i u meanwhile c c' r' h = elim (Bool-cases (null_required u)) [
  | inl bad ↦ absurd (ground (arith, ap (λ p. result_row p.1) (rw bad at h)))
  | inr good ↦ elim (Bool-cases (is_empty_update u)) [
    | inl bad ↦ absurd (ground (arith, ap (λ p. result_row p.1) (rw (good, bad) at h)))
    | inr some_set ↦ elim (Bool-cases (name_conflict i u.name c)) [
      | inl bad ↦ absurd (ground (arith, ap (λ p. result_row p.1) (rw (good, some_set, bad) at h)))
      | inr free ↦
          row_changed i u (meanwhile c) c' r' (fetch_row_by_id i (meanwhile c)) refl
            (rw (good, some_set, free) at h) good
    ]
  ]
]

create_alone : (s : NewService) (c : Catalogue) → (create_service s (λ x. x) c).1 ≢ violation
unfolding create_service add_service
create_alone s c h = elim (Bool-cases (is_some (fetch_row_by_name s.name c))) [
  | inl taken ↦ absurd (ground (arith, (rw taken at h)))
  | inr free ↦ absurd (ground (arith, (rw free at h)))
]

-- A name that `update_service` lets pass belongs to no other row.
conflict_excluded :
    (i : ℕ) (f : Field Text) (c : Catalogue)
    → IsNamed c
    → name_conflict i f c ≡ false
    → other_has_name i f c ≡ false
unfolding fetch_row_by_name
conflict_excluded i unset c v h = refl
conflict_excluded i null c v h = refl
conflict_excluded i (set n) c v h = elim (Option-cases (find_where (has_name n) c.services.rows)) [
  | inl e ↦ ap is_some (
      find-none_of_count (λ (r : Service). has_name n r && not (has_service_id i r)) c.services.rows
        (omega (
          arith,
          count-zero_of_find (has_name n) c.services.rows e,
          count-split (has_name n) (λ r. not (has_service_id i r)) c.services.rows,
        )))
  | inr (r, e) ↦ ap is_some (
      find-excludes (has_name n) (λ r. not (has_service_id i r)) c.services.rows r
        (v.names_unique n) e (rw e at h))
]

update_alone :
    (i : ℕ) (u : UpdateService) (c : Catalogue)
    → IsNamed c
    → (update_service i u (λ x. x) c).1 ≢ violation
unfolding update_service update_service_row
update_alone i u c v h = elim (Bool-cases (null_required u)) [
  | inl bad ↦ absurd (ground (arith, (rw bad at h)))
  | inr good ↦ elim (Bool-cases (is_empty_update u)) [
    | inl bad ↦ absurd (ground (arith, (rw (good, bad) at h)))
    | inr some_set ↦ elim (Bool-cases (name_conflict i u.name c)) [
      | inl bad ↦ absurd (ground (arith, (rw (good, some_set, bad) at h)))
      | inr free ↦
          not_refused (fetch_row_by_id i c) (conflict_excluded i u.name c v free)
            (rw (good, some_set, free) at h)
    ]
  ]
]
  where
    not_refused :
        (o : Option Service)
        → other_has_name i u.name c ≡ false
        → (updated i u (updated_row i u c o)).1 ≡ violation
        → ⊥
    not_refused none free k = cc
    not_refused (some r) free k = absurd (ground (arith, (rw free at k)))

-- Where no other transaction comes in between, and the names are unique, the unique index refuses
-- neither a registration nor a partial update: the look for the name has answered before.
pub alone_never_violates :
    (s : NewService) (i : ℕ) (u : UpdateService) (c : Catalogue)
    → IsNamed c
    → ((create_service s (λ x. x) c).1 ≢ violation)
      × ((update_service i u (λ x. x) c).1 ≢ violation)
alone_never_violates s i u c v = (create_alone s c, update_alone i u c v)
