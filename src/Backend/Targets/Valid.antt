-- ===== src/Backend/Targets/Valid.antt =====
-- The keys of the table `targets`, under every statement that writes to it.
use node_conductor.Base.{
  ℕ, ◌+◌, ◌≤◌, subst, Text, ◌≡◌, refl, sym, ap, inl, inr, Bool, none, List, [], ◌∷◌, ◌++◌, ◌==◌,
  arith, Bool-cases, Option-cases, ==_iff,
}
use node_conductor.Table.{count_where, find_where, update_where}
use node_conductor.Table.Count.{count-append, count-update_eq, count-zero_of_find}
use node_conductor.Table.Serial.{Serial, insert, upsert}
use node_conductor.Table.Upsert.{upsert_new, upsert_old}
use node_conductor.Agent.Schema.{TargetKind, Resource}
use node_conductor.Agent.Policies.Laws.{same_kind→eq}
use node_conductor.Backend.Written.{wrote, wrote_injective}
use node_conductor.Backend.Targets.{
  TargetRow, target_with_id, docker, has_key, new_target, observed_target,
  disable_legacy_member_targets, mark_targets_absent,
}
use node_conductor.Backend.Targets.Sync.{
  Tables, Report, upsert_resources, settle, settle_targets, synchronize_inventory_rows,
}
use node_conductor.Backend.Targets.Applied.{
  IsUpserted, upsert_resources-step, IsApplied, synchronize-IsApplied, settled_rows,
}

-- The primary key with its sequence, and the unique key.
pub record IsKeyed (rows : List TargetRow) (next_id : ℕ) : Type 0 where
  pub ids_unique : (i : ℕ) → count_where (target_with_id i) rows ≤ 1
  pub ids_below : (n : ℕ) → count_where (target_with_id (next_id + n)) rows ≡ 0
  pub keys_unique :
      (d c : Text) (k : TargetKind) (t : Text) → count_where (has_key d c k t) rows ≤ 1

-- An update that leaves the keys alone.
pub update-IsKeyed :
    (q : TargetRow → Bool) (f : TargetRow → TargetRow) (rows : List TargetRow) (n : ℕ)
    → ((i : ℕ) (r : TargetRow) → target_with_id i (f r) ≡ target_with_id i r)
    → ((d c : Text) (k : TargetKind) (t : Text) (r : TargetRow)
        → has_key d c k t (f r) ≡ has_key d c k t r)
    → IsKeyed rows n
    → IsKeyed (update_where q f rows) n
update-IsKeyed q f rows n ids keys v = record {
  ids_unique =
      λ i. omega (arith, v.ids_unique i, count-update_eq (target_with_id i) q f rows (ids i));
  ids_below = λ m.
      omega (arith, v.ids_below m, count-update_eq (target_with_id (n + m)) q f rows (ids (n + m)));
  keys_unique = λ d c k t.
      omega
        (arith, v.keys_unique d c k t, count-update_eq (has_key d c k t) q f rows (keys d c k t));
}

pub later_id : (rows : List TargetRow) (n : ℕ) → IsKeyed rows n → IsKeyed rows (n + 1)
later_id rows n v = record {
  ids_unique = v.ids_unique;
  ids_below =
      λ m. subst (λ i. count_where (target_with_id i) rows ≡ 0) (omega arith) (v.ids_below (m + 1));
  keys_unique = v.keys_unique;
}

-- A row with the next id, whose key is not in use.
pub insert-IsKeyed :
    (new : TargetRow) (rows : List TargetRow) (n : ℕ)
    → new.id ≡ n
    → find_where (has_key new.driver new.connection_id new.target_kind new.target) rows ≡ none
    → IsKeyed rows n
    → IsKeyed (rows ++ (new ∷ [])) (n + 1)
insert-IsKeyed new rows n e free v = record {
  ids_unique = λ i. ids i;
  ids_below = λ m.
      ground (
        arith,
        count-append (target_with_id (n + 1 + m)) rows new,
        (later_id rows n v).ids_below m,
      );
  keys_unique = keys;
}
  where
    ids : (i : ℕ) → count_where (target_with_id i) (rows ++ (new ∷ [])) ≤ 1
    ids i = elim (Bool-cases (new.id == i)) [
      | inl same ↦
          let at_next : n + 0 ≡ i = omega (arith, e, (==_iff new.id i).0 same) in
          let zero_before =
            subst (λ j. count_where (target_with_id j) rows ≡ 0) at_next (v.ids_below 0) in
          ground (arith, count-append (target_with_id i) rows new)
      | inr other ↦ ground (arith, count-append (target_with_id i) rows new, v.ids_unique i)
    ]

    keys :
        (d c : Text) (k : TargetKind) (t : Text)
        → count_where (has_key d c k t) (rows ++ (new ∷ [])) ≤ 1
    keys d c k t = elim (Bool-cases (has_key d c k t new)) [
      | inr other ↦ ground (arith, count-append (has_key d c k t) rows new, v.keys_unique d c k t)
      | inl same ↦
          let zero_before : count_where (has_key d c k t) rows ≡ 0 =
            rw
              (
                sym ((==_iff new.driver d).0 (ground arith)),
                sym ((==_iff new.connection_id c).0 (ground arith)),
                sym (same_kind→eq new.target_kind k (ground arith)),
                sym ((==_iff new.target t).0 (ground arith)),
              )
              (count-zero_of_find (has_key new.driver new.connection_id new.target_kind new.target)
                rows free) in
          ground (arith, count-append (has_key d c k t) rows new)
    ]

-- The upsert of a resource.
pub upserted-IsKeyed :
    (c : Text) (now : ℕ) (x : Resource) (t u : Serial TargetRow) (r : TargetRow)
    → IsUpserted c now x t u r
    → IsKeyed t.rows t.next_id
    → IsKeyed u.rows u.next_id
unfolding upsert insert
upserted-IsKeyed c now x t u r d v =
    subst (λ (s : Serial TargetRow). IsKeyed s.rows s.next_id) (ap (λ p. p.0) d.done)
      (elim (Option-cases (find_where same t.rows)) [
        | inl e ↦
            rw (upsert_new same new change t e)
              (insert-IsKeyed (new t.next_id) t.rows t.next_id refl e v)
        | inr (y, e) ↦ rw (upsert_old same new change t y e) (
            later_id _ _
              (update-IsKeyed same change t.rows t.next_id (λ i r. refl) (λ d c k t r. refl) v))
      ])
  where
    same : TargetRow → Bool
    same = has_key docker c d.kind x.target

    new : ℕ → TargetRow
    new = new_target c now d.kind d.policy x

    change : TargetRow → TargetRow
    change = observed_target now d.policy x

pub upsert_resources-IsKeyed :
    (c : Text) (now : ℕ) (xs : List Resource) (t t' : Serial TargetRow) (rs : List TargetRow)
    → upsert_resources c now xs t ≡ wrote (t', rs)
    → IsKeyed t.rows t.next_id
    → IsKeyed t'.rows t'.next_id
unfolding upsert_resources
upsert_resources-IsKeyed c now [] t t' rs h v =
    subst (λ (s : Serial TargetRow × List TargetRow). IsKeyed s.0.rows s.0.next_id)
      (wrote_injective h) v
upsert_resources-IsKeyed c now (x ∷ xs) t t' rs h v =
    let (u, r, more, done, rest, _) = upsert_resources-step c now x xs t t' rs h in
    upsert_resources-IsKeyed c now xs u t' more rest (upserted-IsKeyed c now x t u r done v)

pub settled_id :
    (c : Text) (resources : List Resource) (now : ℕ) (db db' : Tables) (report : Report)
    (a : IsApplied c resources now db db' report)
    → a.targets.next_id ≡ db'.targets.next_id
unfolding settle settle_targets
settled_id c resources now db db' report a = ap (λ p. p.0.targets.next_id) a.settled

pub synchronize-IsKeyed :
    (c : Text) (resources : List Resource) (now : ℕ) (db db' : Tables) (report : Report)
    → synchronize_inventory_rows c resources now db ≡ wrote (db', report)
    → IsKeyed db.targets.rows db.targets.next_id
    → IsKeyed db'.targets.rows db'.targets.next_id
unfolding disable_legacy_member_targets mark_targets_absent
synchronize-IsKeyed c resources now db db' report h v =
    let a = synchronize-IsApplied c resources now db db' report h in
    let w = upsert_resources-IsKeyed c now _ db.targets a.targets a.synchronized a.upserted v in
    subst (λ n. IsKeyed db'.targets.rows n) (settled_id c resources now db db' report a)
      (subst (λ rows. IsKeyed rows a.targets.next_id)
        (sym (settled_rows c resources now db db' report a))
        (update-IsKeyed _ _ _ _ (λ i r. refl) (λ d c k t r. refl)
          (update-IsKeyed _ _ _ _ (λ i r. refl) (λ d c k t r. refl) w)))
