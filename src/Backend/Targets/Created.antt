-- ===== src/Backend/Targets/Created.antt =====
-- What `create_target_row` writes (repositories/worker_contracts_repository.py).
use node_conductor.Base.{
  ◌+◌, ◌≡◌, refl, sym, ap, inl, inr, subst, none, [], ◌∷◌, ◌++◌, arith, Option-cases, is_some,
  Bool-cases,
}
use node_conductor.Table.{find_where}
use node_conductor.Table.Serial.{insert}
use node_conductor.Backend.Written.{wrote, wrote_injective}
use node_conductor.Backend.Targets.{TargetRow, has_key}
use node_conductor.Backend.Targets.Valid.{IsKeyed, insert-IsKeyed}
use node_conductor.Backend.Targets.Sync.{Tables, connection_with_id}
use node_conductor.Backend.Targets.Contracts.{
  TargetData, kind_of, created_target, create_target_row,
}

record IsCreated (d : TargetData) (db db' : Tables) : Type 0 where
  free : find_where (has_key d.driver d.connection_id (kind_of d) d.target) db.targets.rows ≡ none
  rows : db'.targets.rows ≡ db.targets.rows ++ (created_target d db.targets.next_id ∷ [])
  next_id : db'.targets.next_id ≡ db.targets.next_id + 1

create_target-IsCreated :
    (d : TargetData) (db db' : Tables) (r : TargetRow)
    → create_target_row d db ≡ wrote (db', r)
    → IsCreated d db db'
unfolding create_target_row insert
create_target-IsCreated d db db' r h =
    elim (Bool-cases (is_some (find_where (connection_with_id d.connection_id) db.connections))) [
      | inr missing ↦ absurd (ground arith)
      | inl known ↦
          elim (Option-cases
            (find_where (has_key d.driver d.connection_id (kind_of d) d.target) db.targets.rows)) [
              | inr (x, taken) ↦ absurd (ground arith)
              | inl free ↦
                  let same = wrote_injective (rw (known, free) at h) in
                  record {
                    free = free;
                    rows = sym (ap (λ p. p.0.targets.rows) same);
                    next_id = sym (ap (λ p. p.0.targets.next_id) same);
                  }
            ]
    ]

pub create_target-rows :
    (d : TargetData) (db db' : Tables) (r : TargetRow)
    → create_target_row d db ≡ wrote (db', r)
    → db'.targets.rows ≡ db.targets.rows ++ (created_target d db.targets.next_id ∷ [])
create_target-rows d db db' r h = (create_target-IsCreated d db db' r h).rows

pub create_target-IsKeyed :
    (d : TargetData) (db db' : Tables) (r : TargetRow)
    → create_target_row d db ≡ wrote (db', r)
    → IsKeyed db.targets.rows db.targets.next_id
    → IsKeyed db'.targets.rows db'.targets.next_id
create_target-IsKeyed d db db' r h v =
    let c = create_target-IsCreated d db db' r h in
    subst (λ n. IsKeyed db'.targets.rows n) (sym c.next_id)
      (subst (λ rows. IsKeyed rows (db.targets.next_id + 1)) (sym c.rows)
        (insert-IsKeyed (created_target d db.targets.next_id) db.targets.rows db.targets.next_id
          refl c.free v))
