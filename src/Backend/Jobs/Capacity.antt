-- ===== src/Backend/Jobs/Capacity.antt =====
-- The limits on the running jobs, over all jobs and over those of one connection
-- (`claim_next_pending_job` of jobs_repository.py).
use mathlib.Core.List.{Memᴰ}
use node_conductor.Base.{
  ℕ, ◌≤◌, ◌<◌, ◌≡◌, inl, inr, Text, Bool, true, false, ◌&&◌, not, some, arith, Bool-cases,
  Option-cases, sql_eq,
}
use node_conductor.Table.{count_where, select_first}
use node_conductor.Table.Count.{count_mono, count-update_add, count-update_changed, count-split}
use node_conductor.Table.Rows.{select_first_passes}
use node_conductor.Table.First.{select_first-mem, mem-counts}
use node_conductor.Backend.Schema.{Job, Db}
use node_conductor.Backend.Jobs.{
  has_id, pending_with_id, running_job, running_on, connection_of, job_before, claim_row,
  update_jobs, is_candidate, connection_has_room, claim_pending_job, claim_next_pending_job,
  global_capacity_available,
}
use node_conductor.Backend.Jobs.Valid.{IsValid, claim_next-cases}

-- A claim never takes the number of running jobs above the limit.
pub claim_next-capacity :
    (m per now : ℕ) (uuid : Text) (locked : ℕ → Bool) (db : Db)
    → IsValid db
    → count_where running_job db.jobs ≤ m
    → count_where running_job (claim_next_pending_job m per now uuid locked db).0.jobs ≤ m
unfolding claim_pending_job update_jobs
claim_next-capacity m per now uuid locked db v h =
    elim (claim_next-cases m per now uuid locked db) [
      | inl same ↦ rw same h
      | inr (i, e, room) ↦ rw e (
          omega (
            arith,
            count-update_add running_job (pending_with_id i) (claim_row now uuid) db.jobs,
            count_mono (pending_with_id i) (has_id i) db.jobs (λ j p. ground arith),
            v.ids_unique i,
          ))
    ]

-- Only the candidate has its id, so no claimed row is of another connection.
no_other_connection :
    (db : Db) (c : Job) (k : Text)
    → IsValid db
    → Memᴰ c db.jobs
    → sql_eq (connection_of db c) (some k) ≡ false
    → count_where (λ j. pending_with_id c.id j && sql_eq (connection_of db j) (some k)) db.jobs ≡ 0
no_other_connection db c k v m other = omega (
  arith,
  v.ids_unique c.id,
  count-split (has_id c.id) (λ j. sql_eq (connection_of db j) (some k)) db.jobs,
  mem-counts (λ j. has_id c.id j && not (sql_eq (connection_of db j) (some k))) c m (ground arith),
  count_mono (λ j. pending_with_id c.id j && sql_eq (connection_of db j) (some k))
      (λ j. has_id c.id j && sql_eq (connection_of db j) (some k)) db.jobs (λ j p. ground arith),
)

has_room :
    (db : Db) (per : ℕ) (locked : ℕ → Bool) (c : Job) (k : Text)
    → is_candidate db per locked c ≡ true
    → sql_eq (connection_of db c) (some k) ≡ true
    → count_where (running_on db (some k)) db.jobs < per
unfolding is_candidate connection_has_room
has_room db per locked c k h e = elim (Option-cases (connection_of db c)) [
  | inl nothing ↦ absurd (ground arith)
  | inr (k', e') ↦ ground arith
]

-- On a valid table, a claim of the next job never takes the running jobs of a connection that is
-- within its limit above it.
pub claim_next-connection_capacity :
    (m per now : ℕ) (uuid : Text) (locked : ℕ → Bool) (db : Db) (k : Text)
    → IsValid db
    → count_where (running_on db (some k)) db.jobs ≤ per
    → count_where (running_on db (some k)) (claim_next_pending_job m per now uuid locked db).0.jobs
      ≤ per
unfolding claim_next_pending_job update_jobs
claim_next-connection_capacity m per now uuid locked db k v h =
    elim (Bool-cases (global_capacity_available db m)) [
      | inr full ↦ rw full h
      | inl room ↦
          elim (Option-cases (select_first job_before (is_candidate db per locked) db.jobs)) [
            | inl nobody ↦ rw (room, nobody) h
            | inr (c, e) ↦
                rw (room, e)
                  (elim (Bool-cases (sql_eq (connection_of db c) (some k))) [
                    | inl same ↦ omega (
                      arith,
                      count-update_add (running_on db (some k)) (pending_with_id c.id)
                          (claim_row now uuid) db.jobs,
                      count_mono (pending_with_id c.id) (has_id c.id) db.jobs (λ j p. ground arith),
                      v.ids_unique c.id,
                      has_room db per locked c k
                          (select_first_passes job_before (is_candidate db per locked) db.jobs c e)
                          same,
                    )
                    | inr other ↦ omega (
                      arith,
                      count-update_changed (running_on db (some k)) (pending_with_id c.id)
                          (claim_row now uuid) db.jobs,
                      count_mono
                          (λ j.
                            pending_with_id c.id j && running_on db (some k) (claim_row now uuid j))
                          (λ j. pending_with_id c.id j && sql_eq (connection_of db j) (some k))
                          db.jobs (λ j p. ground arith),
                      no_other_connection db c k v
                          (select_first-mem job_before (is_candidate db per locked) db.jobs c e)
                          other,
                    )
                  ])
          ]
    ]
