-- ===== src/Backend/Jobs/Order.antt =====
-- Which job a claim of the next job takes (`claim_next_pending_job` of jobs_repository.py).
use mathlib.Core.List.{Memᴰ}
use node_conductor.Base.{
  ℕ, ◌≤◌, ◌≡◌, refl, ◌⊎◌, inl, inr, Text, Bool, true, false, ◌&&◌, none, some, arith, All, All-map,
  Bool-cases, Option-cases,
}
use node_conductor.Table.{count_where, find_where, select_first}
use node_conductor.Table.Count.{count_mono, count-zero_of_select_first}
use node_conductor.Table.Rows.{select_first_passes}
use node_conductor.Table.First.{IsRank, select_first-mem, select_first-least, find_unique}
use node_conductor.Backend.Schema.{Job, Db, is_pending}
use node_conductor.Backend.Jobs.{
  has_id, pending_with_id, running_job, job_before, claim_row, update_jobs, is_candidate,
  claim_next_pending_job, global_capacity_available,
}
use node_conductor.Backend.Jobs.Valid.{IsValid}

pub job_before-IsRank : IsRank job_before
job_before-IsRank = record {
  asymmetric = λ a b h. ground arith;
  irreflexive = λ a. ground arith;
  negative = λ a b c h k. ground arith;
}

pub candidate-pending :
    (db : Db) (per : ℕ) (locked : ℕ → Bool) (j : Job)
    → is_candidate db per locked j ≡ true
    → is_pending j.status ≡ true
unfolding is_candidate
candidate-pending db per locked j h = ground arith

-- A candidate that is in the table is the row that the UPDATE finds.
pub find-candidate :
    (db : Db) (per : ℕ) (locked : ℕ → Bool) (c : Job)
    → IsValid db
    → select_first job_before (is_candidate db per locked) db.jobs ≡ some c
    → find_where (pending_with_id c.id) db.jobs ≡ some c
find-candidate db per locked c v h =
    find_unique (pending_with_id c.id) c
      (select_first-mem job_before (is_candidate db per locked) db.jobs c h)
      (ground (
        arith,
        candidate-pending db per locked c
            (select_first_passes job_before (is_candidate db per locked) db.jobs c h),
      ))
      (omega (
        arith,
        count_mono (pending_with_id c.id) (has_id c.id) db.jobs (λ j e. ground arith),
        v.ids_unique c.id,
      ))

-- In a valid table, the job that is claimed was a candidate row of the table, no candidate is
-- older, and what is returned is that row as the claim has written it.
pub claim_next-oldest :
    (m per now : ℕ) (uuid : Text) (locked : ℕ → Bool) (db : Db) (j : Job)
    → IsValid db
    → (claim_next_pending_job m per now uuid locked db).1 ≡ some j
    → (c : Job) × Memᴰ c db.jobs
      × (is_candidate db per locked c ≡ true)
      × (j ≡ claim_row now uuid c)
      × All (λ r. (is_candidate db per locked r && job_before r c) ≡ false) db.jobs
unfolding claim_next_pending_job update_jobs
claim_next-oldest m per now uuid locked db j v h =
    elim (Bool-cases (global_capacity_available db m)) [
      | inr full ↦ absurd (ground arith)
      | inl room ↦
          elim (Option-cases (select_first job_before (is_candidate db per locked) db.jobs)) [
            | inl nobody ↦ absurd (ground arith)
            | inr (c, e) ↦ (
              c,
              select_first-mem job_before (is_candidate db per locked) db.jobs c e,
              select_first_passes job_before (is_candidate db per locked) db.jobs c e,
              ground (arith, find-candidate db per locked c v e),
              All-map _ _ db.jobs
                  (λ r older. elim (Bool-cases (is_candidate db per locked r)) [
                    | inl fits ↦ rw (fits, older fits) refl
                    | inr other ↦ rw other refl
                  ])
                  (select_first-least job_before (is_candidate db per locked) db.jobs c
                    job_before-IsRank e),
            )
          ]
    ]

-- On a valid table, a claim that returns nothing leaves the database alone, and the capacity was
-- used up or there was no candidate.
pub claim_next-none :
    (m per now : ℕ) (uuid : Text) (locked : ℕ → Bool) (db : Db)
    → IsValid db
    → (claim_next_pending_job m per now uuid locked db).1 ≡ none
    → ((claim_next_pending_job m per now uuid locked db).0 ≡ db)
      × ((m ≤ count_where running_job db.jobs)
          ⊎ (count_where (is_candidate db per locked) db.jobs ≡ 0))
unfolding claim_next_pending_job update_jobs global_capacity_available
claim_next-none m per now uuid locked db v h =
    elim (Option-cases (select_first job_before (is_candidate db per locked) db.jobs)) [
      | inl nobody ↦ (
        ground arith,
        inr (count-zero_of_select_first job_before (is_candidate db per locked) db.jobs nobody),
      )
      | inr (c, e) ↦ ground (arith, find-candidate db per locked c v e)
    ]
