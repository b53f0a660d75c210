-- ===== src/Backend/Jobs/Terminal.antt =====
-- The life cycle of one job, under the transactions of jobs_repository.py.
use node_conductor.Base.{
  ℕ, ◌≡◌, refl, ◌⊎◌, inl, inr, Text, Bool, true, false, Option, some, arith, or_default, Bool-cases,
}
use node_conductor.Table.Rows.{find-update, find-append}
use node_conductor.Backend.Schema.{
  JobAction, JobStatus, pending, running, succeeded, failed, indeterminate, cancelled,
  RequestedByType, WorkerResult, is_pending, is_running, result_status, Job, Db, is_active,
}
use node_conductor.Backend.Jobs.{
  has_id, pending_with_id, running_with_id, fetch_job_by_id, insert_job, fetch_target_id, new_job,
  create_job_for_service, cancel_pending_job, cancel_row, claim_row, identify_row, finish_row,
  update_jobs, claim_pending_job, ensure_running_job_operation_id, finish_running_job,
  target_is_pilotable,
}
use node_conductor.Backend.Jobs.Valid.{claim_next-cases}
use node_conductor.Backend.Jobs.Insert.{request-cases}
use node_conductor.Backend.Jobs.System.{
  Step, ManualStep, ManualReach, request, create, cancel, claim_next, identify, finish, automatic,
  claim, here, next,
}

-- The edges of the life cycle of a job.
pub data Edge : JobStatus → JobStatus → Type 0 where
  stay : {s : JobStatus} → Edge s s
  claimed : Edge pending running
  withdrawn : Edge pending cancelled
  done : Edge running succeeded
  lost : Edge running failed
  unsure : Edge running indeterminate

-- What may become of a row: along an edge, with its action and service, and not at all once its
-- job has ended.
abbrev pub Moves : Job → Job → Type 0
Moves j j' =
    Edge j.status j'.status
    × (j'.action ≡ j.action)
    × (j'.service_id ≡ j.service_id)
    × ((is_active j.status ≡ true) ⊎ (j' ≡ j))

abbrev pub Follows : ℕ → Job → Db → Type 0
Follows i j db = (j' : Job) × (fetch_job_by_id i db ≡ some j') × Moves j j'

withdraw-Edge : (s : JobStatus) → is_pending s ≡ true → Edge s cancelled
withdraw-Edge pending h = Edge.withdrawn
withdraw-Edge _ h = absurd cc

claim-Edge : (s : JobStatus) → is_pending s ≡ true → Edge s running
claim-Edge pending h = Edge.claimed
claim-Edge _ h = absurd cc

finish-Edge : (s : JobStatus) (r : WorkerResult) → is_running s ≡ true → Edge s (result_status r)
finish-Edge running WorkerResult.succeeded h = Edge.done
finish-Edge running WorkerResult.failed h = Edge.lost
finish-Edge running WorkerResult.indeterminate h = Edge.unsure
finish-Edge pending r h = absurd cc
finish-Edge _ r h = absurd cc

module _ (i : ℕ) (j : Job) where
  unchanged : (db : Db) → fetch_job_by_id i db ≡ some j → Follows i j db
  unchanged db h = (j, h, (Edge.stay, refl, refl, inr refl))

  -- An update that keeps the ids, and moves each row that it changes along an edge.
  update-Follows :
      (db : Db) (p : Job → Bool) (f : Job → Job)
      → ((x : Job) → (f x).id ≡ x.id)
      → (p j ≡ true → Moves j (f j))
      → fetch_job_by_id i db ≡ some j
      → Follows i j (update_jobs p f db).0
  unfolding fetch_job_by_id update_jobs
  update-Follows db p f same moves h = (
    _,
    find-update (has_id i) p f db.jobs j (λ x. rw (same x)) h,
    elim (Bool-cases (p j)) [
      | inl hit ↦ rw hit (moves hit)
      | inr miss ↦ rw miss (Edge.stay, refl, refl, inr refl)
    ],
  )

  insert-Follows :
      (db : Db) (s : ℕ) (t : Option ℕ) (a : JobAction) (ty : RequestedByType) (by : Option Text)
      (now : ℕ)
      → fetch_job_by_id i db ≡ some j
      → Follows i j (insert_job db s t a ty by now).0
  unfolding fetch_job_by_id insert_job
  insert-Follows db s t a ty by now h = (
    j,
    ground (arith, find-append (has_id i) db.jobs (new_job db.next_job_id s t a ty by now) j),
    (Edge.stay, refl, refl, inr refl),
  )

  claim-Follows :
      (k now : ℕ) (uuid : Text) (db : Db)
      → fetch_job_by_id i db ≡ some j
      → Follows i j (claim_pending_job k now uuid db).0
  unfolding claim_pending_job
  claim-Follows k now uuid db =
      update-Follows db (pending_with_id k) (claim_row now uuid) (λ x. refl)
        (λ e. (claim-Edge j.status (ground arith), refl, refl, inl (ground arith)))

  Step-Follows :
      (m per : ℕ) {a b : Db} → Step m per a b → fetch_job_by_id i a ≡ some j → Follows i j b
  unfolding cancel_pending_job ensure_running_job_operation_id finish_running_job
      create_job_for_service
  Step-Follows m per (request db s a st ty by now) h = elim (request-cases a st ty by now db s) [
    | inl same ↦ rw same (unchanged db h)
    | inr (k, e) ↦ rw e (insert-Follows db k (fetch_target_id db k) a ty by now h)
  ]
  Step-Follows m per (create db s a ty by now) h =
      elim (Bool-cases (target_is_pilotable db (fetch_target_id db s))) [
        | inl fine ↦ rw fine (insert-Follows db s (fetch_target_id db s) a ty by now h)
        | inr refused ↦ rw refused (unchanged db h)
      ]
  Step-Follows m per (cancel db k now) h =
      update-Follows db (pending_with_id k) (cancel_row now) (λ x. refl)
        (λ e. (withdraw-Edge j.status (ground arith), refl, refl, inl (ground arith))) h
  Step-Follows m per (claim_next db now uuid locked f) h =
      elim (claim_next-cases m per now uuid locked db) [
        | inl same ↦ rw same (unchanged db h)
        | inr (k, e, _) ↦ rw e (claim-Follows k now uuid db h)
      ]
  Step-Follows m per (identify db k c uuid f) h =
      update-Follows db (running_with_id k) (identify_row (or_default c uuid)) (λ x. refl)
        (λ e. (Edge.stay, refl, refl, inl (ground arith))) h
  Step-Follows m per (finish db k r msg now) h =
      update-Follows db (running_with_id k) (finish_row r msg now) (λ x. refl)
        (λ e. (finish-Edge j.status r (ground arith), refl, refl, inl (ground arith))) h

-- Every transaction, the manual claim included, moves an existing job along an edge of its life
-- cycle or not at all, and keeps its action and its service.
pub ManualStep-Follows :
    (m per i : ℕ) (j : Job) {a b : Db}
    → ManualStep m per a b
    → fetch_job_by_id i a ≡ some j
    → Follows i j b
ManualStep-Follows m per i j (automatic s) h = Step-Follows i j m per s h
ManualStep-Follows m per i j (claim db k now uuid f) h = claim-Follows i j k now uuid db h

-- A job that has succeeded, failed, become indeterminate or been cancelled keeps its whole row,
-- whatever transactions follow.
pub ended_stays :
    (m per i : ℕ) (j : Job) {a b : Db}
    → ManualReach m per a b
    → is_active j.status ≡ false
    → fetch_job_by_id i a ≡ some j
    → fetch_job_by_id i b ≡ some j
ended_stays m per i j here over h = h
ended_stays m per i j {a} {b} (next r s) over h =
    go (ManualStep-Follows m per i j s (ended_stays m per i j r over h))
  where
    go : Follows i j b → fetch_job_by_id i b ≡ some j
    go (j', found, (e, same_action, same_service, inl active)) = absurd (ground arith)
    go (j', found, (e, same_action, same_service, inr same)) = rw same at found
