-- ===== src/Backend/Jobs/System.antt =====
-- The transactions of any number of API and worker processes on the table `jobs`, in any order.
use node_conductor.Base.{ℕ, ◌≤◌, inl, inr, Text, Bool, Option, arith, or_default}
use node_conductor.Table.{count_where}
use node_conductor.Table.Count.{count-append, count-update_le}
use node_conductor.Backend.Schema.{
  JobAction, ServiceStatus, WorkerResult, RequestedByType, Message, Db,
}
use node_conductor.Backend.Jobs.{
  running_job, pending_with_id, running_with_id, insert_job, fetch_target_id, new_job,
  request_job_for_service_atomically, create_job_for_service, cancel_pending_job, cancel_row,
  identify_row, finish_row, update_jobs, claim_pending_job, ensure_running_job_operation_id,
  claim_next_pending_job, finish_running_job,
}
use node_conductor.Backend.Jobs.Valid.{
  IsValid, IsFresh, cancel_pending_job-IsValid, claim_pending_job-IsValid,
  claim_next_pending_job-IsValid, ensure_running_job_operation_id-IsValid,
  finish_running_job-IsValid,
}
use node_conductor.Backend.Jobs.Insert.{
  create_job_for_service-IsValid, request-IsValid, request-cases,
}
use node_conductor.Backend.Jobs.Capacity.{claim_next-capacity}

-- One transaction of the automatic worker (with these two limits) or of the API. An UUID that is
-- drawn is fresh.
pub data Step (limit per_connection : ℕ) : Db → Db → Type 0 where
  request :
      (db : Db) (s : ℕ) (a : JobAction) (st : ServiceStatus) (ty : RequestedByType)
      (by : Option Text) (now : ℕ)
      → Step limit per_connection db (request_job_for_service_atomically s a st ty by now db).0
  create :
      (db : Db) (s : ℕ) (a : JobAction) (ty : RequestedByType) (by : Option Text) (now : ℕ)
      → Step limit per_connection db (create_job_for_service s a ty by now db).0
  cancel : (db : Db) (i now : ℕ) → Step limit per_connection db (cancel_pending_job i now db).0
  claim_next :
      (db : Db) (now : ℕ) (uuid : Text) (locked : ℕ → Bool)
      → IsFresh uuid db
      → Step limit per_connection db
          (claim_next_pending_job limit per_connection now uuid locked db).0
  identify :
      (db : Db) (i : ℕ) (candidate : Option Text) (uuid : Text)
      → IsFresh (or_default candidate uuid) db
      → Step limit per_connection db (ensure_running_job_operation_id i candidate uuid db).0
  finish :
      (db : Db) (i : ℕ) (r : WorkerResult) (m : Option Message) (now : ℕ)
      → Step limit per_connection db (finish_running_job i r m now db).0

-- The same with the claim of a given job, which the manual facades make.
pub data ManualStep (limit per_connection : ℕ) : Db → Db → Type 0 where
  automatic :
      {db db' : Db} → Step limit per_connection db db' → ManualStep limit per_connection db db'
  claim :
      (db : Db) (i now : ℕ) (uuid : Text)
      → IsFresh uuid db
      → ManualStep limit per_connection db (claim_pending_job i now uuid db).0

pub data Reach (limit per_connection : ℕ) (db : Db) : Db → Type 0 where
  here : Reach limit per_connection db db
  next :
      {a b : Db}
      → Reach limit per_connection db a
      → Step limit per_connection a b
      → Reach limit per_connection db b

pub data ManualReach (limit per_connection : ℕ) (db : Db) : Db → Type 0 where
  here : ManualReach limit per_connection db db
  next :
      {a b : Db}
      → ManualReach limit per_connection db a
      → ManualStep limit per_connection a b
      → ManualReach limit per_connection db b

module _ (limit per : ℕ) where
  pub Step-IsValid : {a b : Db} → Step limit per a b → IsValid a → IsValid b
  Step-IsValid (request db s a st ty by now) v = request-IsValid a st ty by now db s v
  Step-IsValid (create db s a ty by now) v = create_job_for_service-IsValid s a ty by now db v
  Step-IsValid (cancel db i now) v = cancel_pending_job-IsValid i now db v
  Step-IsValid (claim_next db now uuid locked f) v =
      claim_next_pending_job-IsValid limit per now uuid locked db f v
  Step-IsValid (identify db i c uuid f) v = ensure_running_job_operation_id-IsValid i c uuid db f v
  Step-IsValid (finish db i r m now) v = finish_running_job-IsValid i r m now db v

  ManualStep-IsValid : {a b : Db} → ManualStep limit per a b → IsValid a → IsValid b
  ManualStep-IsValid (automatic s) v = Step-IsValid s v
  ManualStep-IsValid (claim db i now uuid f) v = claim_pending_job-IsValid i now uuid db f v

  -- Whatever transactions run, in whatever order, if the UUIDs that they draw are fresh, from a
  -- valid table only valid tables are reached: at most one pending or running job per service
  -- and per target, unique job and operation ids, and columns that fit the status.
  pub ManualReach-IsValid : {a b : Db} → ManualReach limit per a b → IsValid a → IsValid b
  ManualReach-IsValid here v = v
  ManualReach-IsValid (next r s) v = ManualStep-IsValid s (ManualReach-IsValid r v)

  pub Reach-IsValid : {a b : Db} → Reach limit per a b → IsValid a → IsValid b
  Reach-IsValid here v = v
  Reach-IsValid (next r s) v = Step-IsValid s (Reach-IsValid r v)

  insert-running :
      (db : Db) (s : ℕ) (t : Option ℕ) (a : JobAction) (ty : RequestedByType) (by : Option Text)
      (now : ℕ)
      → count_where running_job (insert_job db s t a ty by now).0.jobs
        ≤ count_where running_job db.jobs
  unfolding insert_job
  insert-running db s t a ty by now =
      ground (arith, count-append running_job db.jobs (new_job db.next_job_id s t a ty by now))

  Step-capacity :
      {a b : Db}
      → Step limit per a b
      → IsValid a
      → count_where running_job a.jobs ≤ limit
      → count_where running_job b.jobs ≤ limit
  unfolding cancel_pending_job ensure_running_job_operation_id finish_running_job update_jobs
      create_job_for_service
  Step-capacity (request db s a st ty by now) v h = elim (request-cases a st ty by now db s) [
    | inl same ↦ rw same h
    | inr (i, e) ↦ rw e (omega (arith, insert-running db i (fetch_target_id db i) a ty by now))
  ]
  Step-capacity (create db s a ty by now) v h =
      ground (arith, insert-running db s (fetch_target_id db s) a ty by now)
  Step-capacity (cancel db i now) v h = omega (
    arith,
    count-update_le running_job (pending_with_id i) (cancel_row now) db.jobs (λ j p a. cc),
  )
  Step-capacity (claim_next db now uuid locked f) v h =
      claim_next-capacity limit per now uuid locked db v h
  Step-capacity (identify db i c uuid f) v h = omega (
    arith,
    count-update_le running_job (running_with_id i) (identify_row (or_default c uuid)) db.jobs
        (λ j p a. ground arith),
  )
  Step-capacity (finish db i r m now) v h = omega (
    arith,
    count-update_le running_job (running_with_id i) (finish_row r m now) db.jobs
        (λ j p a. ground arith),
  )

  -- While jobs are claimed by the automatic worker alone, all its processes together never have
  -- more jobs running than the limit, if the table was valid and within the limit at first.
  pub Reach-capacity :
      {a b : Db}
      → Reach limit per a b
      → IsValid a
      → count_where running_job a.jobs ≤ limit
      → count_where running_job b.jobs ≤ limit
  Reach-capacity here v h = h
  Reach-capacity (next r s) v h = Step-capacity s (Reach-IsValid r v) (Reach-capacity r v h)
