-- ===== src/Backend/Worker/Execution.antt =====
-- The branches of one run of a job (`run_claimed_job` and `run_job` of services/jobs_worker.py).
use node_conductor.Base.{
  ℕ, ◌≤◌, ◌≡◌, ◌≢◌, refl, Text, true, false, Option, none, some, take, arith, length, length-take,
  ◌∙◌,
}
use node_conductor.Table.{find_where}
use node_conductor.Table.Rows.{update_where_nothing}
use node_conductor.Backend.Schema.{WorkerMode, real, WorkerResult, Message, Job, Db, is_running}
use node_conductor.Backend.Jobs.{
  running_with_id, pending_with_id, fetch_job_by_id, claim_pending_job, claim_row, update_jobs,
  ensure_running_job_operation_id, finish_running_job, finish_row,
}
use node_conductor.Backend.Executors.{
  ExecutionResult, Raised, raised, deadline_exceeded, indeterminate_error, failed_error, other,
  Context, is_expired, raise_if_expired, Executor, deadline_message, real_executor,
  build_worker_executor,
}
use node_conductor.Backend.Worker.{
  Settings, Environment, conflict, unclaimed, select_executor, handle, truncated,
  execute_cooperatively, record_job_started, complete_job, context_of, run_claimed_job, run_job,
}

-- An exception that an executor raises, dispatched before its deadline, becomes a result whose
-- message fits the column, and never a success.
pub raised_outcome :
    (executor : Executor) (job : Job) (c : Context) (e : Raised)
    → executor job c ≡ raised e
    → is_expired c 0 ≡ false
    → (execute_cooperatively executor job c ≡ handle e)
      × ((execute_cooperatively executor job c).status ≢ WorkerResult.succeeded)
      × ((m : Message) × ((execute_cooperatively executor job c).error_message ≡ some m)
          × (length m ≤ 2000))
unfolding execute_cooperatively raise_if_expired
raised_outcome executor job c e h live = rw (live, h) (bounded e)
  where
    bounded :
        (e : Raised)
        → (handle e ≡ handle e)
          × ((handle e).status ≢ WorkerResult.succeeded)
          × ((m : Message) × ((handle e).error_message ≡ some m) × (length m ≤ 2000))
    bounded (deadline_exceeded m) =
        (refl, λ x. cc, (take 2000 m, refl, omega (arith, length-take 2000 m)))
    bounded (indeterminate_error m) =
        (refl, λ x. cc, (take 2000 m, refl, omega (arith, length-take 2000 m)))
    bounded (failed_error m) =
        (refl, λ x. cc, (take 2000 m, refl, omega (arith, length-take 2000 m)))
    bounded (other m) = (refl, λ x. cc, (take 2000 m, refl, omega (arith, length-take 2000 m)))

-- With the deadline past before the dispatch the executor is not consulted: the result is the
-- failure with the message of the deadline.
pub expired_outcome :
    (executor : Executor) (job : Job) (c : Context)
    → is_expired c 0 ≡ true
    → execute_cooperatively executor job c
      ≡ record { status = WorkerResult.failed; error_message = truncated deadline_message }
unfolding execute_cooperatively raise_if_expired
expired_outcome executor job c h = rw h

-- The real mode, which is not implemented, fails at every deadline and every clock; it never
-- reports success.
pub real_mode_fails :
    (job : Job) (c : Context)
    → (execute_cooperatively (build_worker_executor real) job c).status ≡ WorkerResult.failed
unfolding execute_cooperatively raise_if_expired build_worker_executor real_executor is_expired
real_mode_fails job c = ground arith

-- The end of a run whose job is no longer running.
complete_gone :
    (s : Settings) (i : ℕ) (r : ExecutionResult) (mode : WorkerMode) (now : ℕ) (db : Db)
    → find_where (running_with_id i) db.jobs ≡ none
    → complete_job s i r mode now db ≡ (db, conflict)
unfolding complete_job finish_running_job update_jobs
complete_gone s i r mode now db h =
    rw (h, complete_job)
      (rw (
        update_where_nothing (running_with_id i) (finish_row r.status r.error_message now) db.jobs
          h))

module _ (s : Settings) (e : Environment) (job : Job) (mode : Option WorkerMode)
    (executor : Option Executor) (db : Db) where
  -- What the database is when the executor has returned.
  abbrev pub before_end : Job → Db
  before_end p =
      e.meanwhile (record_job_started p (ensure_running_job_operation_id job.id none e.uuid db).0)

  abbrev pub result_of : Job → ExecutionResult
  result_of p =
      execute_cooperatively (select_executor s none none mode executor).1 p (context_of s e p)

  run_to_end :
      (p : Job)
      → is_running job.status ≡ true
      → (ensure_running_job_operation_id job.id none e.uuid db).1 ≡ some p
      → run_claimed_job s e job mode executor db
        ≡ complete_job s p.id
            (result_of p)
            (select_executor s none none mode executor).0
            e.finished_at
            (before_end p)
  unfolding run_claimed_job
  run_to_end p live found = rw (live, found, run_claimed_job)

  -- A job that is no longer running when its executor returns is left as it is: the run reports a
  -- conflict and writes nothing after that.
  pub run_conflicts :
      (p : Job)
      → is_running job.status ≡ true
      → (ensure_running_job_operation_id job.id none e.uuid db).1 ≡ some p
      → find_where (running_with_id p.id) (before_end p).jobs ≡ none
      → run_claimed_job s e job mode executor db ≡ (before_end p, conflict)
  run_conflicts p live found gone =
      run_to_end p live found
      ∙ complete_gone s p.id (result_of p) (select_executor s none none mode executor).0
          e.finished_at (before_end p) gone

-- A manual run of a job that is not pending changes nothing, and tells a missing job from one in
-- another state.
pub run_job_not_pending :
    (s : Settings) (e : Environment) (now : ℕ) (uuid : Text) (i : ℕ) (result : Option WorkerResult)
    (message : Option Message) (mode : Option WorkerMode) (executor : Option Executor) (db : Db)
    → find_where (pending_with_id i) db.jobs ≡ none
    → run_job s e now uuid i result message mode executor db
      ≡ (db, unclaimed (fetch_job_by_id i db))
unfolding run_job claim_pending_job update_jobs
run_job_not_pending s e now uuid i result message mode executor db h =
    rw (h, run_job) (rw (update_where_nothing (pending_with_id i) (claim_row now uuid) db.jobs h))
