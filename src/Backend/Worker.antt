-- ===== src/Backend/Worker.antt =====
-- The worker that runs one job (backend/src/nodeconductor/services/jobs_worker.py), with the rows
-- that it writes to `services` and `events`.
pub mod Ending
pub mod Execution
use node_conductor.Base.{
  ℕ, suc, ◌+◌, ◌-◌, Text, Bool, true, false, Option, none, some, List, [], ◌∷◌, ◌++◌, take, ◌==◌,
  if◌then◌else◌, or_default, is_none, is_some, not, ◌||◌, ◌&&◌, ltb, length,
}
use mathlib.Core.Option
use node_conductor.Table.{update_where}
use node_conductor.Backend.Schema.{
  JobAction, start, stop, JobStatus, ServiceStatus, WorkerMode, simulation, WorkerResult,
  RequestedByType, Message, Service, Job, Severity, EventType, Details, Event, Db, is_running,
}
use node_conductor.Backend.Jobs.{
  fetch_job_by_id, claim_pending_job, ensure_running_job_operation_id, claim_next_pending_job,
  finish_running_job,
}
use node_conductor.Backend.Executors.{
  ExecutionResult, Raised, deadline_exceeded, indeterminate_error, failed_error, other, Outcome,
  returned, raised, Context, raise_if_expired, Executor, simulation_executor, build_worker_executor,
}

-- The part of `settings` that the worker reads.
pub record Settings : Type 0 where
  pub worker_mode : WorkerMode
  pub debug_events : Bool
  pub worker_execution_timeout_seconds : ℕ
  pub worker_max_concurrency : ℕ
  pub worker_max_concurrency_per_connection : ℕ

-- What one run meets outside its own code: uuid4(), now() at its end, the monotonic clock, and
-- what other transactions make of the database while the executor runs.
pub record Environment : Type 0 where
  pub uuid : Text
  pub finished_at : ℕ
  pub clock : ℕ → ℕ
  pub meanwhile : Db → Db

pub data RunResult : Type 0 where
  ran : Job → RunResult
  conflict : RunResult
  not_found : RunResult
  unrenderable : RunResult

-- `record_event`
unfoldable pub record_event : Event → Db → Db
record_event e db = record db { events = db.events ++ (e ∷ []) }

-- `update_service_status_row` of services_repository.py
unfoldable pub update_service_status_row : ℕ → ServiceStatus → Db → Db
update_service_status_row s status db = record db {
  services =
      update_where (λ (r : Service). r.id == s) (λ (r : Service). record r { status = status })
        db.services;
}

-- An explicit executor is used with the chosen mode; a given result or message means a simulation
-- of just that; else the mode decides.
unfoldable pub select_executor :
    Settings
    → Option WorkerResult
    → Option Message
    → Option WorkerMode
    → Option Executor
    → WorkerMode × Executor
select_executor s result message mode executor =
    let selected = or_default mode s.worker_mode in
    elim executor [
      | some e ↦ (selected, e)
      | none ↦
          if is_some result || is_some message
          then (simulation, simulation_executor (or_default result WorkerResult.succeeded) message)
          else (selected, build_worker_executor selected)
    ]

-- `str(exc)[:2_000]`
abbrev pub truncated : Message → Option Message
truncated m = some (take 2000 m)

abbrev pub handle : Raised → ExecutionResult
handle (indeterminate_error m) = record {
  status = WorkerResult.indeterminate;
  error_message = truncated m;
}
handle (deadline_exceeded m) = record { status = WorkerResult.failed; error_message = truncated m }
handle (failed_error m) = record { status = WorkerResult.failed; error_message = truncated m }
handle (other m) = record { status = WorkerResult.failed; error_message = truncated m }

abbrev pub settle : Outcome → ExecutionResult
settle (returned r) = r
settle (raised e) = handle e

unfoldable pub execute_cooperatively : Executor → Job → Context → ExecutionResult
execute_cooperatively executor job context =
    settle (raise_if_expired context 0 (executor job context))

abbrev pub system_event : EventType → Severity → Job → Details → Event
system_event type severity job details = record {
  event_type = type;
  severity = severity;
  service_id = some job.service_id;
  job_id = some job.id;
  actor_type = RequestedByType.system;
  actor_id = none;
  details = details;
}

abbrev pub running_status : JobAction → ServiceStatus
running_status start = ServiceStatus.starting
running_status stop = ServiceStatus.stopping

unfoldable pub record_job_started : Job → Db → Db
record_job_started job db =
    let db1 =
      record_event
        (system_event EventType.job_started Severity.info job (Details.action_only job.action))
        db in
    let db2 = update_service_status_row job.service_id (running_status job.action) db1 in
    record_event
      (system_event EventType.service_status_changed Severity.info job
        (Details.new_status (running_status job.action)))
      db2

abbrev pub final_service_status : JobAction → WorkerResult → ServiceStatus
final_service_status start WorkerResult.succeeded = ServiceStatus.on
final_service_status stop WorkerResult.succeeded = ServiceStatus.off
final_service_status _ WorkerResult.indeterminate = ServiceStatus.unknown
final_service_status _ WorkerResult.failed = ServiceStatus.error

abbrev pub result_event_type : WorkerResult → EventType
result_event_type WorkerResult.succeeded = EventType.job_succeeded
result_event_type WorkerResult.failed = EventType.job_failed
result_event_type WorkerResult.indeterminate = EventType.job_indeterminate

abbrev pub result_severity : WorkerResult → Severity
result_severity WorkerResult.succeeded = Severity.info
result_severity WorkerResult.failed = Severity.error
result_severity WorkerResult.indeterminate = Severity.warning

-- The difference of the two times, where both are set.
abbrev pub duration : Option ℕ → Option ℕ → Option ℕ
duration (some a) (some b) = some (b - a)
duration _ _ = none

abbrev pub finished_details : Bool → Job → ExecutionResult → WorkerMode → Details
finished_details false job r mode = Details.outcome job.action r.error_message
finished_details true job r mode =
    Details.outcome_debug job.action r.error_message mode (duration job.started_at job.finished_at)

unfoldable pub record_job_finished :
    Settings → Job → ExecutionResult → ServiceStatus → WorkerMode → Db → Db
record_job_finished s job r final mode db =
    let severity = result_severity r.status in
    record_event
      (system_event EventType.service_status_changed severity job (Details.new_status final))
      (record_event
        (system_event (result_event_type r.status) severity job
          (finished_details s.debug_events job r mode))
        db)

-- `Job(**row)`, which refuses a message of more than 2000 characters.
abbrev pub rendered : Option Message → Job → RunResult
rendered none job = ran job
rendered (some m) job = if ltb 2000 (length m) then unrenderable else ran job

-- What follows the execution.
unfoldable pub complete_job : Settings → ℕ → ExecutionResult → WorkerMode → ℕ → Db → Db × RunResult
complete_job s i r mode now db =
    let (db1, finished) = finish_running_job i r.status r.error_message now db in
    elim finished [
      | none ↦ (db1, conflict)
      | some job ↦
          let final = final_service_status job.action r.status in
          (
            record_job_finished s job r final mode
                (update_service_status_row job.service_id final db1),
            rendered job.error_message job,
          )
    ]

-- The deadline counts from the first reading of the clock; the context has the later ones.
abbrev pub context_of : Settings → Environment → Job → Context
context_of s e job = record {
  operation_id = job.operation_id;
  deadline = e.clock 0 + s.worker_execution_timeout_seconds;
  clock = λ k. e.clock (suc k);
}

unfoldable pub run_claimed_job :
    Settings → Environment → Job → Option WorkerMode → Option Executor → Db → Db × RunResult
run_claimed_job s e job mode executor db =
    let (selected_mode, selected) = select_executor s none none mode executor in
    let (db1, persisted) = ensure_running_job_operation_id job.id none e.uuid db in
    if not (is_running job.status) then (db, conflict) else elim persisted [
      | none ↦ (db1, conflict)
      | some p ↦
          complete_job s p.id (execute_cooperatively selected p (context_of s e p)) selected_mode
            e.finished_at (e.meanwhile (record_job_started p db1))
    ]

abbrev pub unclaimed : Option Job → RunResult
unclaimed none = not_found
unclaimed (some _) = conflict

-- `claimed_at` is now() at the claim, `claim_uuid` the UUID that the claim draws.
unfoldable pub run_job :
    Settings
    → Environment
    → ℕ
    → Text
    → ℕ
    → Option WorkerResult
    → Option Message
    → Option WorkerMode
    → Option Executor
    → Db
    → Db × RunResult
run_job s e claimed_at claim_uuid i result message mode executor db =
    let (db1, claimed) = claim_pending_job i claimed_at claim_uuid db in
    let (selected_mode, selected) = select_executor s result message mode executor in
    elim claimed [
      | none ↦ (db1, unclaimed (fetch_job_by_id i db1))
      | some job ↦ run_claimed_job s e job (some selected_mode) (some selected) db1
    ]

unfoldable pub run_simulated_job :
    Settings → Environment → ℕ → Text → ℕ → WorkerResult → Option Message → Db → Db × RunResult
run_simulated_job s e claimed_at claim_uuid i result message =
    run_job s e claimed_at claim_uuid i none none (some simulation)
      (some (simulation_executor result message))

unfoldable pub claim_next_job :
    Settings → Option ℕ → Option ℕ → ℕ → Text → (ℕ → Bool) → Db → Db × Option Job
claim_next_job s limit per_connection =
    claim_next_pending_job (or_default limit s.worker_max_concurrency)
      (or_default per_connection s.worker_max_concurrency_per_connection)

unfoldable pub run_next_pending_job :
    Settings → Environment → ℕ → Text → (ℕ → Bool) → Db → Db × Option RunResult
run_next_pending_job s e claimed_at claim_uuid locked db =
    let (db1, claimed) = claim_next_job s none none claimed_at claim_uuid locked db in
    elim claimed [
      | none ↦ (db1, none)
      | some job ↦ let (db2, result) = run_claimed_job s e job none none db1 in (db2, some result)
    ]
