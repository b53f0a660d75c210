-- ===== src/Backend/Actions.antt =====
-- The requests for a start or a stop, and what may be done with a job
-- (backend/src/nodeconductor/services/jobs.py).
pub mod Requests
pub mod Repeated
pub mod Cancel
use node_conductor.Base.{ℕ, Text, Bool, true, false, Option, none, some, List, not, if◌then◌else◌}
use node_conductor.Backend.Schema.{
  JobAction, start, stop, JobStatus, ServiceStatus, WorkerResult, RequestedByType, Message, Job,
  Severity, EventType, RejectReason, Details, Event, Db, Result, ok, err, same_action,
  same_service_status, is_pending, is_cancelled,
}
use node_conductor.Backend.Jobs.{
  RequestOutcome, missing, target_not_pilotable, active, state, created,
  request_job_for_service_atomically, fetch_job_by_id, cancel_pending_job,
}
use node_conductor.Backend.Worker.{
  Settings, Environment, RunResult, ran, conflict, not_found, unrenderable, record_event,
  system_event, run_simulated_job,
}

pub record RequestContext : Type 0 where
  pub requested_by_type : RequestedByType
  pub requested_by_id : Option Text

pub data ActionMessage : Type 0 where
  already_requested : JobAction → ActionMessage
  already_in : ServiceStatus → ActionMessage

pub record ActionResponse : Type 0 where
  pub job_id : Option ℕ
  pub service_id : ℕ
  pub action : JobAction
  pub job_status : Option JobStatus
  pub service_status : ServiceStatus
  pub message : Option ActionMessage

-- `None`, a response, `ServiceActionConflictError` with its reason, or an error of the database.
pub data ActionResult : Type 0 where
  no_service : ActionResult
  response : ActionResponse → ActionResult
  refused : RejectReason → ActionResult
  broken : ActionResult

abbrev pub rejected_event : ℕ → JobAction → RequestContext → RejectReason → Event
rejected_event s action context reason = record {
  event_type = EventType.action_rejected;
  severity = Severity.warning;
  service_id = some s;
  job_id = none;
  actor_type = context.requested_by_type;
  actor_id = context.requested_by_id;
  details = Details.rejection action reason;
}

abbrev pub requested_event : ℕ → JobAction → RequestContext → Job → Event
requested_event s action context job = record {
  event_type = EventType.job_requested;
  severity = Severity.info;
  service_id = some s;
  job_id = some job.id;
  actor_type = context.requested_by_type;
  actor_id = context.requested_by_id;
  details = Details.action_only action;
}

-- `_record_action_rejected`, then the exception.
abbrev pub reject : ℕ → JobAction → RequestContext → RejectReason → Db → Db × ActionResult
reject s action context reason db =
    (record_event (rejected_event s action context reason) db, refused reason)

-- What each outcome of the repository becomes.
unfoldable pub answer :
    ℕ → JobAction → ServiceStatus → RequestContext → Result RequestOutcome → Db → Db × ActionResult
answer s action satisfied context (err _) db = (db, broken)
answer s action satisfied context (ok missing) db = (db, no_service)
answer s action satisfied context (ok (target_not_pilotable _)) db =
    reject s action context RejectReason.target_not_pilotable db
answer s action satisfied context (ok (active st job)) db =
    if same_action job.action action
    then (
      db,
      response (record {
        job_id = some job.id;
        service_id = s;
        action = action;
        job_status = some job.status;
        service_status = st;
        message = some (already_requested action);
      }),
    )
    else reject s action context (RejectReason.active_job job.action) db
answer s action satisfied context (ok (state st)) db =
    if same_service_status st satisfied
    then (
      db,
      response (record {
        job_id = none;
        service_id = s;
        action = action;
        job_status = none;
        service_status = st;
        message = some (already_in satisfied);
      }),
    )
    else reject s action context (RejectReason.service_state st) db
answer s action satisfied context (ok (created st job)) db = (
  record_event (requested_event s action context job) db,
  response (record {
    job_id = some job.id;
    service_id = s;
    action = action;
    job_status = some job.status;
    service_status = st;
    message = none;
  }),
)

unfoldable pub request_service_action :
    ℕ → JobAction → ServiceStatus → ServiceStatus → RequestContext → ℕ → Db → Db × ActionResult
request_service_action s action required satisfied context now db =
    let (db1, outcome) =
      request_job_for_service_atomically s action required context.requested_by_type
        context.requested_by_id now db in
    answer s action satisfied context outcome db1

abbrev pub required_for : JobAction → ServiceStatus
required_for start = ServiceStatus.off
required_for stop = ServiceStatus.on

abbrev pub satisfied_by : JobAction → ServiceStatus
satisfied_by start = ServiceStatus.on
satisfied_by stop = ServiceStatus.off

unfoldable pub request_service_start : ℕ → RequestContext → ℕ → Db → Db × ActionResult
request_service_start s context =
    request_service_action s start (required_for start) (satisfied_by start) context

unfoldable pub request_service_stop : ℕ → RequestContext → ℕ → Db → Db × ActionResult
request_service_stop s context =
    request_service_action s stop (required_for stop) (satisfied_by stop) context

-- `None`, the job, `JobConflictError`, or a row that `Job` refuses.
pub data JobResult : Type 0 where
  no_job : JobResult
  job : Job → JobResult
  job_conflict : JobResult
  broken_job : JobResult

abbrev pub no_longer_pending : Option Job → JobResult
no_longer_pending none = no_job
no_longer_pending (some _) = job_conflict

abbrev pub cancelled_event : ℕ → Job → Event
cancelled_event i j =
    record (system_event EventType.job_cancelled Severity.info j (Details.action_only j.action)) {
      job_id = some i;
    }

-- `meanwhile` is what other transactions do between the look at the job and the UPDATE.
unfoldable pub cancel_job : ℕ → ℕ → (Db → Db) → Db → Db × JobResult
cancel_job i now meanwhile db =
    let (db1, cancelled) = cancel_pending_job i now (meanwhile db) in
    elim (fetch_job_by_id i db) [
      | none ↦ (db, no_job)
      | some j ↦
          if is_cancelled j.status
          then (db, job j)
          else if not (is_pending j.status)
          then (db, job_conflict)
          else elim cancelled [
            | none ↦ (db1, no_longer_pending (fetch_job_by_id i db1))
            | some c ↦ (record_event (cancelled_event i c) db1, job c)
          ]
    ]

abbrev pub as_job_result : RunResult → JobResult
as_job_result (ran j) = job j
as_job_result conflict = job_conflict
as_job_result not_found = no_job
as_job_result unrenderable = broken_job

unfoldable pub simulate_job_completion :
    Settings → Environment → ℕ → Text → ℕ → WorkerResult → Option Message → Db → Db × JobResult
simulate_job_completion s e claimed_at claim_uuid i result message db =
    let (db1, r) = run_simulated_job s e claimed_at claim_uuid i result message db in
    (db1, as_job_result r)
