-- ===== src/Backend/Schema.antt =====
-- The rows of the backend's PostgreSQL tables (infra/postgres/init/01_create_services.sql), with
-- the enumerations of backend/src/nodeconductor/schemas, and the database that holds them.
-- The message of an event is a rendering of its other columns and is left out; so are the
-- duration columns of a job, which stay NULL.
use node_conductor.Base.{ℕ, Text, Bool, true, false, Option, List}

pub data JobAction : Type 0 where
  start stop : JobAction

pub data JobStatus : Type 0 where
  pending running succeeded failed indeterminate cancelled : JobStatus

pub data ServiceStatus : Type 0 where
  on off error unknown starting stopping : ServiceStatus

-- `WorkerResult`, the part of `JobStatus` that an executor may return.
pub data WorkerResult : Type 0 where
  succeeded failed indeterminate : WorkerResult

pub data WorkerMode : Type 0 where
  simulation real : WorkerMode

pub data RequestedByType : Type 0 where
  web discord llm system unknown : RequestedByType

-- A text whose characters count: its code points.
abbrev pub Message : Type 0
Message = List ℕ

pub record Service : Type 0 where
  pub id : ℕ
  pub name : Text
  pub kind : Text
  pub category : Text
  pub description : Text
  pub status : ServiceStatus
  pub dependencies : Option (List ℕ)
  pub device_dependencies : Option (List ℕ)

pub record Job : Type 0 where
  pub id : ℕ
  pub service_id : ℕ
  pub target_id : Option ℕ
  pub operation_id : Option Text
  pub action : JobAction
  pub status : JobStatus
  pub requested_by_type : RequestedByType
  pub requested_by_id : Option Text
  pub created_at : ℕ
  pub started_at : Option ℕ
  pub finished_at : Option ℕ
  pub error_message : Option Message

-- The columns of `targets` that the jobs read.
pub record Target : Type 0 where
  pub id : ℕ
  pub connection_id : Text
  pub is_pilotable : Bool

pub record Binding : Type 0 where
  pub service_id : ℕ
  pub target_id : ℕ

pub data Severity : Type 0 where
  info warning error : Severity

pub data EventType : Type 0 where
  action_rejected job_requested job_cancelled job_started : EventType
  job_succeeded job_failed job_indeterminate service_status_changed : EventType
  service_created service_updated : EventType

pub data RejectReason : Type 0 where
  target_not_pilotable : RejectReason
  active_job : JobAction → RejectReason
  service_state : ServiceStatus → RejectReason

-- The JSON object in the column `details`. With the event level `debug` the end of a job also
-- tells the mode of the worker and how long it ran.
pub data Details : Type 0 where
  action_only : JobAction → Details
  rejection : JobAction → RejectReason → Details
  new_status : ServiceStatus → Details
  outcome : JobAction → Option Message → Details
  outcome_debug : JobAction → Option Message → WorkerMode → Option ℕ → Details
  service_name : Text → Details
  updated_fields : List Text → Details

pub record Event : Type 0 where
  pub event_type : EventType
  pub severity : Severity
  pub service_id : Option ℕ
  pub job_id : Option ℕ
  pub actor_type : RequestedByType
  pub actor_id : Option Text
  pub details : Details

-- The tables, and the next value of the sequence behind `jobs.id`. Events are in the order of
-- their insertion.
pub record Db : Type 0 where
  pub services : List Service
  pub targets : List Target
  pub bindings : List Binding
  pub jobs : List Job
  pub next_job_id : ℕ
  pub events : List Event

-- What a statement raises when a unique index or a reference refuses the row, or a value is refused.
pub data DbError : Type 0 where
  unique_violation foreign_key_violation not_pilotable : DbError

pub data Result {ℓ} (A : Type ℓ) : Type ℓ where
  ok : A → Result A
  err : DbError → Result A

abbrev pub same_action : JobAction → JobAction → Bool
same_action start start = true
same_action stop stop = true
same_action _ _ = false

abbrev pub same_service_status : ServiceStatus → ServiceStatus → Bool
same_service_status ServiceStatus.on ServiceStatus.on = true
same_service_status ServiceStatus.off ServiceStatus.off = true
same_service_status ServiceStatus.error ServiceStatus.error = true
same_service_status ServiceStatus.unknown ServiceStatus.unknown = true
same_service_status ServiceStatus.starting ServiceStatus.starting = true
same_service_status ServiceStatus.stopping ServiceStatus.stopping = true
same_service_status _ _ = false

abbrev pub is_pending : JobStatus → Bool
is_pending pending = true
is_pending _ = false

abbrev pub is_running : JobStatus → Bool
is_running running = true
is_running _ = false

abbrev pub is_cancelled : JobStatus → Bool
is_cancelled cancelled = true
is_cancelled _ = false

-- `status IN ('pending', 'running')`
abbrev pub is_active : JobStatus → Bool
is_active pending = true
is_active running = true
is_active _ = false

abbrev pub result_status : WorkerResult → JobStatus
result_status WorkerResult.succeeded = JobStatus.succeeded
result_status WorkerResult.failed = JobStatus.failed
result_status WorkerResult.indeterminate = JobStatus.indeterminate
