-- ===== src/Backend/Tests.antt =====
-- The backend on concrete tables: the tables.
mod Jobs
mod Worker
mod Actions
mod Inventory
mod Targets
mod Synchronization
mod Loop
mod Catalogue
mod Client
use node_conductor.Base.{
  ℕ, Text, ◌≡◌, refl, inl, inr, ◌⊎◌, ◌≢◌, ◌≤◌, ◌++◌, Bool, true, false, Option, none, some, List,
  [], ◌∷◌, arith, All, length, if◌then◌else◌,
}
use mathlib.Core.List.{Memᴰ}
use mathlib.Core.Option
use node_conductor.Table.{count_where, find_where, update_where, select_first}
use node_conductor.Backend.Schema.{
  JobAction, start, stop, JobStatus, pending, running, cancelled, ServiceStatus, WorkerMode,
  simulation, real, WorkerResult, RequestedByType, web, discord, Message, Service, Job, Target,
  Binding, RejectReason, Details, EventType, Severity, Db, err, unique_violation, same_action,
}
use node_conductor.Backend.Jobs.{
  fetch_job_by_id, fetch_target_id, target_row, target_is_pilotable, fetch_active_job,
  active_conflict, insert_job, request_for_row, find_service, request_job_for_service_atomically,
  update_jobs, claim_pending_job, cancel_row, claim_row, ensure_running_job_operation_id,
  cancel_pending_job, global_capacity_available, connection_has_room, is_candidate,
  claim_next_pending_job, finish_row, finish_running_job, running_job, running_on, job_before,
  pending_with_id, running_with_id, new_job,
}
use node_conductor.Backend.Jobs.Valid.{IsValid, IsFresh, claim_next_pending_job-IsValid}
use node_conductor.Backend.Jobs.Insert.{request-IsValid, request_never_violates}
use node_conductor.Backend.Jobs.Order.{claim_next-oldest, claim_next-none}
use node_conductor.Backend.Jobs.Capacity.{claim_next-connection_capacity}
use node_conductor.Backend.Jobs.System.{
  Step, ManualStep, Reach, ManualReach, request, claim_next, cancel, automatic, claim, here, next,
  ManualReach-IsValid, Reach-capacity,
}
use node_conductor.Backend.Jobs.Terminal.{Follows, ended_stays, ManualStep-Follows}

abbrev pub service : ℕ → ServiceStatus → Service
service i st = record {
  id = i;
  name = 100;
  kind = 101;
  category = 102;
  description = 103;
  status = st;
  dependencies = none;
  device_dependencies = none;
}

-- Two services that are off, the first on a target that may be piloted.
abbrev pub empty_db : Db
empty_db = record {
  services = service 1 ServiceStatus.off ∷ service 2 ServiceStatus.off ∷ [];
  targets = record { id = 5; connection_id = 3; is_pilotable = true } ∷ [];
  bindings = record { service_id = 1; target_id = 5 } ∷ [];
  jobs = [];
  next_job_id = 1;
  events = [];
}

pub empty_db-IsValid : IsValid empty_db
unfolding count_where
empty_db-IsValid = record {
  ids_unique = λ i. omega arith;
  ids_below = λ n. refl;
  one_active_per_service = λ s. omega arith;
  one_active_per_target = λ t. omega arith;
  operations_unique = λ u. omega arith;
  shapes = tt;
}

abbrev pub nothing_locked : ℕ → Bool
nothing_locked i = false

-- A start of the first service, then one of the second.
abbrev pub one_job : Db
one_job = (request_job_for_service_atomically 1 start ServiceStatus.off web none 10 empty_db).0

abbrev pub two_jobs : Db
two_jobs = (request_job_for_service_atomically 2 start ServiceStatus.off web none 11 one_job).0

one_job-IsValid : IsValid one_job
one_job-IsValid = request-IsValid start ServiceStatus.off web none 10 empty_db 1 empty_db-IsValid

pub two_jobs-IsValid : IsValid two_jobs
two_jobs-IsValid = request-IsValid start ServiceStatus.off web none 11 one_job 2 one_job-IsValid

abbrev pub claimed_db : Db
claimed_db = (claim_next_pending_job 1 1 20 77 nothing_locked two_jobs).0

pub two_jobs-IsFresh : IsFresh 77 two_jobs
unfolding count_where request_job_for_service_atomically request_for_row find_service find_where
    fetch_target_id target_is_pilotable target_row fetch_active_job select_first insert_job
    active_conflict
two_jobs-IsFresh = refl
