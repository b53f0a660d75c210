-- ===== src/Backend/Worker/Ending.antt =====
-- How a run ends whose job is still running (`run_claimed_job` of services/jobs_worker.py).
use node_conductor.Base.{
  ℕ, ◌≤◌, ◌<◌, ◌-◌, ◌&&◌, ◌==◌, Bool, ap, if◌then◌else◌, inl, inr, Bool-cases, ltb, ◌≡◌, refl, true,
  false, Option, none, some, [], ◌∷◌, ◌++◌, arith, length,
}
use mathlib.Core.Option
use node_conductor.Table.{find_where, update_where}
use node_conductor.Backend.Schema.{
  WorkerMode, WorkerResult, Message, Job, JobAction, start, stop, JobStatus, ServiceStatus, Service,
  Severity, RequestedByType, result_status, EventType, Details, Db, is_running,
}
use node_conductor.Backend.Jobs.{running_with_id, update_jobs, finish_running_job, finish_row}
use node_conductor.Backend.Executors.{ExecutionResult}
use node_conductor.Backend.Worker.{
  Settings, RunResult, ran, unrenderable, rendered, duration, record_event,
  update_service_status_row, system_event, final_service_status, result_event_type, result_severity,
  finished_details, record_job_finished, complete_job,
}

-- The end of a run whose job is still running.
complete_running :
    (s : Settings) (i : ℕ) (r : ExecutionResult) (mode : WorkerMode) (now : ℕ) (db : Db) (j : Job)
    → find_where (running_with_id i) db.jobs ≡ some j
    → let j' = finish_row r.status r.error_message now j in
      let final = final_service_status j.action r.status in
      complete_job s i r mode now db ≡ (
        record_job_finished s j' r final mode (
            update_service_status_row j.service_id final
              (finish_running_job i r.status r.error_message now db).0),
        rendered r.error_message j',
      )
unfolding complete_job finish_running_job update_jobs
complete_running s i r mode now db j h = rw (h, complete_job)

-- How a result ends a job: the status of the job and of its service, and the event.
pub data EndsAs
    : JobAction → WorkerResult → JobStatus → ServiceStatus → EventType → Severity → Type 0 where
  start_succeeded :
      EndsAs start WorkerResult.succeeded JobStatus.succeeded ServiceStatus.on
        EventType.job_succeeded Severity.info
  stop_succeeded :
      EndsAs stop WorkerResult.succeeded JobStatus.succeeded ServiceStatus.off
        EventType.job_succeeded Severity.info
  any_failed :
      {a : JobAction}
      → EndsAs a WorkerResult.failed JobStatus.failed ServiceStatus.error EventType.job_failed
          Severity.error
  any_indeterminate :
      {a : JobAction}
      → EndsAs a WorkerResult.indeterminate JobStatus.indeterminate ServiceStatus.unknown
          EventType.job_indeterminate Severity.warning

end_of_result :
    (a : JobAction) (w : WorkerResult)
    → EndsAs a w
        (result_status w)
        (final_service_status a w)
        (result_event_type w)
        (result_severity w)
end_of_result start WorkerResult.succeeded = start_succeeded
end_of_result stop WorkerResult.succeeded = stop_succeeded
end_of_result start WorkerResult.failed = any_failed
end_of_result stop WorkerResult.failed = any_failed
end_of_result start WorkerResult.indeterminate = any_indeterminate
end_of_result stop WorkerResult.indeterminate = any_indeterminate

-- What a run returns for a job with this message.
pub data IsRendered (job : Job) : Option Message → RunResult → Type 0 where
  no_message : IsRendered job none (ran job)
  short : {m : Message} → length m ≤ 2000 → IsRendered job (some m) (ran job)
  long : {m : Message} → 2000 < length m → IsRendered job (some m) unrenderable

rendered-IsRendered : (job : Job) (o : Option Message) → IsRendered job o (rendered o job)
rendered-IsRendered job none = no_message
rendered-IsRendered job (some m) = elim (Bool-cases (ltb 2000 (length m))) [
  | inl e ↦ rw e (long (ground arith))
  | inr e ↦ rw e (short (ground arith))
]

-- The end of a run of the job `i`, with the row `j` before it.
pub record IsCompleted (s : Settings) (mode : WorkerMode) (now i : ℕ) (j : Job)
    (r : ExecutionResult) (before after : Db) (outcome : RunResult) : Type 0 where
  pub job_status : JobStatus
  pub service_status : ServiceStatus
  pub event_type : EventType
  pub severity : Severity
  pub ending : EndsAs j.action r.status job_status service_status event_type severity
  pub jobs :
      after.jobs
      ≡ update_where
          (λ (x : Job). x.id == i && is_running x.status)
          (λ (x : Job). record x {
            status = job_status;
            finished_at = some now;
            error_message = r.error_message;
          })
          before.jobs
  pub services :
      after.services
      ≡ update_where
          (λ (x : Service). x.id == j.service_id)
          (λ (x : Service). record x { status = service_status })
          before.services
  pub events :
      after.events
      ≡ (before.events
          ++ (record {
            event_type = event_type;
            severity = severity;
            service_id = some j.service_id;
            job_id = some j.id;
            actor_type = RequestedByType.system;
            actor_id = none;
            details =
                if s.debug_events
                then Details.outcome_debug j.action r.error_message mode
                    (Option.map (λ (t : ℕ). now - t) j.started_at)
                else Details.outcome j.action r.error_message;
          }
              ∷ []))
        ++ (record {
          event_type = EventType.service_status_changed;
          severity = severity;
          service_id = some j.service_id;
          job_id = some j.id;
          actor_type = RequestedByType.system;
          actor_id = none;
          details = Details.new_status service_status;
        }
            ∷ [])
  pub returned :
      IsRendered
        (record j { status = job_status; finished_at = some now; error_message = r.error_message })
        r.error_message
        outcome

duration_until :
    (o : Option ℕ) (now : ℕ) → duration o (some now) ≡ Option.map (λ (t : ℕ). now - t) o
duration_until none now = refl
duration_until (some t) now = refl

details_told :
    (b : Bool) (j : Job) (r : ExecutionResult) (mode : WorkerMode) (now : ℕ)
    → finished_details b (finish_row r.status r.error_message now j) r mode ≡ (
        if b
        then Details.outcome_debug j.action r.error_message mode
            (Option.map (λ (t : ℕ). now - t) j.started_at)
        else Details.outcome j.action r.error_message)
details_told false j r mode now = refl
details_told true j r mode now =
    ap (Details.outcome_debug j.action r.error_message mode) (duration_until j.started_at now)

pub complete_job-IsCompleted :
    (s : Settings) (i : ℕ) (r : ExecutionResult) (mode : WorkerMode) (now : ℕ) (db : Db) (j : Job)
    → find_where (running_with_id i) db.jobs ≡ some j
    → let (db', outcome) = complete_job s i r mode now db in
      IsCompleted s mode now i j r db db' outcome
unfolding finish_running_job update_jobs record_job_finished record_event update_service_status_row
complete_job-IsCompleted s i r mode now db j h =
    rw (complete_running s i r mode now db j h) (record {
      job_status = result_status r.status;
      service_status = final_service_status j.action r.status;
      event_type = result_event_type r.status;
      severity = result_severity r.status;
      ending = end_of_result j.action r.status;
      jobs = refl;
      services = refl;
      events =
          ap
            (λ d.
              (db.events
                ++ (system_event (result_event_type r.status) (result_severity r.status) j d ∷ []))
              ++ (system_event EventType.service_status_changed (result_severity r.status) j
                    (Details.new_status (final_service_status j.action r.status))
                  ∷ []))
            (details_told s.debug_events j r mode now);
      returned = rendered-IsRendered (finish_row r.status r.error_message now j) r.error_message;
    })
