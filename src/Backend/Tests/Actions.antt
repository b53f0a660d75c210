-- ===== src/Backend/Tests/Actions.antt =====
-- Requests and cancellations on concrete tables.
use node_conductor.Base.{◌≡◌, refl, inr, ◌⊎◌, ◌++◌, none, some, [], ◌∷◌}
use node_conductor.Table.{find_where, select_first}
use node_conductor.Backend.Schema.{
  EventType, Severity, Details, start, stop, pending, ServiceStatus, web, discord, Job,
  RejectReason, Db,
}
use node_conductor.Backend.Jobs.{
  fetch_target_id, target_row, target_is_pilotable, fetch_active_job, find_service,
  claim_pending_job, new_job,
}
use node_conductor.Backend.Actions.{refused, RequestContext, response}
use node_conductor.Backend.Actions.Requests.{IsRejected, request, request_creates, request_refuses}
use node_conductor.Backend.Actions.Repeated.{second_request}
use node_conductor.Backend.Tests.{service, empty_db}

abbrev visitor : RequestContext
visitor = record { requested_by_type = web; requested_by_id = some 900 }

abbrev other : RequestContext
other = record { requested_by_type = discord; requested_by_id = none }

request_creates_example :
    ((request 1 start visitor 10 empty_db).0 ≡ record empty_db {
      jobs =
          []
          ++ (record {
            id = 1;
            service_id = 1;
            target_id = some 5;
            operation_id = none;
            action = start;
            status = pending;
            requested_by_type = web;
            requested_by_id = some 900;
            created_at = 10;
            started_at = none;
            finished_at = none;
            error_message = none;
          }
              ∷ []);
      next_job_id = 2;
      events =
          []
          ++ (record {
            event_type = EventType.job_requested;
            severity = Severity.info;
            service_id = some 1;
            job_id = some 1;
            actor_type = web;
            actor_id = some 900;
            details = Details.action_only start;
          }
              ∷ []);
    })
    × ((request 1 start visitor 10 empty_db).1
        ≡ response (record {
          job_id = some 1;
          service_id = 1;
          action = start;
          job_status = some pending;
          service_status = ServiceStatus.off;
          message = none;
        }))
unfolding find_service find_where fetch_target_id target_is_pilotable target_row fetch_active_job
    select_first
request_creates_example =
    request_creates 1 start visitor 10 empty_db (service 1 ServiceStatus.off) refl refl refl refl

request_refuses_example :
    ((request 1 stop visitor 10 empty_db).0 ≡ empty_db)
    ⊎ ((reason : RejectReason) × IsRejected 1 stop visitor 10 empty_db reason
          (request 1 stop visitor 10 empty_db))
unfolding find_service find_where
request_refuses_example =
    request_refuses 1 stop visitor 10 empty_db (service 1 ServiceStatus.off) refl (inr (inr refl))

second_request_example :
    let db' = (request 1 start visitor 10 empty_db).0 in
    request 1 stop other 12 db' ≡ (
      record db' {
        events =
            db'.events
            ++ (record {
              event_type = EventType.action_rejected;
              severity = Severity.warning;
              service_id = some 1;
              job_id = none;
              actor_type = discord;
              actor_id = none;
              details = Details.rejection stop (RejectReason.active_job start);
            }
                ∷ []);
      },
      refused (RejectReason.active_job start),
    )
unfolding find_service find_where fetch_target_id target_is_pilotable target_row fetch_active_job
    select_first
second_request_example =
    second_request 1 start visitor 10 empty_db (service 1 ServiceStatus.off) refl refl refl refl
      stop other 12

abbrev first_job : Job
first_job = new_job 1 1 (some 5) start web none 10

-- A worker that claims the first job.
abbrev claiming : Db → Db
claiming db = (claim_pending_job 1 20 77 db).0

abbrev idle : Db → Db
idle db = db
