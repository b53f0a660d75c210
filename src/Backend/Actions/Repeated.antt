-- ===== src/Backend/Actions/Repeated.antt =====
-- A second request while the job of the first is active (`_request_service_action` of
-- services/jobs.py).
use node_conductor.Base.{ℕ, ◌+◌, ◌≡◌, true, none, some, [], ◌∷◌, ◌++◌, if◌then◌else◌, arith}
use node_conductor.Table.First.{select_first-append}
use node_conductor.Backend.Schema.{
  JobAction, pending, RejectReason, EventType, Severity, Details, Service, Db, ok, same_action,
  same_service_status,
}
use node_conductor.Backend.Jobs.{
  active, find_service, fetch_target_id, target_is_pilotable, target_row, fetch_active_job,
  insert_job, active_for, job_before, request_for_row, request_job_for_service_atomically,
}
use node_conductor.Backend.Jobs.Insert.{known_service, no_conflict}
use node_conductor.Backend.Worker.{record_event}
use node_conductor.Backend.Actions.{
  RequestContext, already_requested, response, answer, refused, requested_event,
  request_service_action, required_for,
}
use node_conductor.Backend.Actions.Requests.{request, the_job}

module _ (s : ℕ) (a : JobAction) (first : RequestContext) (now : ℕ) (db : Db) (service : Service)
    (found : find_service s db ≡ some service)
    (fine : target_is_pilotable db (fetch_target_id db service.id) ≡ true)
    (idle : fetch_active_job db service.id (fetch_target_id db service.id) ≡ none)
    (right : same_service_status service.status (required_for a) ≡ true) where
  abbrev after : Db
  after = record db {
    jobs = db.jobs ++ (the_job s a first now db service.id ∷ []);
    next_job_id = db.next_job_id + 1;
    events = db.events ++ (requested_event s a first (the_job s a first now db service.id) ∷ []);
  }

  first_request : (request s a first now db).0 ≡ after
  unfolding request_service_action request_job_for_service_atomically request_for_row insert_job
      answer record_event
  first_request =
      rw (found, request_job_for_service_atomically)
        (rw (
          fine,
          idle,
          right,
          no_conflict a (required_for a) first.requested_by_type first.requested_by_id now db
              service.id (fetch_target_id db service.id) idle,
          known_service s db service found,
        ))

  now_active :
      fetch_active_job after service.id (fetch_target_id db service.id)
      ≡ some (the_job s a first now db service.id)
  unfolding fetch_active_job
  now_active =
      select_first-append job_before (active_for service.id (fetch_target_id db service.id)) db.jobs
        (the_job s a first now db service.id) idle (ground arith)

  found_again : find_service s after ≡ some service
  unfolding find_service
  found_again = found

  fine_again : target_is_pilotable after (fetch_target_id db service.id) ≡ true
  unfolding target_is_pilotable target_row
  fine_again = fine

  second_row :
      (a2 : JobAction) (second : RequestContext) (later : ℕ)
      → request_job_for_service_atomically s a2
          (required_for a2)
          second.requested_by_type
          second.requested_by_id
          later
          after
        ≡ (after, ok (active service.status (the_job s a first now db service.id)))
  unfolding request_job_for_service_atomically request_for_row fetch_target_id
  second_row a2 second later =
      rw (found_again, request_job_for_service_atomically) (rw (fine_again, now_active))

  -- A second request for the same service, by anyone and at any time, that finds the database as the
  -- request before it left it when it created a job, creates none: for the same action it answers
  -- with the first one's job and changes nothing, for the other it is rejected because of that job,
  -- with a warning in the events and nothing else.
  pub second_request :
      (a2 : JobAction) (second : RequestContext) (later : ℕ)
      → let db' = (request s a first now db).0 in
        request s a2 second later db' ≡ (
          if same_action a a2
          then (
            db',
            response (record {
              job_id = some db.next_job_id;
              service_id = s;
              action = a2;
              job_status = some pending;
              service_status = service.status;
              message = some (already_requested a2);
            }),
          )
          else (
            record db' {
              events =
                  db'.events
                  ++ (record {
                    event_type = EventType.action_rejected;
                    severity = Severity.warning;
                    service_id = some s;
                    job_id = none;
                    actor_type = second.requested_by_type;
                    actor_id = second.requested_by_id;
                    details = Details.rejection a2 (RejectReason.active_job a);
                  }
                      ∷ []);
            },
            refused (RejectReason.active_job a),
          ))
  unfolding request_service_action answer record_event
  second_request a2 second later = rw first_request (rw (second_row a2 second later))
