-- ===== src/Backend/Actions/Requests.antt =====
-- When a request creates a job (`_request_service_action` of services/jobs.py).
use node_conductor.Base.{
  ℕ, ◌+◌, ◌≡◌, refl, ◌≢◌, ◌⊎◌, inl, inr, Bool, true, false, none, some, [], ◌∷◌, ◌++◌, arith,
  Bool-cases, Option-cases,
}
use node_conductor.Backend.Schema.{
  JobAction, pending, RejectReason, EventType, Severity, Details, Service, Job, Db, ok, same_action,
  same_service_status,
}
use node_conductor.Backend.Jobs.{
  RequestOutcome, missing, target_not_pilotable, active, state, created, find_service,
  fetch_target_id, target_is_pilotable, fetch_active_job, insert_job, new_job, request_for_row,
  request_job_for_service_atomically,
}
use node_conductor.Backend.Jobs.Insert.{known_service, no_conflict}
use node_conductor.Backend.Worker.{record_event}
use node_conductor.Backend.Actions.{
  RequestContext, ActionResult, response, refused, answer, request_service_action, required_for,
  satisfied_by,
}

-- The same request, whatever the action.
abbrev pub request : ℕ → JobAction → RequestContext → ℕ → Db → Db × ActionResult
request s a context now db =
    request_service_action s a (required_for a) (satisfied_by a) context now db

abbrev is_created : RequestOutcome → Bool
is_created (created _ _) = true
is_created _ = false

module _ (s : ℕ) (a : JobAction) (context : RequestContext) (now : ℕ) (db : Db) where
  abbrev pub the_job : ℕ → Job
  the_job i =
      new_job db.next_job_id i (fetch_target_id db i) a context.requested_by_type
        context.requested_by_id now

  -- A request whose service exists, has the status that the action starts from, a target that may
  -- be piloted (or none) and no active job creates one pending job, with the next number, for that
  -- service and the target it is bound to, with the action and the requester; records one event of
  -- the request; changes no other table; and answers with the job.
  pub request_creates :
      (service : Service)
      → find_service s db ≡ some service
      → target_is_pilotable db (fetch_target_id db service.id) ≡ true
      → fetch_active_job db service.id (fetch_target_id db service.id) ≡ none
      → same_service_status service.status (required_for a) ≡ true
      → ((request s a context now db).0 ≡ record db {
        jobs =
            db.jobs
            ++ (record {
              id = db.next_job_id;
              service_id = service.id;
              target_id = fetch_target_id db service.id;
              operation_id = none;
              action = a;
              status = pending;
              requested_by_type = context.requested_by_type;
              requested_by_id = context.requested_by_id;
              created_at = now;
              started_at = none;
              finished_at = none;
              error_message = none;
            }
                ∷ []);
        next_job_id = db.next_job_id + 1;
        events =
            db.events
            ++ (record {
              event_type = EventType.job_requested;
              severity = Severity.info;
              service_id = some s;
              job_id = some db.next_job_id;
              actor_type = context.requested_by_type;
              actor_id = context.requested_by_id;
              details = Details.action_only a;
            }
                ∷ []);
      })
        × ((request s a context now db).1
            ≡ response (record {
              job_id = some db.next_job_id;
              service_id = s;
              action = a;
              job_status = some pending;
              service_status = service.status;
              message = none;
            }))
  unfolding request_service_action request_job_for_service_atomically request_for_row insert_job
      answer record_event
  request_creates service found fine idle right =
      rw (found, request_job_for_service_atomically)
        (rw
          (
            fine,
            idle,
            right,
            no_conflict a (required_for a) context.requested_by_type context.requested_by_id now db
                service.id (fetch_target_id db service.id) idle,
            known_service s db service found,
          )
          (refl, refl))

  -- The exception with this reason, and a database with one warning more that names it, by the
  -- requester, and no other change.
  abbrev pub IsRejected : RejectReason → Db × ActionResult → Type 0
  IsRejected reason (db', result) =
      (db' ≡ record db {
        events =
            db.events
            ++ (record {
              event_type = EventType.action_rejected;
              severity = Severity.warning;
              service_id = some s;
              job_id = none;
              actor_type = context.requested_by_type;
              actor_id = context.requested_by_id;
              details = Details.rejection a reason;
            }
                ∷ []);
      })
      × (result ≡ refused reason)

  -- An outcome other than `created` writes at most the event of a rejection.
  refusing_answer :
      (o : RequestOutcome)
      → is_created o ≡ false
      → (((answer s a (satisfied_by a) context (ok o) db).0 ≡ db)
          ⊎ ((reason : RejectReason) × IsRejected reason
                (answer s a (satisfied_by a) context (ok o) db)))
  unfolding answer record_event
  refusing_answer missing h = inl refl
  refusing_answer (target_not_pilotable st) h =
      inr (RejectReason.target_not_pilotable, (refl, refl))
  refusing_answer (active st j) h = elim (Bool-cases (same_action j.action a)) [
    | inl same ↦ inl (rw same)
    | inr other ↦ inr (RejectReason.active_job j.action, rw other (refl, refl))
  ]
  refusing_answer (state st) h = elim (Bool-cases (same_service_status st (satisfied_by a))) [
    | inl same ↦ inl (rw same)
    | inr other ↦ inr (RejectReason.service_state st, rw other (refl, refl))
  ]
  refusing_answer (created st j) h = absurd cc

  refusing_row :
      (service : Service)
      → (target_is_pilotable db (fetch_target_id db service.id) ≡ false)
        ⊎ (fetch_active_job db service.id (fetch_target_id db service.id) ≢ none)
        ⊎ (same_service_status service.status (required_for a) ≡ false)
      → (o : RequestOutcome) × (is_created o ≡ false)
        × (request_for_row service a
              (required_for a)
              context.requested_by_type
              context.requested_by_id
              now
              db
            ≡ (db, ok o))
  unfolding request_for_row
  refusing_row service why =
      elim (Bool-cases (target_is_pilotable db (fetch_target_id db service.id))) [
        | inr no_pilot ↦ (target_not_pilotable service.status, refl, rw no_pilot)
        | inl pilot ↦
            elim (Option-cases (fetch_active_job db service.id (fetch_target_id db service.id))) [
              | inr (j, busy) ↦ (active service.status j, refl, rw (pilot, busy))
              | inl idle ↦
                  (state service.status, refl, rw (pilot, idle, wrong_status why pilot idle))
            ]
      ]
    where
      wrong_status :
          (target_is_pilotable db (fetch_target_id db service.id) ≡ false)
            ⊎ (fetch_active_job db service.id (fetch_target_id db service.id) ≢ none)
            ⊎ (same_service_status service.status (required_for a) ≡ false)
          → target_is_pilotable db (fetch_target_id db service.id) ≡ true
          → fetch_active_job db service.id (fetch_target_id db service.id) ≡ none
          → same_service_status service.status (required_for a) ≡ false
      wrong_status (inl no_pilot) pilot idle = absurd (ground arith)
      wrong_status (inr (inl busy)) pilot idle = absurd (busy idle)
      wrong_status (inr (inr wrong)) pilot idle = wrong

  -- A request for a service whose target may not be piloted, or that has an active job (its own or
  -- its target's), or that is in another status than the action starts from, creates no job: the
  -- database stays as it is, or the request reports a rejection and the only change is one event, a
  -- warning by the requester with the reason that is reported.
  pub request_refuses :
      (service : Service)
      → find_service s db ≡ some service
      → (target_is_pilotable db (fetch_target_id db service.id) ≡ false)
        ⊎ (fetch_active_job db service.id (fetch_target_id db service.id) ≢ none)
        ⊎ (same_service_status service.status (required_for a) ≡ false)
      → (((request s a context now db).0 ≡ db)
          ⊎ ((reason : RejectReason) × IsRejected reason (request s a context now db)))
  unfolding request_service_action request_job_for_service_atomically
  request_refuses service found why =
      let (o, plain, e) = refusing_row service why in
      rw (found, request_job_for_service_atomically) (rw e (refusing_answer o plain))
