-- ===== src/Backend/Jobs.antt =====
-- The job repository (backend/src/nodeconductor/repositories/jobs_repository.py). Every function
-- is one transaction under the row locks that it takes, and so one step on the database. `now` is
-- the value of now(), `uuid` that of uuid4(). The unique index on operation_id refuses only a UUID
-- that another job has; the theorems on the claims suppose that a drawn one is fresh (IsFresh).
pub mod Valid
pub mod Insert
pub mod Order
pub mod Capacity
pub mod System
pub mod Terminal
use node_conductor.Base.{
  ℕ, ◌+◌, Text, Bool, true, false, ◌&&◌, ◌||◌, not, Option, none, some, List, [], ◌∷◌, ◌++◌, ◌==◌,
  ltb, if◌then◌else◌, sql_eq, is_none, is_some, or_default,
}
use mathlib.Core.Option
use node_conductor.Table.{count_where, find_where, update_where, select_first}
use node_conductor.Backend.Schema.{
  JobAction, JobStatus, pending, running, cancelled, ServiceStatus, WorkerResult, RequestedByType,
  Message, Service, Job, Target, Binding, Db, DbError, unique_violation, foreign_key_violation,
  not_pilotable, Result, ok, err, same_service_status, is_pending, is_running, is_active,
  result_status,
}

-- The conditions of the WHERE clauses.
abbrev pub has_id : ℕ → Job → Bool
has_id i j = j.id == i

abbrev pub has_operation : Text → Job → Bool
has_operation u j = sql_eq j.operation_id (some u)

abbrev pub running_job : Job → Bool
running_job j = is_running j.status

abbrev pub pending_with_id : ℕ → Job → Bool
pending_with_id i j = j.id == i && is_pending j.status

abbrev pub running_with_id : ℕ → Job → Bool
running_with_id i j = j.id == i && is_running j.status

abbrev pub active_for_service : ℕ → Job → Bool
active_for_service s j = is_active j.status && j.service_id == s

abbrev pub active_for_target : ℕ → Job → Bool
active_for_target t j = is_active j.status && sql_eq j.target_id (some t)

-- The condition of `_fetch_active_job`.
abbrev pub active_for : ℕ → Option ℕ → Job → Bool
active_for s t j = is_active j.status && (j.service_id == s || sql_eq j.target_id t)

-- `ORDER BY created_at ASC, id ASC`
abbrev pub job_before : Job → Job → Bool
job_before a b = ltb a.created_at b.created_at || (a.created_at == b.created_at && ltb a.id b.id)

unfoldable pub fetch_job_by_id : ℕ → Db → Option Job
fetch_job_by_id i db = find_where (has_id i) db.jobs

unfoldable pub fetch_target_id : Db → ℕ → Option ℕ
fetch_target_id db s =
    Option.map (λ (b : Binding). b.target_id)
      (find_where (λ (b : Binding). b.service_id == s) db.bindings)

unfoldable pub target_row : Db → Option ℕ → Option Target
target_row db none = none
target_row db (some t) = find_where (λ (r : Target). r.id == t) db.targets

abbrev pub row_is_pilotable : Option Target → Bool
row_is_pilotable none = false
row_is_pilotable (some r) = r.is_pilotable

-- A service with no target may be acted on; a target must exist and be pilotable.
unfoldable pub target_is_pilotable : Db → Option ℕ → Bool
target_is_pilotable db t = is_none t || row_is_pilotable (target_row db t)

unfoldable pub fetch_active_job : Db → ℕ → Option ℕ → Option Job
fetch_active_job db s t = select_first job_before (active_for s t) db.jobs

unfoldable fetch_active_job_for_service : ℕ → Db → Option Job
fetch_active_job_for_service s db = fetch_active_job db s (fetch_target_id db s)

unfoldable fetch_next_pending_job : Db → Option Job
fetch_next_pending_job db = select_first job_before (λ (j : Job). is_pending j.status) db.jobs

abbrev pub new_job : ℕ → ℕ → Option ℕ → JobAction → RequestedByType → Option Text → ℕ → Job
new_job i s t action by_type by_id now = record {
  id = i;
  service_id = s;
  target_id = t;
  operation_id = none;
  action = action;
  status = pending;
  requested_by_type = by_type;
  requested_by_id = by_id;
  created_at = now;
  started_at = none;
  finished_at = none;
  error_message = none;
}

-- Whether a unique index on the active jobs refuses a new job of this service and this target.
unfoldable pub active_conflict : Db → ℕ → Option ℕ → Bool
active_conflict db s t =
    is_some (find_where (active_for_service s) db.jobs)
    || is_some (find_where (λ (j : Job). is_active j.status && sql_eq j.target_id t) db.jobs)

unfoldable pub find_service : ℕ → Db → Option Service
find_service s db = find_where (λ (r : Service). r.id == s) db.services

-- INSERT INTO jobs ... RETURNING, under the unique indexes and the reference to the service (the
-- one to the target holds, since the caller has found the target). A refused row has used up its number of the sequence.
unfoldable pub insert_job :
    Db → ℕ → Option ℕ → JobAction → RequestedByType → Option Text → ℕ → Db × Result Job
insert_job db s t action by_type by_id now =
    let job = new_job db.next_job_id s t action by_type by_id now in
    if active_conflict db s t
    then (record db { next_job_id = db.next_job_id + 1 }, err unique_violation)
    else if is_none (find_service s db)
    then (record db { next_job_id = db.next_job_id + 1 }, err foreign_key_violation)
    else (record db { jobs = db.jobs ++ (job ∷ []); next_job_id = db.next_job_id + 1 }, ok job)

-- The dictionary that `request_job_for_service_atomically` returns, by its `outcome`.
pub data RequestOutcome : Type 0 where
  missing : RequestOutcome
  target_not_pilotable : ServiceStatus → RequestOutcome
  active : ServiceStatus → Job → RequestOutcome
  state : ServiceStatus → RequestOutcome
  created : ServiceStatus → Job → RequestOutcome

abbrev pub created_outcome : ServiceStatus → Result Job → Result RequestOutcome
created_outcome st (ok j) = ok (created st j)
created_outcome st (err e) = err e

-- The part after the service's row is locked.
unfoldable pub request_for_row :
    Service
    → JobAction
    → ServiceStatus
    → RequestedByType
    → Option Text
    → ℕ
    → Db
    → Db × Result RequestOutcome
request_for_row service action required by_type by_id now db =
    let t = fetch_target_id db service.id in
    let (db', inserted) = insert_job db service.id t action by_type by_id now in
    if not (target_is_pilotable db t)
    then (db, ok (target_not_pilotable service.status))
    else elim (fetch_active_job db service.id t) [
      | some j ↦ (db, ok (active service.status j))
      | none ↦
          if not (same_service_status service.status required)
          then (db, ok (state service.status))
          else (db', created_outcome service.status inserted)
    ]

unfoldable pub request_job_for_service_atomically :
    ℕ
    → JobAction
    → ServiceStatus
    → RequestedByType
    → Option Text
    → ℕ
    → Db
    → Db × Result RequestOutcome
request_job_for_service_atomically s action required by_type by_id now db =
    elim (find_service s db) [
      | none ↦ (db, ok missing)
      | some service ↦ request_for_row service action required by_type by_id now db
    ]

unfoldable pub create_job_for_service :
    ℕ → JobAction → RequestedByType → Option Text → ℕ → Db → Db × Result Job
create_job_for_service s action by_type by_id now db =
    let t = fetch_target_id db s in
    if not (target_is_pilotable db t)
    then (db, err not_pilotable)
    else insert_job db s t action by_type by_id now

-- UPDATE jobs SET f WHERE p RETURNING, for a condition that holds the key.
unfoldable pub update_jobs : (Job → Bool) → (Job → Job) → Db → Db × Option Job
update_jobs p f db =
    (record db { jobs = update_where p f db.jobs }, Option.map f (find_where p db.jobs))

abbrev pub cancel_row : ℕ → Job → Job
cancel_row now j = record j { status = cancelled; finished_at = some now }

unfoldable pub cancel_pending_job : ℕ → ℕ → Db → Db × Option Job
cancel_pending_job i now db = update_jobs (pending_with_id i) (cancel_row now) db

abbrev pub claim_row : ℕ → Text → Job → Job
claim_row now uuid j = record j {
  status = running;
  started_at = some now;
  operation_id = some (or_default j.operation_id uuid);
}

abbrev pub identify_row : Text → Job → Job
identify_row uuid j = record j { operation_id = some (or_default j.operation_id uuid) }

unfoldable pub claim_pending_job : ℕ → ℕ → Text → Db → Db × Option Job
claim_pending_job i now uuid db = update_jobs (pending_with_id i) (claim_row now uuid) db

unfoldable pub ensure_running_job_operation_id : ℕ → Option Text → Text → Db → Db × Option Job
ensure_running_job_operation_id i candidate uuid db =
    update_jobs (running_with_id i) (identify_row (or_default candidate uuid)) db

unfoldable pub global_capacity_available : Db → ℕ → Bool
global_capacity_available db max_concurrency = ltb (count_where running_job db.jobs) max_concurrency

abbrev pub row_connection : Option Target → Option Text
row_connection none = none
row_connection (some r) = some r.connection_id

-- The connection of a job's target, NULL for a job with no target.
abbrev pub connection_of : Db → Job → Option Text
connection_of db j = row_connection (target_row db j.target_id)

-- The rows that the inner SELECT counts.
abbrev pub running_on : Db → Option Text → Job → Bool
running_on db c j = is_running j.status && sql_eq (connection_of db j) c

unfoldable pub connection_has_room : Db → ℕ → Job → Bool
connection_has_room db per_connection j =
    is_none (connection_of db j)
    || ltb (count_where (running_on db (connection_of db j)) db.jobs) per_connection

-- The WHERE clause of the candidate; `locked` says which rows another transaction holds.
unfoldable pub is_candidate : Db → ℕ → (ℕ → Bool) → Job → Bool
is_candidate db per_connection locked j =
    is_pending j.status
    && (is_none j.target_id || row_is_pilotable (target_row db j.target_id))
    && connection_has_room db per_connection j
    && not (locked j.id)

unfoldable pub claim_next_pending_job : ℕ → ℕ → ℕ → Text → (ℕ → Bool) → Db → Db × Option Job
claim_next_pending_job max_concurrency per_connection now uuid locked db =
    if not (global_capacity_available db max_concurrency)
    then (db, none)
    else elim (select_first job_before (is_candidate db per_connection locked) db.jobs) [
      | none ↦ (db, none)
      | some candidate ↦ update_jobs (pending_with_id candidate.id) (claim_row now uuid) db
    ]

abbrev pub finish_row : WorkerResult → Option Message → ℕ → Job → Job
finish_row result message now j = record j {
  status = result_status result;
  finished_at = some now;
  error_message = message;
}

unfoldable pub finish_running_job : ℕ → WorkerResult → Option Message → ℕ → Db → Db × Option Job
finish_running_job i result message now db =
    update_jobs (running_with_id i) (finish_row result message now) db
