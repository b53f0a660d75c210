-- ===== src/Backend/Jobs/Insert.antt =====
-- The insertion of a job under the unique indexes (`create_job_for_service` and
-- `request_job_for_service_atomically` of jobs_repository.py).
use node_conductor.Base.{
  ℕ, suc, ◌+◌, ◌≡◌, refl, ◌≢◌, ◌⊎◌, inl, inr, Text, false, Option, none, some, is_none, ◌==◌,
  ==_iff, [], ◌∷◌, ◌++◌, arith, All-append, Bool-cases, Option-cases, ◌&&◌, sql_eq,
}
use node_conductor.Table.Count.{
  count-append, count-zero_of_find, count-zero_of_select_first, count_mono, find-none_of_count,
}
use node_conductor.Table.Rows.{find_passes}
use node_conductor.Backend.Schema.{
  JobAction, ServiceStatus, RequestedByType, Service, Job, Db, err, unique_violation, is_active,
}
use node_conductor.Backend.Jobs.{
  has_id, has_operation, active_for_service, active_for_target, active_for, new_job,
  active_conflict, insert_job, request_for_row, request_job_for_service_atomically,
  create_job_for_service, fetch_target_id, target_is_pilotable, fetch_active_job, find_service,
  job_before,
}
use node_conductor.Backend.Jobs.Valid.{IsValid, unused_id, HasShape}

module _ (db : Db) (s : ℕ) (t : Option ℕ) (action : JobAction) (by_type : RequestedByType)
    (by_id : Option Text) (now : ℕ) (v : IsValid db) where
  -- A job that no index refuses keeps the invariant.
  inserted-IsValid :
      active_conflict db s t ≡ false
      → IsValid (record db {
        jobs = db.jobs ++ (new_job db.next_job_id s t action by_type by_id now ∷ []);
        next_job_id = db.next_job_id + 1;
      })
  unfolding active_conflict
  inserted-IsValid free = record {
    ids_unique =
        λ i. ground (arith, count-append (has_id i) db.jobs job, v.ids_unique i, unused_id db i v);
    ids_below = λ n. ground (
      arith,
      count-append (has_id (suc db.next_job_id + n)) db.jobs job,
      unused_id db (db.next_job_id + 1 + n) v,
    );
    one_active_per_service = λ k. ground (
      arith,
      count-append (active_for_service k) db.jobs job,
      v.one_active_per_service k,
      count-zero_of_find (active_for_service s) db.jobs,
    );
    one_active_per_target = λ k. ground (
      arith,
      count-append (active_for_target k) db.jobs job,
      v.one_active_per_target k,
      count-zero_of_find (active_for_target k) db.jobs,
    );
    operations_unique =
        λ u. ground (arith, count-append (has_operation u) db.jobs job, v.operations_unique u);
    shapes = All-append HasShape db.jobs (job ∷ []) v.shapes (refl, tt);
  }
    where
      job : Job
      job = new_job db.next_job_id s t action by_type by_id now

  refused-IsValid : IsValid (record db { next_job_id = db.next_job_id + 1 })
  refused-IsValid = record {
    ids_unique = v.ids_unique;
    ids_below = λ n. unused_id db (db.next_job_id + 1 + n) v (omega arith);
    one_active_per_service = v.one_active_per_service;
    one_active_per_target = v.one_active_per_target;
    operations_unique = v.operations_unique;
    shapes = v.shapes;
  }

  pub insert_job-IsValid : IsValid (insert_job db s t action by_type by_id now).0
  unfolding insert_job
  insert_job-IsValid = elim (Bool-cases (active_conflict db s t)) [
    | inl taken ↦ rw taken refused-IsValid
    | inr free ↦ elim (Bool-cases (is_none (find_service s db))) [
      | inl nobody ↦ rw (free, nobody) refused-IsValid
      | inr known ↦ rw (free, known) (inserted-IsValid free)
    ]
  ]

-- A service that was found by an id is found by its own id.
pub known_service :
    (s : ℕ) (db : Db) (service : Service)
    → find_service s db ≡ some service
    → is_none (find_service service.id db) ≡ false
unfolding find_service
known_service s db service found =
    let same : service.id ≡ s =
      (==_iff service.id s).0
        (find_passes (λ (r : Service). r.id == s) db.services service found) in
    rw (same, found) refl

pub create_job_for_service-IsValid :
    (s : ℕ) (action : JobAction) (by_type : RequestedByType) (by_id : Option Text) (now : ℕ)
    (db : Db)
    → IsValid db
    → IsValid (create_job_for_service s action by_type by_id now db).0
unfolding create_job_for_service
create_job_for_service-IsValid s action by_type by_id now db v =
    elim (Bool-cases (target_is_pilotable db (fetch_target_id db s))) [
      | inl fine ↦
          rw fine (insert_job-IsValid db s (fetch_target_id db s) action by_type by_id now v)
      | inr refused ↦ rw refused v
    ]

module _ (action : JobAction) (required : ServiceStatus) (by_type : RequestedByType)
    (by_id : Option Text) (now : ℕ) (db : Db) where
  -- A request leaves the database alone or inserts one job.
  pub request_for_row-cases :
      (service : Service)
      → ((request_for_row service action required by_type by_id now db).0 ≡ db)
        ⊎ ((request_for_row service action required by_type by_id now db).0
            ≡ (insert_job db service.id (fetch_target_id db service.id) action by_type by_id now).0)
  unfolding request_for_row
  request_for_row-cases service = ground arith

  pub request-cases :
      (s : ℕ)
      → ((request_job_for_service_atomically s action required by_type by_id now db).0 ≡ db)
        ⊎ ((i : ℕ) × ((request_job_for_service_atomically s action required by_type by_id now db).0
              ≡ (insert_job db i (fetch_target_id db i) action by_type by_id now).0))
  unfolding request_job_for_service_atomically
  request-cases s = elim (Option-cases (find_service s db)) [
    | inl nobody ↦ inl (rw (nobody, request_job_for_service_atomically))
    | inr (service, e) ↦
        rw (e, request_job_for_service_atomically)
          (elim (request_for_row-cases service) [
            | inl same ↦ inl same
            | inr new ↦ inr (service.id, new)
          ])
  ]

  pub request-IsValid :
      (s : ℕ)
      → IsValid db
      → IsValid (request_job_for_service_atomically s action required by_type by_id now db).0
  request-IsValid s v = elim (request-cases s) [
    | inl same ↦ rw same v
    | inr (i, e) ↦ rw e (insert_job-IsValid db i (fetch_target_id db i) action by_type by_id now v)
  ]

  -- With no active job of the service or of its target no index refuses the insertion.
  pub no_conflict :
      (s : ℕ) (t : Option ℕ) → fetch_active_job db s t ≡ none → active_conflict db s t ≡ false
  unfolding fetch_active_job active_conflict
  no_conflict s t h = ground (
    arith,
    count-zero_of_select_first job_before (active_for s t) db.jobs h,
    count_mono (active_for_service s) (active_for s t) db.jobs (λ j e. ground arith),
    count_mono (λ (j : Job). is_active j.status && sql_eq j.target_id t) (active_for s t) db.jobs
        (λ j e. ground arith),
    find-none_of_count (active_for_service s) db.jobs,
    find-none_of_count (λ (j : Job). is_active j.status && sql_eq j.target_id t) db.jobs,
  )

  -- The atomic request never fails on a unique index.
  pub request_never_violates :
      (s : ℕ)
      → (request_job_for_service_atomically s action required by_type by_id now db).1
        ≢ err unique_violation
  unfolding request_job_for_service_atomically request_for_row insert_job
  request_never_violates s = elim (Option-cases (find_service s db)) [
    | inl nobody ↦ rw (nobody, request_job_for_service_atomically) (λ e. cc)
    | inr (service, e) ↦
        rw (e, request_job_for_service_atomically)
          (ground (arith, no_conflict service.id (fetch_target_id db service.id)))
  ]
