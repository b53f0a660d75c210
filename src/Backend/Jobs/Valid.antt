-- ===== src/Backend/Jobs/Valid.antt =====
-- The invariant of the table `jobs`, under the transactions of jobs_repository.py.
use node_conductor.Base.{
  ℕ, ◌+◌, ◌-◌, subst, ◌≤◌, ◌<◌, ◌≡◌, refl, ◌⊎◌, inl, inr, Text, Bool, true, false, Option, some,
  arith, All, ◌==◌, is_some, ltb, or_default, Bool-cases, Option-cases, ==_iff,
}
use node_conductor.Table.{count_where, update_where, select_first}
use node_conductor.Table.Count.{count-update_le, count-update_add, count-update_eq, count_mono}
use node_conductor.Table.Rows.{All-update}
use node_conductor.Backend.Schema.{
  JobStatus, pending, running, succeeded, failed, indeterminate, cancelled, WorkerResult, Message,
  Job, Db, is_active,
}
use node_conductor.Backend.Jobs.{
  has_id, has_operation, pending_with_id, running_with_id, active_for_service, active_for_target,
  update_jobs, cancel_row, cancel_pending_job, claim_row, identify_row, claim_pending_job,
  ensure_running_job_operation_id, claim_next_pending_job, finish_row, finish_running_job,
  global_capacity_available, is_candidate, job_before, running_job,
}

-- Which of the columns operation_id, started_at and finished_at are set, by the status.
abbrev pub shape : JobStatus → Bool → Bool → Bool → Bool
shape pending _ false false = true
shape running true true false = true
shape succeeded true true true = true
shape failed true true true = true
shape indeterminate true true true = true
shape cancelled _ false true = true
shape _ _ _ _ = false

abbrev pub HasShape : Job → Type 0
HasShape j =
    shape j.status (is_some j.operation_id) (is_some j.started_at) (is_some j.finished_at) ≡ true

-- The unique keys and indexes of the table, the sequence, and the shape of every row.
pub record IsValid (db : Db) : Type 0 where
  pub ids_unique : (i : ℕ) → count_where (has_id i) db.jobs ≤ 1
  pub ids_below : (n : ℕ) → count_where (has_id (db.next_job_id + n)) db.jobs ≡ 0
  pub one_active_per_service : (s : ℕ) → count_where (active_for_service s) db.jobs ≤ 1
  pub one_active_per_target : (t : ℕ) → count_where (active_for_target t) db.jobs ≤ 1
  pub operations_unique : (u : Text) → count_where (has_operation u) db.jobs ≤ 1
  pub shapes : All HasShape db.jobs

-- An id that the sequence has not given out yet names no job.
pub unused_id :
    (db : Db) (i : ℕ) → IsValid db → db.next_job_id ≤ i → count_where (has_id i) db.jobs ≡ 0
unused_id db i v h =
    subst (λ n. count_where (has_id n) db.jobs ≡ 0) (omega arith) (v.ids_below (i - db.next_job_id))

-- No job has this operation id yet, as for a value that uuid4() has just drawn.
abbrev pub IsFresh : Text → Db → Type 0
IsFresh u db = count_where (has_operation u) db.jobs ≡ 0

-- What an UPDATE on the rows that pass `p` must respect.
pub record Respects (p : Job → Bool) (f : Job → Job) : Type 0 where
  pub same_id : (j : Job) → (f j).id ≡ j.id
  pub same_service : (j : Job) → (f j).service_id ≡ j.service_id
  pub same_target : (j : Job) → (f j).target_id ≡ j.target_id
  pub still_active :
      (j : Job) → p j ≡ true → is_active (f j).status ≡ true → is_active j.status ≡ true
  pub still_shaped : (j : Job) → p j ≡ true → HasShape j → HasShape (f j)

module _ (p : Job → Bool) (f : Job → Job) (db : Db) (r : Respects p f) (v : IsValid db) where
  -- All of the invariant but the operation ids.
  pub update_jobs-IsValid :
      ((u : Text) → count_where (has_operation u) (update_where p f db.jobs) ≤ 1)
      → IsValid (update_jobs p f db).0
  unfolding update_jobs
  update_jobs-IsValid ops = record {
    ids_unique = λ i. omega (arith, v.ids_unique i, ids i);
    ids_below = λ n. omega (arith, v.ids_below n, ids (db.next_job_id + n));
    one_active_per_service = λ s. omega (arith, v.one_active_per_service s, services s);
    one_active_per_target = λ t. omega (arith, v.one_active_per_target t, targets t);
    operations_unique = ops;
    shapes = All-update HasShape p f db.jobs r.still_shaped v.shapes;
  }
    where
      ids :
          (i : ℕ)
          → count_where (has_id i) (update_where p f db.jobs) ≤ count_where (has_id i) db.jobs
      ids i = count-update_le (has_id i) p f db.jobs (λ j _ h. rw (r.same_id j) at h)

      services :
          (s : ℕ)
          → count_where (active_for_service s) (update_where p f db.jobs)
            ≤ count_where (active_for_service s) db.jobs
      services s =
          count-update_le (active_for_service s) p f db.jobs
            (λ j e h. ground (arith, r.same_service j, r.still_active j e))

      targets :
          (t : ℕ)
          → count_where (active_for_target t) (update_where p f db.jobs)
            ≤ count_where (active_for_target t) db.jobs
      targets t =
          count-update_le (active_for_target t) p f db.jobs
            (λ j e h. ground (arith, r.same_target j, r.still_active j e))

-- An update that leaves the operation ids alone.
keeps_operations :
    (p : Job → Bool) (f : Job → Job) (db : Db)
    → ((j : Job) → (f j).operation_id ≡ j.operation_id)
    → IsValid db
    → (u : Text) → count_where (has_operation u) (update_where p f db.jobs) ≤ 1
keeps_operations p f db same v u =
    omega (
      arith,
      v.operations_unique u,
      count-update_eq (has_operation u) p f db.jobs (λ j. rw (same j)),
    )

-- An update of at most one row that gives a fresh operation id to a row that has none.
identifies_once :
    (p : Job → Bool) (f : Job → Job) (uuid : Text) (i : ℕ) (db : Db)
    → ((j : Job) → (f j).operation_id ≡ some (or_default j.operation_id uuid))
    → ((j : Job) → p j ≡ true → has_id i j ≡ true)
    → IsFresh uuid db
    → IsValid db
    → (u : Text) → count_where (has_operation u) (update_where p f db.jobs) ≤ 1
identifies_once p f uuid i db same key fresh v u = elim (Bool-cases (uuid == u)) [
  | inl e ↦ omega (
    arith,
    rw ((==_iff uuid u).0 e) at fresh,
    count-update_add (has_operation u) p f db.jobs,
    count_mono p (has_id i) db.jobs key,
    v.ids_unique i,
  )
  | inr n ↦ omega (
    arith,
    v.operations_unique u,
    count-update_le (has_operation u) p f db.jobs (λ j e h. ground (arith, same j)),
  )
]

cancel_row-Respects : (i now : ℕ) → Respects (pending_with_id i) (cancel_row now)
cancel_row-Respects i now = record {
  same_id = λ j. refl;
  same_service = λ j. refl;
  same_target = λ j. refl;
  still_active = λ j p a. cc;
  still_shaped = λ j p s. ground arith;
}

claim_row-Respects : (i now : ℕ) (uuid : Text) → Respects (pending_with_id i) (claim_row now uuid)
claim_row-Respects i now uuid = record {
  same_id = λ j. refl;
  same_service = λ j. refl;
  same_target = λ j. refl;
  still_active = λ j p a. ground arith;
  still_shaped = λ j p s. ground arith;
}

identify_row-Respects : (i : ℕ) (uuid : Text) → Respects (running_with_id i) (identify_row uuid)
identify_row-Respects i uuid = record {
  same_id = λ j. refl;
  same_service = λ j. refl;
  same_target = λ j. refl;
  still_active = λ j p a. ground arith;
  still_shaped = λ j p s. ground arith;
}

finish_row-Respects :
    (i : ℕ) (result : WorkerResult) (message : Option Message) (now : ℕ)
    → Respects (running_with_id i) (finish_row result message now)
finish_row-Respects i result message now = record {
  same_id = λ j. refl;
  same_service = λ j. refl;
  same_target = λ j. refl;
  still_active = λ j p a. ground arith;
  still_shaped = λ j p s. ground arith;
}

pub cancel_pending_job-IsValid :
    (i now : ℕ) (db : Db) → IsValid db → IsValid (cancel_pending_job i now db).0
unfolding cancel_pending_job
cancel_pending_job-IsValid i now db v =
    update_jobs-IsValid (pending_with_id i) (cancel_row now) db (cancel_row-Respects i now) v
      (keeps_operations (pending_with_id i) (cancel_row now) db (λ j. refl) v)

pub finish_running_job-IsValid :
    (i : ℕ) (result : WorkerResult) (message : Option Message) (now : ℕ) (db : Db)
    → IsValid db
    → IsValid (finish_running_job i result message now db).0
unfolding finish_running_job
finish_running_job-IsValid i result message now db v =
    update_jobs-IsValid (running_with_id i) (finish_row result message now) db
      (finish_row-Respects i result message now) v
      (keeps_operations (running_with_id i) (finish_row result message now) db (λ j. refl) v)

pub claim_pending_job-IsValid :
    (i now : ℕ) (uuid : Text) (db : Db)
    → IsFresh uuid db
    → IsValid db
    → IsValid (claim_pending_job i now uuid db).0
unfolding claim_pending_job
claim_pending_job-IsValid i now uuid db fresh v =
    update_jobs-IsValid (pending_with_id i) (claim_row now uuid) db (claim_row-Respects i now uuid)
      v
      (identifies_once (pending_with_id i) (claim_row now uuid) uuid i db (λ j. refl)
        (λ j e. ground arith) fresh v)

pub ensure_running_job_operation_id-IsValid :
    (i : ℕ) (candidate : Option Text) (uuid : Text) (db : Db)
    → IsFresh (or_default candidate uuid) db
    → IsValid db
    → IsValid (ensure_running_job_operation_id i candidate uuid db).0
unfolding ensure_running_job_operation_id
ensure_running_job_operation_id-IsValid i candidate uuid db fresh v =
    let u = or_default candidate uuid in
    update_jobs-IsValid (running_with_id i) (identify_row u) db (identify_row-Respects i u) v (
      identifies_once (running_with_id i) (identify_row u) u i db (λ j. refl) (λ j e. ground arith)
        fresh v)

-- A claim of the next job changes nothing, or claims one pending row by its id.
pub claim_next-cases :
    (m c now : ℕ) (uuid : Text) (locked : ℕ → Bool) (db : Db)
    → ((claim_next_pending_job m c now uuid locked db).0 ≡ db)
      ⊎ ((i : ℕ) × (claim_next_pending_job m c now uuid locked db ≡ claim_pending_job i now uuid db)
          × (count_where running_job db.jobs < m))
unfolding claim_next_pending_job claim_pending_job global_capacity_available
claim_next-cases m c now uuid locked db =
    elim (Option-cases (select_first job_before (is_candidate db c locked) db.jobs)) [
      | inl nobody ↦ ground arith
      | inr (j, e) ↦ elim (Bool-cases (ltb (count_where running_job db.jobs) m)) [
        | inl room ↦ inr (j.id, rw (room, e), ground arith)
        | inr full ↦ inl (rw full)
      ]
    ]

pub claim_next_pending_job-IsValid :
    (m c now : ℕ) (uuid : Text) (locked : ℕ → Bool) (db : Db)
    → IsFresh uuid db
    → IsValid db
    → IsValid (claim_next_pending_job m c now uuid locked db).0
claim_next_pending_job-IsValid m c now uuid locked db fresh v =
    elim (claim_next-cases m c now uuid locked db) [
      | inl same ↦ rw same v
      | inr (i, e, _) ↦ rw e (claim_pending_job-IsValid i now uuid db fresh v)
    ]
