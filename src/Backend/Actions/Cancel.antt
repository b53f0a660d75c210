-- ===== src/Backend/Actions/Cancel.antt =====
-- Cancellations that race with other transactions (`cancel_job` of services/jobs.py).
use node_conductor.Base.{
  ℕ, ◌≡◌, refl, inl, inr, false, none, some, [], ◌∷◌, ◌++◌, if◌then◌else◌, Bool-cases,
}
use node_conductor.Table.{find_where, update_where}
use node_conductor.Table.Rows.{update_where_nothing}
use node_conductor.Backend.Schema.{pending, Job, Db, is_pending, is_cancelled}
use node_conductor.Backend.Jobs.{
  pending_with_id, fetch_job_by_id, cancel_pending_job, cancel_row, update_jobs,
}
use node_conductor.Backend.Worker.{record_event}
use node_conductor.Backend.Actions.{job, job_conflict, cancelled_event, cancel_job}

-- A job that is still pending when the UPDATE runs is cancelled, with one event; nothing else of
-- what the other transactions have written changes.
pub cancel_takes_pending :
    (i now : ℕ) (meanwhile : Db → Db) (db : Db) (seen j : Job)
    → fetch_job_by_id i db ≡ some seen
    → seen.status ≡ pending
    → find_where (pending_with_id i) (meanwhile db).jobs ≡ some j
    → let (db', result) = cancel_job i now meanwhile db in
      (result ≡ job (cancel_row now j))
      × (db'.jobs ≡ update_where (pending_with_id i) (cancel_row now) (meanwhile db).jobs)
      × (db'.services ≡ (meanwhile db).services)
      × (db'.events ≡ (meanwhile db).events ++ (cancelled_event i (cancel_row now j) ∷ []))
unfolding cancel_job cancel_pending_job update_jobs record_event
cancel_takes_pending i now meanwhile db seen j found was still =
    rw (found, cancel_job) (rw was (rw still (refl, refl, refl, refl)))

-- A job that a worker has claimed, or that has ended, since it was looked at is not cancelled: the
-- database keeps what the other transactions have written, and the caller is told of the conflict.
pub cancel_loses_race :
    (i now : ℕ) (meanwhile : Db → Db) (db : Db) (seen j : Job)
    → fetch_job_by_id i db ≡ some seen
    → seen.status ≡ pending
    → find_where (pending_with_id i) (meanwhile db).jobs ≡ none
    → fetch_job_by_id i (meanwhile db) ≡ some j
    → cancel_job i now meanwhile db ≡ (meanwhile db, job_conflict)
unfolding cancel_job cancel_pending_job update_jobs
cancel_loses_race i now meanwhile db seen j found was gone there =
    rw (found, cancel_job)
      (rw was (
        rw gone (
          rw (update_where_nothing (pending_with_id i) (cancel_row now) (meanwhile db).jobs gone)
            (rw there))))

-- A job that is already running or has ended otherwise is refused, and one that is cancelled is
-- returned once more; in neither case is anything written.
pub cancel_not_pending :
    (i now : ℕ) (meanwhile : Db → Db) (db : Db) (seen : Job)
    → fetch_job_by_id i db ≡ some seen
    → is_pending seen.status ≡ false
    → cancel_job i now meanwhile db
      ≡ (db, if is_cancelled seen.status then job seen else job_conflict)
unfolding cancel_job
cancel_not_pending i now meanwhile db seen found past =
    rw (found, cancel_job)
      (elim (Bool-cases (is_cancelled seen.status)) [
        | inl over ↦ rw over
        | inr other ↦ rw (other, past)
      ])
