-- ===== src/Backend/Tests/Jobs.antt =====
-- The job repository on concrete tables.
use node_conductor.Base.{◌≡◌, refl, ◌≤◌, true, false, ◌&&◌, none, some, arith, All}
use mathlib.Core.List.{Memᴰ}
use node_conductor.Table.{count_where, find_where, update_where, select_first}
use node_conductor.Backend.Schema.{start, ServiceStatus, web, Job, Db}
use node_conductor.Backend.Jobs.{
  fetch_job_by_id, fetch_target_id, target_row, target_is_pilotable, fetch_active_job,
  active_conflict, insert_job, request_for_row, find_service, request_job_for_service_atomically,
  update_jobs, claim_pending_job, cancel_row, claim_row, cancel_pending_job,
  global_capacity_available, connection_has_room, is_candidate, claim_next_pending_job, running_job,
  running_on, job_before, new_job,
}
use node_conductor.Backend.Jobs.Valid.{IsValid, IsFresh}
use node_conductor.Backend.Jobs.Order.{claim_next-oldest}
use node_conductor.Backend.Jobs.Capacity.{claim_next-connection_capacity}
use node_conductor.Backend.Jobs.System.{
  request, claim_next, automatic, claim, here, next, ManualReach-IsValid, Reach-capacity,
}
use node_conductor.Backend.Jobs.Terminal.{Follows, ended_stays, ManualStep-Follows}
use node_conductor.Backend.Tests.{
  empty_db, empty_db-IsValid, nothing_locked, one_job, two_jobs, two_jobs-IsValid, claimed_db,
  two_jobs-IsFresh,
}

ManualReach-IsValid_example : IsValid claimed_db
ManualReach-IsValid_example =
    ManualReach-IsValid 1 1
      (next
        (next (next here (automatic (request empty_db 1 start ServiceStatus.off web none 10)))
          (automatic (request one_job 2 start ServiceStatus.off web none 11)))
        (automatic (claim_next two_jobs 20 77 nothing_locked two_jobs-IsFresh)))
      empty_db-IsValid

Reach-capacity_example : count_where running_job claimed_db.jobs ≤ 1
unfolding count_where
Reach-capacity_example =
    Reach-capacity 1 1
      (next
        (next (next here (request empty_db 1 start ServiceStatus.off web none 10))
          (request one_job 2 start ServiceStatus.off web none 11))
        (claim_next two_jobs 20 77 nothing_locked two_jobs-IsFresh))
      empty_db-IsValid (omega arith)

abbrev first_job : Job
first_job = new_job 1 1 (some 5) start web none 10

abbrev second_job : Job
second_job = new_job 2 2 none start web none 11

abbrev withdrawn_db : Db
withdrawn_db = (cancel_pending_job 1 15 two_jobs).0

withdrawn_db-IsFresh : IsFresh 77 withdrawn_db
unfolding count_where request_job_for_service_atomically request_for_row find_service find_where
    fetch_target_id target_is_pilotable target_row fetch_active_job select_first insert_job
    active_conflict cancel_pending_job update_jobs update_where
withdrawn_db-IsFresh = refl

ended_stays_example :
    fetch_job_by_id 1 (claim_next_pending_job 1 1 20 77 nothing_locked withdrawn_db).0
    ≡ some (cancel_row 15 first_job)
unfolding fetch_job_by_id request_job_for_service_atomically request_for_row find_service find_where
    fetch_target_id target_is_pilotable target_row fetch_active_job select_first insert_job
    active_conflict cancel_pending_job update_jobs update_where
ended_stays_example =
    ended_stays 1 1 1 (cancel_row 15 first_job)
      (next here (automatic (claim_next withdrawn_db 20 77 nothing_locked withdrawn_db-IsFresh)))
      refl refl

ManualStep-Follows_example : Follows 2 second_job (claim_pending_job 2 20 77 two_jobs).0
unfolding fetch_job_by_id request_job_for_service_atomically request_for_row find_service find_where
    fetch_target_id target_is_pilotable target_row fetch_active_job select_first insert_job
    active_conflict
ManualStep-Follows_example =
    ManualStep-Follows 1 1 2 second_job (claim two_jobs 2 20 77 two_jobs-IsFresh) refl

claim_next-oldest_example :
    (c : Job) × Memᴰ c two_jobs.jobs
    × (is_candidate two_jobs 1 nothing_locked c ≡ true)
    × (claim_row 20 77 first_job ≡ claim_row 20 77 c)
    × All (λ r. (is_candidate two_jobs 1 nothing_locked r && job_before r c) ≡ false) two_jobs.jobs
unfolding claim_next_pending_job global_capacity_available count_where is_candidate
    connection_has_room request_job_for_service_atomically request_for_row find_service find_where
    fetch_target_id update_jobs target_is_pilotable target_row fetch_active_job select_first
    insert_job active_conflict
claim_next-oldest_example =
    claim_next-oldest 1 1 20 77 nothing_locked two_jobs (claim_row 20 77 first_job) two_jobs-IsValid
      refl

claim_next-connection_capacity_example :
    count_where
      (running_on two_jobs (some 3))
      (claim_next_pending_job 2 1 20 77 nothing_locked two_jobs).0.jobs
    ≤ 1
unfolding count_where request_job_for_service_atomically request_for_row find_service find_where
    fetch_target_id target_is_pilotable target_row fetch_active_job select_first insert_job
    active_conflict
claim_next-connection_capacity_example =
    claim_next-connection_capacity 2 1 20 77 nothing_locked two_jobs 3 two_jobs-IsValid
      (omega arith)
