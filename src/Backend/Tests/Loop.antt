-- ===== src/Backend/Tests/Loop.antt =====
-- The worker's loop with one slot, on a table with two pending jobs.
use node_conductor.Base.{ℕ, suc, ◌+◌, ◌≡◌, ◌≢◌, refl, false, [], arith}
use node_conductor.Table.{count_where, find_where, update_where, select_first}
use node_conductor.Backend.Jobs.{
  fetch_target_id, target_row, target_is_pilotable, fetch_active_job, active_conflict, insert_job,
  request_for_row, find_service, request_job_for_service_atomically, update_jobs,
  global_capacity_available, connection_has_room, is_candidate, claim_next_pending_job,
}
use node_conductor.Backend.Jobs.System.{here}
use node_conductor.Backend.Loop.{
  Controller, Round, discard_finished_tasks, fill_slots, fill_available_slots, out_of_fuel,
}
use node_conductor.Backend.Loop.Slots.{IsFair, IsWithin, fill_ends, fill_keeps_limits}
use node_conductor.Backend.Tests.{two_jobs, two_jobs-IsValid, nothing_locked}

abbrev one_slot : Controller
one_slot = record {
  max_concurrency = 1;
  max_concurrency_per_connection = 1;
  active_tasks = [];
  stopping = false;
}

abbrev undisturbed : ℕ → Round
undisturbed k = record {
  stop = false;
  meanwhile = λ db. db;
  now = 20;
  uuid = 77 + k;
  locked = nothing_locked;
}

undisturbed-IsFair : IsFair undisturbed 1 1 2 0 two_jobs
unfolding count_where request_job_for_service_atomically request_for_row find_service find_where
    fetch_target_id target_is_pilotable target_row fetch_active_job select_first insert_job
    active_conflict claim_next_pending_job global_capacity_available is_candidate
    connection_has_room update_jobs update_where
undisturbed-IsFair = (here, refl, (here, refl, tt))

two_jobs-IsWithin : IsWithin undisturbed one_slot two_jobs
unfolding count_where request_job_for_service_atomically request_for_row find_service find_where
    fetch_target_id target_is_pilotable target_row fetch_active_job select_first insert_job
    active_conflict
two_jobs-IsWithin = record { valid = two_jobs-IsValid; running = omega arith; tasks = omega arith }

fill_ends_example :
    (fill_slots undisturbed (suc (1 + 5)) 0 (discard_finished_tasks one_slot) two_jobs
      ≡ fill_available_slots undisturbed one_slot two_jobs)
    × ((fill_available_slots undisturbed one_slot two_jobs).2 ≢ out_of_fuel)
fill_ends_example = fill_ends undisturbed 5 one_slot two_jobs

fill_keeps_limits_example :
    IsWithin undisturbed
      (fill_available_slots undisturbed one_slot two_jobs).0
      (fill_available_slots undisturbed one_slot two_jobs).1
fill_keeps_limits_example =
    fill_keeps_limits undisturbed one_slot two_jobs undisturbed-IsFair two_jobs-IsWithin
