-- ===== src/Backend/Loop.antt =====
-- The worker's loop (backend/src/nodeconductor/services/worker_loop.py): the slots for jobs that
-- run at the same time. A task is what `asyncio.create_task` returns for a job that was claimed.
pub mod Slots
use node_conductor.Base.{
  ℕ, zero, suc, ◌+◌, Text, Bool, true, false, Option, none, some, List, [], ◌∷◌, ◌++◌, not, ltb,
  if◌then◌else◌, length,
}
use node_conductor.Table.{update_where}
use node_conductor.Table.Ordered.{rows_where}
use node_conductor.Backend.Schema.{Job, Db}
use node_conductor.Backend.Jobs.{claim_next_pending_job}

pub record Task : Type 0 where
  pub job : Job
  pub done : Bool

-- `WorkerLoopController`, less the interval, the executor and the task of the loop itself.
pub record Controller : Type 0 where
  pub max_concurrency : ℕ
  pub max_concurrency_per_connection : ℕ
  pub active_tasks : List Task
  pub stopping : Bool

-- What one round of the loop over the slots meets: whether the stop event is set, what other
-- transactions do until the claim, and now(), uuid4() and the locked rows in the claim.
pub record Round : Type 0 where
  pub stop : Bool
  pub meanwhile : Db → Db
  pub now : ℕ
  pub uuid : Text
  pub locked : ℕ → Bool

abbrev pub is_active_task : Task → Bool
is_active_task t = not t.done

unfoldable pub active_job_count : Controller → ℕ
active_job_count c = length (rows_where is_active_task c.active_tasks)

-- `_discard_finished_tasks`
unfoldable pub discard_finished_tasks : Controller → Controller
discard_finished_tasks c = record c { active_tasks = rows_where is_active_task c.active_tasks }

abbrev pub add_task : Job → Controller → Controller
add_task job c = record c {
  active_tasks = c.active_tasks ++ (record { job = job; done = false } ∷ []);
}

-- Why the loop over the slots has ended.
pub data FillEnd : Type 0 where
  stopped full idle out_of_fuel : FillEnd

abbrev pub claim_within : ℕ → ℕ → Round → Db → Db × Option Job
claim_within limit per_connection r db =
    claim_next_pending_job limit per_connection r.now r.uuid r.locked (r.meanwhile db)

abbrev pub claim_in : Controller → Round → Db → Db × Option Job
claim_in c = claim_within c.max_concurrency c.max_concurrency_per_connection

-- The `while`; `rounds k` is what its k-th round meets.
unfoldable pub fill_slots : (ℕ → Round) → ℕ → ℕ → Controller → Db → Controller × Db × FillEnd
fill_slots rounds zero k c db = (c, db, out_of_fuel)
fill_slots rounds (suc fuel) k c db =
    if (rounds k).stop
    then (c, db, stopped)
    else if not (ltb (length c.active_tasks) c.max_concurrency)
    then (c, db, full)
    else let (db', claimed) = claim_in c (rounds k) db in
      elim claimed [
        | none ↦ (c, db', idle)
        | some job ↦ fill_slots rounds fuel (k + 1) (add_task job c) db'
      ]

-- `_fill_available_slots`; one round more than there are slots is enough.
unfoldable pub fill_available_slots : (ℕ → Round) → Controller → Db → Controller × Db × FillEnd
fill_available_slots rounds c db =
    fill_slots rounds (suc c.max_concurrency) 0 (discard_finished_tasks c) db
