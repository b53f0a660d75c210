-- ===== src/Backend/Tests/Worker.antt =====
-- The worker on concrete tables.
use node_conductor.Base.{◌*◌, true, none, some, [], ◌∷◌}
use node_conductor.Backend.Schema.{start, real, WorkerResult, web, Job}
use node_conductor.Backend.Jobs.{claim_row, finish_running_job, new_job}
use node_conductor.Backend.Executors.{failed_error, raised, Context, Executor}
use node_conductor.Backend.Worker.{Settings, Environment}

abbrev settings : Settings
settings = record {
  worker_mode = real;
  debug_events = true;
  worker_execution_timeout_seconds = 60;
  worker_max_concurrency = 1;
  worker_max_concurrency_per_connection = 1;
}

-- Two ticks between the readings of the clock.
abbrev quiet : Environment
quiet = record { uuid = 78; finished_at = 40; clock = λ k. 2 * k; meanwhile = λ db. db }

-- Another worker that finishes the first job while the executor runs.
abbrev disturbed : Environment
disturbed = record quiet {
  meanwhile = λ db. (finish_running_job 1 WorkerResult.succeeded none 30 db).0;
}

abbrev claimed_job : Job
claimed_job = claim_row 20 77 (new_job 1 1 (some 5) start web none 10)

-- An executor that gives up at once.
abbrev giving_up : Executor
giving_up job c = raised (failed_error (7 ∷ 8 ∷ []))

abbrev early : Context
early = record { operation_id = some 77; deadline = 60; clock = λ k. k }
