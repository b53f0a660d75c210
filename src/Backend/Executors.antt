-- ===== src/Backend/Executors.antt =====
-- The executors of the worker (backend/src/nodeconductor/services/worker_executors.py). Time is a
-- whole number of ticks of the monotonic clock; `clock k` is what its k-th reading returns.
use Prim.Native.Char.{code}
use Prim.Native.String.{String}
use node_conductor.Base.{ℕ, ◌-◌, Text, Bool, Option, none, some, [], ◌∷◌, leb, if◌then◌else◌}
use node_conductor.Backend.Schema.{WorkerMode, simulation, real, WorkerResult, Message, Job}

abbrev pub codes : String → Message
codes String.[] = []
codes (String.◌∷◌ c s) = code c ∷ codes s

pub record ExecutionResult : Type 0 where
  pub status : WorkerResult
  pub error_message : Option Message

-- The exceptions that may leave an executor, with str(exc); `other` is any further class.
pub data Raised : Type 0 where
  deadline_exceeded indeterminate_error failed_error other : Message → Raised

pub data Outcome : Type 0 where
  returned : ExecutionResult → Outcome
  raised : Raised → Outcome

pub record Context : Type 0 where
  pub operation_id : Option Text
  pub deadline : ℕ
  pub clock : ℕ → ℕ

-- `max(0.0, deadline - clock())`, at the k-th reading.
unfoldable pub remaining_seconds : Context → ℕ → ℕ
remaining_seconds c k = c.deadline - c.clock k

unfoldable pub is_expired : Context → ℕ → Bool
unfolding remaining_seconds
is_expired c k = leb (remaining_seconds c k) 0

abbrev pub deadline_message : Message
deadline_message = codes "worker execution deadline expired"

abbrev pub not_implemented_message : Message
not_implemented_message = codes "real worker mode is not implemented yet"

-- `raise_if_expired` at the k-th reading, before `rest`.
unfoldable pub raise_if_expired : Context → ℕ → Outcome → Outcome
raise_if_expired c k rest =
    if is_expired c k then raised (deadline_exceeded deadline_message) else rest

abbrev pub Executor : Type 0
Executor = Job → Context → Outcome

-- The first reading of the clock is that of the caller.
unfoldable pub simulation_executor : WorkerResult → Option Message → Executor
simulation_executor result message job c =
    raise_if_expired c 1 (returned (record { status = result; error_message = message }))

unfoldable pub real_executor : Executor
real_executor job c = raise_if_expired c 1 (
    returned
      (record { status = WorkerResult.failed; error_message = some not_implemented_message }))

unfoldable pub build_worker_executor : WorkerMode → Executor
build_worker_executor simulation = simulation_executor WorkerResult.succeeded none
build_worker_executor real = real_executor
