-- ===== src/Agent/Journal.antt =====
-- The journal of actions (agent/src/nodeconductor_agent/action_repository.py). Every function is
-- one SQLite transaction; `now` is what `_now()` returns in it.
pub mod Valid
pub mod Replay
use node_conductor.Base.{
  ℕ, Text, Bool, true, false, Option, none, some, List, [], ◌∷◌, ◌++◌, ◌&&◌, not, ◌==◌,
  if◌then◌else◌,
}
use mathlib.Core.Option
use node_conductor.Table.{find_where, update_where}
use node_conductor.Agent.Schema.{
  TargetKind, ManagementPolicy, ResourceAction, State, Health, same_kind, same_action,
}

pub data Status : Type 0 where
  in_progress completed rejected failed indeterminate : Status

-- The result codes of action_repository.py, action_service.py, docker_gateway.py and
-- compose_runner.py.
pub data ResultCode : Type 0 where
  resource_busy resource_not_found resource_not_pilotable nodeconductor_target_protected :
      ResultCode
  protected_resource management_policy_not_managed compose_registry_unavailable : ResultCode
  compose_project_not_registered already_in_desired_state compose_runner_unavailable : ResultCode
  post_dispatch_state_unknown action_completed requested_state_not_observed : ResultCode
  pre_dispatch_failed unexpected_post_dispatch_failure recovered_incomplete_operation : ResultCode
  container_not_found docker_transport_unavailable docker_transport_interrupted : ResultCode
  container_start_failed container_stop_failed unsupported_action compose_timeout : ResultCode
  compose_process_unavailable compose_action_failed : ResultCode

-- The four columns `resource_*`, NULL together, and the part of `ActionResourceState` in them.
pub record ObservedResource : Type 0 where
  pub state : State
  pub health_status : Health
  pub management_policy : ManagementPolicy
  pub is_pilotable : Bool

-- A row of `resource_action_operations`.
pub record Operation : Type 0 where
  pub operation_id : Text
  pub target_kind : TargetKind
  pub target : Text
  pub actor : Text
  pub action : ResourceAction
  pub status : Status
  pub result_code : Option ResultCode
  pub dispatched : Bool
  pub resource : Option ObservedResource
  pub started_at : ℕ
  pub finished_at : Option ℕ

abbrev pub Journal : Type 0
Journal = List Operation

abbrev pub is_in_progress : Status → Bool
is_in_progress in_progress = true
is_in_progress _ = false

-- What identifies a request beside its operation id.
pub record Fingerprint : Type 0 where
  pub target_kind : TargetKind
  pub target : Text
  pub actor : Text
  pub action : ResourceAction

abbrev pub has_operation_id : Text → Operation → Bool
has_operation_id u o = o.operation_id == u

abbrev pub open_operation : Text → Operation → Bool
open_operation u o = o.operation_id == u && is_in_progress o.status

abbrev pub active_on : TargetKind → Text → Operation → Bool
active_on k t o = (same_kind o.target_kind k && o.target == t) && is_in_progress o.status

-- The UPDATE of `__init__`: an operation that a stopped Agent left open has no known outcome.
abbrev pub recover_row : ℕ → Operation → Operation
recover_row now o = record o {
  status = indeterminate;
  result_code = some recovered_incomplete_operation;
  finished_at = some now;
}

unfoldable pub recover : ℕ → Journal → Journal
recover now = update_where (λ (o : Operation). is_in_progress o.status) (recover_row now)

unfoldable pub fetch : Text → Journal → Option Operation
fetch u = find_where (has_operation_id u)

-- `_validate_replay` does not raise.
abbrev pub matches : Operation → Fingerprint → Bool
matches o f =
    same_kind o.target_kind f.target_kind
    && (o.target == f.target && (o.actor == f.actor && same_action o.action f.action))

abbrev pub new_operation : Text → Fingerprint → ℕ → Operation
new_operation u f now = record {
  operation_id = u;
  target_kind = f.target_kind;
  target = f.target;
  actor = f.actor;
  action = f.action;
  status = in_progress;
  result_code = none;
  dispatched = false;
  resource = none;
  started_at = now;
  finished_at = none;
}

abbrev pub busy_operation : Text → Fingerprint → ℕ → Operation
busy_operation u f now = record (new_operation u f now) {
  status = rejected;
  result_code = some resource_busy;
  finished_at = some now;
}

-- `ActionBeginResult`, with the row that its response is built from; or `OperationConflictError`.
pub data Begin : Type 0 where
  started : Begin
  replay : Operation → Begin
  busy : Operation → Begin
  already_open : Begin
  id_conflict : Begin

abbrev pub begin_existing : Operation → Fingerprint → Begin
begin_existing o f =
    if not (matches o f)
    then id_conflict
    else if is_in_progress o.status
    then already_open
    else replay o

abbrev pub begin_new : Text → Fingerprint → ℕ → Journal → Option Operation → Journal × Begin
begin_new u f now j (some _) = (j ++ (busy_operation u f now ∷ []), busy (busy_operation u f now))
begin_new u f now j none = (j ++ (new_operation u f now ∷ []), started)

unfoldable pub begin : Text → Fingerprint → ℕ → Journal → Journal × Begin
begin u f now j = elim (fetch u j) [
  | some o ↦ (j, begin_existing o f)
  | none ↦ begin_new u f now j (find_where (active_on f.target_kind f.target) j)
]

unfoldable pub mark_dispatched : Text → Journal → Journal
mark_dispatched u =
    update_where (open_operation u) (λ (o : Operation). record o { dispatched = true })

abbrev pub finish_row : Status → ResultCode → Option ObservedResource → ℕ → Operation → Operation
finish_row status code resource now o = record o {
  status = status;
  result_code = some code;
  resource = resource;
  finished_at = some now;
}

-- The row that is read back, for the response.
unfoldable pub finish :
    Text → Status → ResultCode → Option ObservedResource → ℕ → Journal → Journal × Option Operation
finish u status code resource now j =
    let j' = update_where (open_operation u) (finish_row status code resource now) j in
    (j', fetch u j')

-- `replay`: no row or an open one gives `None`.
pub data Replayed : Type 0 where
  nothing : Replayed
  response : Operation → Replayed
  replay_conflict : Replayed

abbrev pub replay_row : Fingerprint → Option Operation → Replayed
replay_row f none = nothing
replay_row f (some o) =
    if is_in_progress o.status then nothing else if matches o f then response o else replay_conflict

unfoldable pub replay_operation : Text → Fingerprint → Journal → Replayed
replay_operation u f j = replay_row f (fetch u j)
