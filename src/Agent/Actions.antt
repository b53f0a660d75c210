-- ===== src/Agent/Actions.antt =====
-- The service that carries out a start or a stop (agent/src/nodeconductor_agent/action_service.py),
-- with what docker_gateway.py and compose_runner.py make of a failed call. What the engine, the
-- registry and the runner answer in one execution is an argument.
pub mod Leader
pub mod Safety
pub mod Outcome
pub mod Once
pub mod System
pub mod Called
pub mod Alone
use node_conductor.Base.{
  ℕ, Text, Bool, true, false, Option, none, some, List, [], ◌∷◌, ◌++◌, ◌&&◌, ◌||◌, not, ◌==◌,
  if◌then◌else◌,
}
use node_conductor.Agent.Schema.{
  TargetKind, compose_project, standalone_container, ManagementPolicy, ResourceAction, start, stop,
  State, Classification, operational, ComposeClassification, Snapshot, Member, Resource, same_kind,
  is_kind, is_operational,
}
use node_conductor.Agent.Aggregate.{is_empty, all_members, is_running, is_stopped, on_state}
use node_conductor.Agent.Inventory.{find_resource}
use node_conductor.Agent.Journal.{
  Status, completed, rejected, failed, indeterminate, ResultCode, resource_busy, resource_not_found,
  resource_not_pilotable, nodeconductor_target_protected, protected_resource,
  management_policy_not_managed, compose_registry_unavailable, compose_project_not_registered,
  container_not_found, docker_transport_unavailable, docker_transport_interrupted,
  container_start_failed, container_stop_failed, compose_timeout, compose_process_unavailable,
  compose_action_failed, ObservedResource,
}

-- What a call of the inventory or the gateway raises in place of a value; `broken` is any other
-- exception.
pub data Failure : Type 0 where
  not_found engine_unavailable broken : Failure

pub data Fetched {ℓ} (A : Type ℓ) : Type ℓ where
  value : A → Fetched A
  failure : Failure → Fetched A

-- What the engine shows at one moment: the inventory, and the container of this id.
pub record Look : Type 0 where
  pub resources : Fetched (List Resource)
  pub inspected : Fetched Snapshot

-- `_non_operable_snapshot_resource`
abbrev pub non_operable : Snapshot → Resource
non_operable c = record {
  classification = Classification.ambiguous;
  target_kind = none;
  target = c.id;
  display_name = c.name;
  state = c.state;
  health_status = c.health_status;
  management_policy = none;
  operable = false;
  protection_forced = false;
  diagnostic = true;
  members = [];
}

abbrev pub as_target : TargetKind → Text → Resource → Bool
as_target k t r = is_kind r.target_kind k && r.target == t

abbrev pub inspected_as : ComposeClassification → Snapshot → Fetched Resource
inspected_as ComposeClassification.coherent c = value (non_operable c)
inspected_as ComposeClassification.ambiguous c = value (non_operable c)
inspected_as ComposeClassification.none c = failure not_found

abbrev pub from_inspection : Fetched Snapshot → Fetched Resource
from_inspection (failure e) = failure e
from_inspection (value c) = inspected_as c.compose_classification c

abbrev pub missing_target : TargetKind → Fetched Snapshot → Fetched Resource
missing_target standalone_container i = from_inspection i
missing_target compose_project i = failure not_found

abbrev pub listed_target : TargetKind → Fetched Snapshot → Option Resource → Fetched Resource
listed_target k i (some r) = value r
listed_target k i none = missing_target k i

abbrev pub target_in :
    TargetKind → Text → Fetched Snapshot → Fetched (List Resource) → Fetched Resource
target_in k t i (failure e) = failure e
target_in k t i (value rs) = listed_target k i (find_resource (as_target k t) rs)

unfoldable pub current_target : TargetKind → Text → Look → Fetched Resource
current_target k t l = target_in k t l.inspected l.resources

abbrev pub is_protected : Option ManagementPolicy → Bool
is_protected (some ManagementPolicy.protected) = true
is_protected _ = false

abbrev pub is_managed : Option ManagementPolicy → Bool
is_managed (some ManagementPolicy.managed) = true
is_managed _ = false

unfoldable pub preflight_rejection : Resource → Option ResultCode
preflight_rejection r =
    if not (is_operational r.classification) || not r.operable
    then some resource_not_pilotable
    else if r.protection_forced
    then some nodeconductor_target_protected
    else if is_protected r.management_policy
    then some protected_resource
    else if not (is_managed r.management_policy)
    then some management_policy_not_managed
    else none

-- The local registry: whether it is usable, and the name of the project that it has for a target.
pub record Registry : Type 0 where
  pub usable : Bool
  pub get : Text → Option Text

abbrev pub names_target : Text → Option Text → Bool
names_target t none = false
names_target t (some p) = p == t

abbrev pub registered : Registry → Text → Bool
registered g t = g.usable && names_target t (g.get t)

-- The failure of `_compose_preflight`, or none.
unfoldable pub compose_preflight : Registry → Text → Option (Status × ResultCode)
compose_preflight g t =
    if not g.usable
    then some (failed, compose_registry_unavailable)
    else if not (names_target t (g.get t))
    then some (rejected, compose_project_not_registered)
    else none

abbrev pub is_created_or_exited : State → Bool
is_created_or_exited = is_stopped

abbrev pub project_desired : List Member → ResourceAction → Bool
project_desired ms start = not (is_empty ms) && all_members (on_state is_running) ms
project_desired ms stop = not (is_empty ms) && all_members (on_state is_created_or_exited) ms

abbrev pub container_desired : State → ResourceAction → Bool
container_desired s start = is_running s
container_desired s stop = is_created_or_exited s

unfoldable pub desired_state_observed : Resource → ResourceAction → Bool
desired_state_observed r a =
    if is_kind r.target_kind compose_project
    then project_desired r.members a
    else container_desired r.state a

abbrev pub observed_as :
    Resource → Option TargetKind → Option ManagementPolicy → Option ObservedResource
observed_as r (some k) (some p) = some (record {
  state = r.state;
  health_status = r.health_status;
  management_policy = p;
  is_pilotable = r.operable;
})
observed_as r _ _ = none

-- `_filtered`
unfoldable pub filtered : Resource → Option ObservedResource
filtered r = observed_as r r.target_kind r.management_policy

abbrev pub filtered_look : Fetched Resource → Option ObservedResource
filtered_look (value r) = filtered r
filtered_look (failure _) = none

-- `_try_filtered_target`
unfoldable pub try_filtered_target : TargetKind → Text → Look → Option ObservedResource
try_filtered_target k t l = filtered_look (current_target k t l)

-- The call that is sent out.
pub data Call : Type 0 where
  start_container : Text → Call
  stop_container : Text → ℕ → Call
  run_compose : Text → ResourceAction → Call

abbrev pub call_for : TargetKind → Text → ResourceAction → ℕ → Call
call_for standalone_container t start timeout = start_container t
call_for standalone_container t stop timeout = stop_container t timeout
call_for compose_project t a timeout = run_compose t a

-- `ActionExecutionError` and its subclasses, by their arguments.
pub record ActionError : Type 0 where
  pub result_code : ResultCode
  pub dispatched : Bool
  pub uncertain : Bool

abbrev pub not_dispatched : ResultCode → ActionError
not_dispatched code = record { result_code = code; dispatched = false; uncertain = false }

abbrev pub confirmed_failure : ResultCode → ActionError
confirmed_failure code = record { result_code = code; dispatched = true; uncertain = false }

abbrev pub indeterminate_error : ResultCode → ActionError
indeterminate_error code = record { result_code = code; dispatched = true; uncertain = true }

-- What becomes of a call: it returns, an `ActionExecutionError`, or another exception.
pub data Sent : Type 0 where
  performed : Sent
  action_error : ActionError → Sent
  raised : Failure → Sent

-- How the SDK fails: NotFound, APIError, another DockerException.
pub data SdkError : Type 0 where
  sdk_not_found api_error docker_exception : SdkError

-- `_container_for_action`: every failure to get the container comes before the call.
abbrev pub lookup_error : SdkError → ActionError
lookup_error sdk_not_found = not_dispatched container_not_found
lookup_error api_error = not_dispatched docker_transport_unavailable
lookup_error docker_exception = not_dispatched docker_transport_unavailable

abbrev pub confirmed_code : ResourceAction → ResultCode
confirmed_code start = container_start_failed
confirmed_code stop = container_stop_failed

-- NotFound is an APIError.
abbrev pub call_error : ResourceAction → SdkError → ActionError
call_error a sdk_not_found = confirmed_failure (confirmed_code a)
call_error a api_error = confirmed_failure (confirmed_code a)
call_error a docker_exception = indeterminate_error docker_transport_interrupted

-- `start_container` and `stop_container` of the gateway, by what the SDK raises in the two calls.
unfoldable pub act_on_container : ResourceAction → Option SdkError → Option SdkError → Sent
act_on_container a (some e) called = action_error (lookup_error e)
act_on_container a none (some e) = action_error (call_error a e)
act_on_container a none none = performed

-- How the process of Docker Compose ends: its exit code, a timeout, or an OSError.
pub data ProcessEnd : Type 0 where
  exited : ℕ → ProcessEnd
  timed_out os_error : ProcessEnd

-- `SubprocessComposeRunner.execute`, from its call on.
unfoldable pub run_process : ProcessEnd → Sent
run_process timed_out = action_error (indeterminate_error compose_timeout)
run_process os_error = action_error (not_dispatched compose_process_unavailable)
run_process (exited n) =
    if n == 0 then performed else action_error (confirmed_failure compose_action_failed)
