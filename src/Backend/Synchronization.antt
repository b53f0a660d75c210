-- ===== src/Backend/Synchronization.antt =====
-- One synchronisation of an Agent's inventory
-- (backend/src/nodeconductor/services/agent_inventory_sync.py): the contract of the Agent, the
-- collection, the transaction, and the events.
pub mod Outcomes
pub mod Contract
pub mod Applied
pub mod Peer
use node_conductor.Base.{
  ℕ, suc, Text, Bool, true, false, Option, none, some, List, [], ◌∷◌, ◌++◌, ◌&&◌, ◌||◌, not, ◌==◌,
  if◌then◌else◌, map,
}
use node_conductor.Agent.Schema.{TargetKind, ManagementPolicy, Resource}
use node_conductor.Backend.Schema.{Severity, info, warning}
use node_conductor.Backend.Written.{WriteError, Written, wrote, refused}
use node_conductor.Backend.Inventory.{
  SyncSettings, SyncError, identity_mismatch, version_mismatch, api_version_unsupported,
  capability_missing, agent_unavailable, engine_unavailable, Checked, fine, error, Client, any_text,
  fetch_complete_inventory,
}
use node_conductor.Backend.Targets.{Connection, TargetRow}
use node_conductor.Backend.Targets.Sync.{Tables, Report, synchronize_inventory_rows}
use node_conductor.Backend.Targets.Contracts.{fetch_agent_connection_row}

pub data HealthState : Type 0 where
  ready degraded : HealthState

-- The answers of `health` and of `capabilities` (schemas/agent_api.py), less the versions of the
-- engine.
pub record AgentHealth : Type 0 where
  pub agent_id : Text
  pub status : HealthState
  pub agent_version : Text
  pub engine_available : Bool

pub record AgentCapabilities : Type 0 where
  pub agent_id : Text
  pub agent_version : Text
  pub api_version : Text
  pub engine_available : Bool
  pub capabilities : List Text

-- The methods of `AgentClient`: what each call answers or raises.
pub record AgentClient : Type 0 where
  pub health : Checked AgentHealth
  pub capabilities : Checked AgentCapabilities
  pub list_resources : Client

-- EXPECTED_AGENT_API_VERSION and the one member of REQUIRED_CAPABILITIES.
abbrev pub expected_api_version : Text
expected_api_version = 2

abbrev pub resource_inventory_v1 : Text
resource_inventory_v1 = 1

pub data SyncStatus : Type 0 where
  synchronized unavailable rejected : SyncStatus

-- `AgentInventorySyncResult`; without a report its counts are zero.
pub record SyncResult : Type 0 where
  pub status : SyncStatus
  pub connection_id : Text
  pub agent_id : Text
  pub pages : ℕ
  pub report : Option Report
  pub error_code : Option SyncError

-- `details` of the events.
pub data SyncDetails : Type 0 where
  discovered_details : Text → ℕ → TargetKind → Text → Option Text → ManagementPolicy → SyncDetails
  synchronized_details : Text → ℕ → Report → SyncDetails
  failed_details : Text → Text → SyncError → SyncDetails

pub data SyncEventType : Type 0 where
  target_discovered inventory_synchronized inventory_unavailable inventory_rejected : SyncEventType

-- What these functions hand to `record_event`; the actor is always the Agent, of type `system`.
pub record SyncEvent : Type 0 where
  pub event_type : SyncEventType
  pub severity : Severity
  pub actor_id : Text
  pub details : SyncDetails

pub record SyncState : Type 0 where
  pub tables : Tables
  pub events : List SyncEvent

-- A result, `AgentConnectionMissingError`, or the error of a transaction, which nothing catches.
pub data SyncOutcome : Type 0 where
  result : SyncResult → SyncOutcome
  connection_missing : SyncOutcome
  database_error : WriteError → SyncOutcome

abbrev pub is_ready : HealthState → Bool
is_ready ready = true
is_ready degraded = false

-- The error that `_validate_agent_contract` raises, or none.
unfoldable pub validate_agent_contract :
    Connection → AgentHealth → AgentCapabilities → Option SyncError
validate_agent_contract c h k =
    if not (h.agent_id == c.agent_id)
    then some identity_mismatch
    else if not (k.agent_id == c.agent_id)
    then some identity_mismatch
    else if not (h.agent_version == k.agent_version)
    then some version_mismatch
    else if not (k.api_version == expected_api_version)
    then some api_version_unsupported
    else if not (any_text resource_inventory_v1 k.capabilities)
    then some capability_missing
    else if not (is_ready h.status) || not h.engine_available
    then some engine_unavailable
    else if not k.engine_available
    then some engine_unavailable
    else none

-- The codes of `AgentUnavailableError`.
abbrev pub is_unavailable : SyncError → Bool
is_unavailable agent_unavailable = true
is_unavailable engine_unavailable = true
is_unavailable _ = false

abbrev pub failure_event : Connection → Bool → SyncError → SyncEvent
failure_event c unreachable e = record {
  event_type = if unreachable then inventory_unavailable else inventory_rejected;
  severity = warning;
  actor_id = c.agent_id;
  details = failed_details c.id c.agent_id e;
}

-- `_record_failure`, with the status that the handler of the error gives.
unfoldable pub record_failure : Connection → SyncError → SyncState → SyncState × SyncOutcome
record_failure c e s = (
  record s { events = s.events ++ (failure_event c (is_unavailable e) e ∷ []) },
  result (record {
    status = if is_unavailable e then unavailable else rejected;
    connection_id = c.id;
    agent_id = c.agent_id;
    pages = 0;
    report = none;
    error_code = some e;
  }),
)

abbrev pub discovered_event : Connection → TargetRow → SyncEvent
discovered_event c r = record {
  event_type = target_discovered;
  severity = info;
  actor_id = c.agent_id;
  details = discovered_details c.id r.id r.target_kind r.target r.display_name r.management_policy;
}

abbrev pub synchronized_event : Connection → Report → ℕ → SyncEvent
synchronized_event c report pages = record {
  event_type = inventory_synchronized;
  severity = info;
  actor_id = c.agent_id;
  details = synchronized_details c.id pages report;
}

-- `_record_success`
unfoldable pub record_success : Connection → Report → ℕ → SyncState → SyncState
record_success c report pages s = record s {
  events =
      s.events
      ++ (map (discovered_event c) report.discovered ++ (synchronized_event c report pages ∷ []));
}

-- The part of the `try` before the transaction: health, capabilities, contract, collection.
unfoldable pub consult : SyncSettings → Connection → AgentClient → Checked (List Resource × ℕ)
consult settings c client = elim client.health [
  | error e ↦ error e
  | fine h ↦ elim client.capabilities [
    | error e ↦ error e
    | fine k ↦ elim (validate_agent_contract c h k) [
      | some e ↦ error e
      | none ↦ fetch_complete_inventory settings client.list_resources
    ]
  ]
]

-- The client is the one that is given, or the one that `_build_client` makes of the connection,
-- which may raise.
abbrev pub chosen_client :
    (Connection → Checked AgentClient) → Option AgentClient → Connection → Checked AgentClient
chosen_client build none c = build c
chosen_client build (some client) c = fine client

abbrev pub consult_chosen :
    SyncSettings → Connection → Checked AgentClient → Checked (List Resource × ℕ)
consult_chosen settings c (error e) = error e
consult_chosen settings c (fine client) = consult settings c client

-- The transaction, and what follows it.
abbrev pub apply_inventory :
    Text → ℕ → Connection → SyncState → ℕ → Written (Tables × Report) → SyncState × SyncOutcome
apply_inventory connection_id now c s pages (refused e) = (s, database_error e)
apply_inventory connection_id now c s pages (wrote (tables, report)) = (
  record_success c report pages (record s { tables = tables }),
  result (record {
    status = synchronized;
    connection_id = connection_id;
    agent_id = c.agent_id;
    pages = pages;
    report = some report;
    error_code = none;
  }),
)

abbrev pub apply_consulted :
    Text → ℕ → Connection → SyncState → Checked (List Resource × ℕ) → SyncState × SyncOutcome
apply_consulted connection_id now c s (error e) = record_failure c e s
apply_consulted connection_id now c s (fine (resources, pages)) =
    apply_inventory connection_id now c s pages
      (synchronize_inventory_rows connection_id resources now s.tables)

abbrev pub synchronize_known :
    SyncSettings
    → (Connection → Checked AgentClient)
    → Option AgentClient
    → Text
    → ℕ
    → SyncState
    → Option Connection
    → SyncState × SyncOutcome
synchronize_known settings build client connection_id now s none = (s, connection_missing)
synchronize_known settings build client connection_id now s (some c) =
    apply_consulted connection_id now c s (consult_chosen settings c (chosen_client build client c))

unfoldable pub synchronize_agent_inventory :
    SyncSettings
    → (Connection → Checked AgentClient)
    → Option AgentClient
    → Text
    → ℕ
    → SyncState
    → SyncState × SyncOutcome
synchronize_agent_inventory settings build client connection_id now s =
    synchronize_known settings build client connection_id now s
      (fetch_agent_connection_row connection_id s.tables)
