-- ===== src/Backend/Tests/Synchronization.antt =====
-- Synchronisations with a working Agent and with one that cannot be reached.
use node_conductor.Base.{◌≡◌, refl, true, false, Option, none, some, [], ◌∷◌, arith}
use node_conductor.Table.{count_where, find_where, update_where}
use node_conductor.Table.Serial.{insert, upsert}
use node_conductor.Backend.Inventory.{
  agent_unavailable, capability_missing, Checked, fine, error, any_text, take_items, take_resource,
  seen_identity, see_members, exposes_member, validate_page, conclude, fetch_pages,
  fetch_complete_inventory,
}
use node_conductor.Backend.Inventory.Collected.{serving}
use node_conductor.Backend.Targets.{
  Connection, trigger_refuses, upsert_target, upsert_resource, existing_targets, any_target, any_id,
  disable_legacy_member_targets, mark_targets_absent,
}
use node_conductor.Backend.Targets.Members.{
  upsert_member, upsert_issue, mark_members_absent, mark_issues_absent,
}
use node_conductor.Backend.Targets.Sync.{
  operational_among, issues_among, lock_connection, upsert_resources, upsert_members_of,
  upsert_members, member_docker_ids, upsert_issues, discovered_among, settle_targets, settle,
  synchronize_inventory_rows,
}
use node_conductor.Backend.Targets.Contracts.{fetch_agent_connection_row}
use node_conductor.Backend.Targets.Accepted.{named_services, all_complete}
use node_conductor.Backend.Synchronization.{
  ready, AgentHealth, AgentCapabilities, AgentClient, expected_api_version, resource_inventory_v1,
  synchronized, SyncResult, SyncState, SyncOutcome, result, validate_agent_contract, record_failure,
  record_success, consult, chosen_client, synchronize_agent_inventory,
}
use node_conductor.Backend.Synchronization.Contract.{IsAgreed}
use node_conductor.Agent.Status.{Engine, health, capabilities, standalone_start_stop}
use node_conductor.Backend.Synchronization.Peer.{
  received_health, received_capabilities, peer_verdict,
}
use node_conductor.Backend.Synchronization.Outcomes.{IsFailure, failed_sync}
use node_conductor.Backend.Synchronization.Applied.{
  IsSynchronized, sync_agrees, agent_is_synchronized,
}
use node_conductor.Backend.Tests.Inventory.{kept, one_each}
use node_conductor.Backend.Tests.Targets.{home, before_sync}

abbrev healthy : AgentHealth
healthy = record { agent_id = 4; status = ready; agent_version = 20; engine_available = true }

abbrev capable : AgentCapabilities
capable = record {
  agent_id = 4;
  agent_version = 20;
  api_version = expected_api_version;
  engine_available = true;
  capabilities = resource_inventory_v1 ∷ [];
}

abbrev working : AgentClient
working = record {
  health = fine healthy;
  capabilities = fine capable;
  list_resources = serving kept;
}

-- What `_build_client` makes of any connection here: a client that reaches nothing.
abbrev unreachable : Connection → Checked AgentClient
unreachable c = fine (record {
  health = error agent_unavailable;
  capabilities = error agent_unavailable;
  list_resources = λ k limit offset id. error agent_unavailable;
})

abbrev initial : SyncState
initial = record { tables = before_sync; events = [] }

abbrev result_of : SyncOutcome → SyncResult
result_of (result r) = r
result_of _ = record {
  status = synchronized;
  connection_id = 0;
  agent_id = 0;
  pages = 0;
  report = none;
  error_code = none;
}

abbrev run : Option AgentClient → SyncState × SyncOutcome
run client = synchronize_agent_inventory one_each unreachable client 3 8 initial

healthy-IsAgreed : IsAgreed home healthy capable
unfolding any_text
healthy-IsAgreed = record {
  health_agent = refl;
  capabilities_agent = refl;
  versions = refl;
  api_version = refl;
  inventory = refl;
  status = refl;
  engine = refl;
  engine_seen = refl;
}

failed_sync_example :
    (c : Connection) × (fetch_agent_connection_row 3 initial.tables ≡ some c)
    × ((run none).0.tables ≡ initial.tables)
    × IsFailure c agent_unavailable initial.events
        (run none).0.events
        (result_of (run none).1).status
unfolding synchronize_agent_inventory fetch_agent_connection_row find_where consult record_failure
failed_sync_example =
    failed_sync one_each unreachable none 3 8 initial (run none).0 (result_of (run none).1)
      agent_unavailable refl refl

sync_agrees_example :
    (c : Connection) × (fetch_agent_connection_row 3 initial.tables ≡ some c)
    × IsSynchronized one_each 3 8 c
        (chosen_client unreachable (some working) c)
        initial
        (run (some working)).0
        (result_of (run (some working)).1)
unfolding synchronize_agent_inventory fetch_agent_connection_row find_where consult record_failure
    record_success validate_agent_contract any_text fetch_complete_inventory fetch_pages
    validate_page take_items take_resource seen_identity see_members conclude exposes_member
    synchronize_inventory_rows lock_connection upsert_resources upsert_resource upsert_target
    trigger_refuses upsert insert update_where upsert_members upsert_members_of upsert_member
    upsert_issues upsert_issue operational_among issues_among settle settle_targets
    member_docker_ids discovered_among existing_targets any_target disable_legacy_member_targets
    mark_targets_absent mark_members_absent mark_issues_absent any_id count_where
sync_agrees_example =
    sync_agrees one_each unreachable (some working) 3 8 initial (run (some working)).0
      (result_of (run (some working)).1) refl refl

agent_is_synchronized_example :
    (s' : SyncState) × (r : SyncResult) × (synchronize_agent_inventory one_each unreachable
        (some working)
        3
        8
        initial
      ≡ (s', result r))
    × (r.status ≡ synchronized)
unfolding fetch_agent_connection_row find_where take_items take_resource seen_identity see_members
    any_text exposes_member all_complete named_services
agent_is_synchronized_example =
    agent_is_synchronized one_each unreachable 3 8 initial home healthy capable kept
      (record { resources = kept.resources; seen_member_ids = 51 ∷ [] }) refl healthy-IsAgreed
      (omega arith) (omega arith) (omega arith) refl refl refl

-- An engine that has stopped.
abbrev stopped_engine : Engine
stopped_engine = record { pings = false; version = none }

peer_verdict_example :
    validate_agent_contract home
      (received_health (health 4 20 stopped_engine))
      (received_capabilities (capabilities 4 20 (standalone_start_stop ∷ []) stopped_engine))
    ≡ some capability_missing
peer_verdict_example = peer_verdict home 20 (standalone_start_stop ∷ []) stopped_engine
