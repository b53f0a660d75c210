-- ===== src/Backend/Targets/Contracts.antt =====
-- Connections, targets and bindings as the operator sets them up
-- (backend/src/nodeconductor/repositories/worker_contracts_repository.py). A binding is returned
-- with the description of its service.
use node_conductor.Base.{
  ℕ, Text, Bool, true, false, Option, none, some, List, [], ◌∷◌, ◌++◌, ◌&&◌, ◌||◌, not, ◌==◌,
  if◌then◌else◌, is_some, or_default,
}
use node_conductor.Table.{find_where, update_where}
use node_conductor.Table.Serial.{insert}
use node_conductor.Agent.Schema.{
  TargetKind, standalone_container, ManagementPolicy, discovered, protected, same_policy,
}
use node_conductor.Backend.Schema.{Service}
use node_conductor.Backend.Written.{
  Written, wrote, refused, unique_violation, foreign_key_violation, not_pilotable,
  protection_violation,
}
use node_conductor.Backend.Targets.{AgentTransport, Connection, TargetRow, has_key, trigger_refuses}
use node_conductor.Backend.Targets.Sync.{Tables, connection_with_id}

-- The dictionaries that the functions take; a key that may be missing is an option.
pub record ConnectionData : Type 0 where
  pub id : Text
  pub agent_id : Option Text
  pub description : Text
  pub transport : AgentTransport
  pub endpoint : Text
  pub credential_ref : Option Text

pub record TargetData : Type 0 where
  pub driver : Text
  pub connection_id : Text
  pub target_kind : Option TargetKind
  pub target : Text

pub data ReadinessCheck : Type 0 where
  docker_state docker_health http tcp : ReadinessCheck

-- A row of `service_targets`.
pub record BindingRow : Type 0 where
  pub service_id : ℕ
  pub target_id : ℕ
  pub readiness_check : ReadinessCheck

unfoldable pub create_agent_connection_row : ConnectionData → Tables → Written (Tables × Connection)
create_agent_connection_row d db =
    let row : Connection = record {
      id = d.id;
      agent_id = or_default d.agent_id d.id;
      description = d.description;
      transport = d.transport;
      endpoint = d.endpoint;
      credential_ref = d.credential_ref;
    } in
    if is_some (find_where (connection_with_id d.id) db.connections)
    then refused unique_violation
    else wrote (record db { connections = db.connections ++ (row ∷ []) }, row)

unfoldable pub fetch_agent_connection_row : Text → Tables → Option Connection
fetch_agent_connection_row c db = find_where (connection_with_id c) db.connections

abbrev pub kind_of : TargetData → TargetKind
kind_of d = or_default d.target_kind standalone_container

-- The row with the defaults of its columns.
abbrev pub created_target : TargetData → ℕ → TargetRow
created_target d i = record {
  id = i;
  driver = d.driver;
  connection_id = d.connection_id;
  target_kind = kind_of d;
  target = d.target;
  management_policy = discovered;
  display_name = none;
  observed_state = none;
  observed_health_status = none;
  last_seen_at = none;
  is_present = false;
  is_pilotable = true;
  protection_forced = false;
}

unfoldable pub create_target_row : TargetData → Tables → Written (Tables × TargetRow)
create_target_row d db =
    let (t, row) = insert (created_target d) db.targets in
    if not (is_some (find_where (connection_with_id d.connection_id) db.connections))
    then refused foreign_key_violation
    else if is_some
        (find_where (has_key d.driver d.connection_id (kind_of d) d.target) db.targets.rows)
    then refused unique_violation
    else wrote (record db { targets = t }, row)

-- WHERE id = i AND (NOT protection_forced OR policy = 'protected')
abbrev pub may_be_set : ℕ → ManagementPolicy → TargetRow → Bool
may_be_set i policy r = r.id == i && (not r.protection_forced || same_policy policy protected)

abbrev pub with_policy : ManagementPolicy → TargetRow → TargetRow
with_policy policy r = record r { management_policy = policy }

unfoldable pub update_target_management_policy_row :
    ℕ → ManagementPolicy → Tables → Written (Tables × Option TargetRow)
update_target_management_policy_row i policy db =
    if trigger_refuses (may_be_set i policy) (with_policy policy) db.targets.rows
    then refused protection_violation
    else wrote (
      record db {
        targets = record db.targets {
          rows = update_where (may_be_set i policy) (with_policy policy) db.targets.rows;
        };
      },
      find_where (may_be_set i policy)
          (update_where (may_be_set i policy) (with_policy policy) db.targets.rows),
    )

-- What a new binding meets: the keys of `services` and `targets`, the trigger
-- `require_pilotable_service_target`, and the two unique indexes of `service_targets`.
unfoldable pub create_service_target_binding_row :
    BindingRow → List Service → Tables → List BindingRow → Written (List BindingRow × BindingRow)
create_service_target_binding_row b services db bindings =
    if not (
      is_some
        (find_where (λ (r : TargetRow). r.id == b.target_id && r.is_pilotable) db.targets.rows))
    then refused not_pilotable
    else if is_some (find_where (λ (r : BindingRow). r.service_id == b.service_id) bindings)
    then refused unique_violation
    else if is_some (find_where (λ (r : BindingRow). r.target_id == b.target_id) bindings)
    then refused unique_violation
    else if not (is_some (find_where (λ (s : Service). s.id == b.service_id) services))
    then refused foreign_key_violation
    else wrote (bindings ++ (b ∷ []), b)

abbrev pub described : BindingRow → Option Service → Option (BindingRow × Text)
described b none = none
described b (some s) = some (b, s.description)

abbrev pub joined : List Service → Option BindingRow → Option (BindingRow × Text)
joined services none = none
joined services (some b) = described b (find_where (λ (s : Service). s.id == b.service_id) services)

unfoldable pub fetch_service_target_binding_row :
    ℕ → List Service → List BindingRow → Option (BindingRow × Text)
fetch_service_target_binding_row i services bindings =
    joined services (find_where (λ (r : BindingRow). r.service_id == i) bindings)
