-- ===== src/Backend/Tests/Targets.antt =====
-- Synchronisations of a small table of targets.
use mathlib.Core.List.{Memᴰ}
use node_conductor.Base.{
  ℕ, ltb, ◌≡◌, refl, Bool, true, false, none, some, List, [], ◌∷◌, arith, not, ◌&&◌, if◌then◌else◌,
}
use node_conductor.Table.{count_where, find_where, update_where}
use node_conductor.Table.Serial.{insert, upsert}
use node_conductor.Agent.Schema.{standalone_container, ManagementPolicy}
use node_conductor.Backend.Inventory.{any_text}
use node_conductor.Backend.Written.{Written, wrote, refused}
use node_conductor.Backend.Targets.{
  AgentTransport, Connection, TargetRow, docker, target_with_id, existing_targets, any_target,
  trigger_refuses, upsert_target, upsert_resource, any_id, disable_legacy_member_targets,
  mark_targets_absent, is_legacy_member,
}
use node_conductor.Backend.Targets.Members.{
  upsert_member, upsert_issue, mark_members_absent, mark_issues_absent,
}
use node_conductor.Backend.Targets.Sync.{
  Tables, Report, operational_among, issues_among, lock_connection, upsert_resources,
  upsert_members_of, upsert_members, member_docker_ids, upsert_issues, discovered_among,
  settle_targets, settle, synchronize_inventory_rows,
}
use node_conductor.Backend.Targets.Contracts.{update_target_management_policy_row}
use node_conductor.Backend.Targets.Valid.{IsKeyed}
use node_conductor.Backend.Targets.Protection.{IsProtected, synchronize-others}
use node_conductor.Backend.Targets.System.{
  Reach, here, next, synchronizes, sets_policy, Reach-IsKeyed, Reach-IsProtected,
}
use node_conductor.Backend.Targets.Presence.{is_observed}
use node_conductor.Backend.Targets.Settled.{docker_ids_among, synchronize-presence}
use node_conductor.Backend.Tests.Inventory.{two_resources}

abbrev pub home : Connection
home = record {
  id = 3;
  agent_id = 4;
  description = 9;
  transport = AgentTransport.unix_socket;
  endpoint = 10;
  credential_ref = none;
}

abbrev target_row : ℕ → ℕ → ℕ → Bool → TargetRow
target_row i c t forced = record {
  id = i;
  driver = docker;
  connection_id = c;
  target_kind = standalone_container;
  target = t;
  management_policy = if forced then ManagementPolicy.protected else ManagementPolicy.managed;
  display_name = none;
  observed_state = none;
  observed_health_status = none;
  last_seen_at = none;
  is_present = true;
  is_pilotable = true;
  protection_forced = forced;
}

-- A container that the inventory lists, protected by force; one that it does not list; one that it
-- lists as a member; and one of another connection.
abbrev pub before_sync : Tables
before_sync = record {
  connections = home ∷ [];
  targets = record {
    rows =
        target_row 1 3 41 true
        ∷ target_row 2 3 99 false
        ∷ target_row 3 3 51 false
        ∷ target_row 4 8 41 false
        ∷ [];
    next_id = 5;
  };
  members = record { rows = []; next_id = 1 };
  issues = record { rows = []; next_id = 1 };
  docker_id_fits = λ t. ltb t 1000;
}

abbrev written_tables {ℓ} : {A : Type ℓ} → Written (Tables × A) → Tables
written_tables (wrote (t, r)) = t
written_tables (refused e) = before_sync

abbrev written_report : Written (Tables × Report) → Report
written_report (wrote (t, r)) = r
written_report (refused e) = record {
  discovered = [];
  created_count = 0;
  updated_count = 0;
  absent_count = 0;
  member_count = 0;
  member_absent_count = 0;
  issue_count = 0;
  issue_absent_count = 0;
  total_count = 0;
}

abbrev synced : Written (Tables × Report)
synced = synchronize_inventory_rows 3 two_resources 8 before_sync

abbrev after_sync : Tables
after_sync = written_tables synced

abbrev after_policy : Tables
after_policy =
    written_tables (update_target_management_policy_row 1 ManagementPolicy.managed after_sync)

before_sync-IsKeyed : IsKeyed before_sync.targets.rows before_sync.targets.next_id
unfolding count_where
before_sync-IsKeyed = record {
  ids_unique = λ i. ground arith;
  ids_below = λ n. ground arith;
  keys_unique = λ d c k t. ground arith;
}

synced_done : synced ≡ wrote (after_sync, written_report synced)
unfolding synchronize_inventory_rows lock_connection find_where upsert_resources upsert_resource
    upsert_target trigger_refuses upsert insert update_where upsert_members upsert_members_of
    upsert_member upsert_issues upsert_issue operational_among issues_among settle settle_targets
    member_docker_ids discovered_among existing_targets any_target disable_legacy_member_targets
    mark_targets_absent mark_members_absent mark_issues_absent any_id any_text count_where
synced_done = refl

set_done :
    update_target_management_policy_row 1 ManagementPolicy.managed after_sync
    ≡ wrote (after_policy, none)
unfolding synchronize_inventory_rows lock_connection find_where upsert_resources upsert_resource
    upsert_target trigger_refuses upsert insert update_where upsert_members upsert_members_of
    upsert_member upsert_issues upsert_issue operational_among issues_among settle settle_targets
    member_docker_ids discovered_among existing_targets any_target disable_legacy_member_targets
    mark_targets_absent mark_members_absent mark_issues_absent any_id any_text count_where
    update_target_management_policy_row
set_done = refl

-- A synchronisation, then an attempt to take the protection away.
two_steps : Reach before_sync after_policy
two_steps =
    next
      (next here
        (synchronizes 3 two_resources 8 before_sync after_sync (written_report synced) synced_done))
      (sets_policy 1 ManagementPolicy.managed after_sync after_policy none set_done)

Reach-IsKeyed_example : IsKeyed after_policy.targets.rows after_policy.targets.next_id
Reach-IsKeyed_example = Reach-IsKeyed two_steps before_sync-IsKeyed

Reach-IsProtected_example : IsProtected 1 (target_row 1 3 41 true) after_policy
unfolding find_where
Reach-IsProtected_example = Reach-IsProtected 1 (target_row 1 3 41 true) two_steps (record {
  row = target_row 1 3 41 true;
  at = refl;
  holds = record {
    forced = refl;
    policy = refl;
    same_driver = refl;
    same_connection = refl;
    same_target_kind = refl;
    same_target = refl;
  };
})

synchronize-others_example :
    find_where (target_with_id 4) after_sync.targets.rows ≡ some (target_row 4 8 41 false)
unfolding find_where
synchronize-others_example =
    synchronize-others 3 two_resources 8 before_sync after_sync (written_report synced) 4
      (target_row 4 8 41 false) synced_done refl (λ e. omega (arith, e))

abbrev second_row : List TargetRow → TargetRow
second_row (x ∷ y ∷ rs) = y
second_row rs = target_row 0 0 0 false

-- The container that is not listed any more.
abbrev lost_row : TargetRow
lost_row = second_row after_sync.targets.rows

synchronize-presence_example : lost_row.is_present ≡ (
    is_observed (operational_among two_resources) lost_row
    && not (is_legacy_member 3 (docker_ids_among (operational_among two_resources)) lost_row))
unfolding synchronize_inventory_rows lock_connection find_where upsert_resources upsert_resource
    upsert_target trigger_refuses upsert insert update_where upsert_members upsert_members_of
    upsert_member upsert_issues upsert_issue operational_among issues_among settle settle_targets
    member_docker_ids discovered_among existing_targets any_target disable_legacy_member_targets
    mark_targets_absent mark_members_absent mark_issues_absent any_id any_text count_where
synchronize-presence_example =
    synchronize-presence 3 two_resources 8 before_sync after_sync (written_report synced) lost_row
      before_sync-IsKeyed synced_done (Memᴰ.tail (Memᴰ.head refl)) refl
