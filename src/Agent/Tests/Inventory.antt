-- ===== src/Agent/Tests/Inventory.antt =====
-- The inventory on a concrete engine.
use node_conductor.Base.{◌==◌, ◌≡◌, refl, some, All}
use node_conductor.Table.{count_where, find_where, update_where}
use node_conductor.Agent.Schema.{
  Snapshot, standalone_container, ManagementPolicy, State, Health, Member,
}
use node_conductor.Agent.Policies.{Change, policy_of, force_protected, observe_rows, write_policy}
use node_conductor.Agent.Inventory.{
  Protection, build_resources, is_configured_protection, update_policy,
}
use node_conductor.Agent.Inventory.Sound.{IsSound, build-IsSound}
use node_conductor.Agent.Inventory.Complete.{standing_for, containers-build}
use node_conductor.Agent.Inventory.Protected.{update_policy-keeps}
use node_conductor.Agent.Tests.{engine, store, unprotected, member}

abbrev protects_web : Protection
protects_web = record { kind = some standalone_container; target = some 41 }

abbrev stopped_member : Member
stopped_member = record member { state = State.exited; health_status = Health.none }

build-IsSound_example : All (IsSound protects_web) (build_resources protects_web 5 engine store).1
build-IsSound_example = build-IsSound protects_web 5 engine store

containers-build_example :
    standing_for 41 (build_resources unprotected 5 engine store).1
    ≡ count_where (λ (c : Snapshot). c.id == 41) engine
containers-build_example = containers-build unprotected 5 engine store 41

-- An attempt to take the container 41 out of its protection.
abbrev release : Change
release = record {
  target_kind = standalone_container;
  target = 41;
  management_policy = ManagementPolicy.managed;
  actor = 9;
}

update_policy-keeps_example :
    policy_of standalone_container 41
      (update_policy protects_web 80 release 5 6 7 engine
        (force_protected standalone_container 41 42 4 store)).0
    ≡ some ManagementPolicy.protected
unfolding is_configured_protection policy_of force_protected observe_rows write_policy update_where
    find_where
update_policy-keeps_example =
    update_policy-keeps protects_web 80 release 5 6 7 engine
      (force_protected standalone_container 41 42 4 store) standalone_container 41 refl refl
