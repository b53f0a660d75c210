-- ===== src/Agent/Tests/Policies.antt =====
-- The policies on a concrete store.
use node_conductor.Base.{◌≡◌, refl, some, [], ◌∷◌, ◌++◌, or_default}
use node_conductor.Table.{find_where}
use node_conductor.Agent.Schema.{standalone_container, managed, protected, discovered}
use node_conductor.Agent.Policies.{
  Store, Audit, Change, response, audit_row, policy_of, set_policy, fetch_operation,
}
use node_conductor.Agent.Policies.Changes.{set_policy_new}
use node_conductor.Agent.Tests.{store}

abbrev protect : Change
protect = record {
  target_kind = standalone_container;
  target = 41;
  management_policy = protected;
  actor = 9;
}

abbrev release : Change
release = record protect { management_policy = managed }

set_policy_new_example :
    let (s', result) = set_policy 80 protect 42 6 7 store in
    let row : Audit = record {
      operation_id = 80;
      target_kind = standalone_container;
      target = 41;
      actor = 9;
      previous_policy = or_default (policy_of standalone_container 41 store) discovered;
      management_policy = protected;
      changed_at = 7;
    } in
    (policy_of standalone_container 41 s' ≡ some protected)
    × (s'.audit ≡ [] ++ (row ∷ []))
    × (result ≡ response row)
unfolding fetch_operation find_where
set_policy_new_example = set_policy_new 80 protect 42 6 7 store standalone_container 41 refl

-- The id 80 was used to protect the container, with another policy before it.
abbrev protecting : Audit
protecting = audit_row 80 protect managed 7

abbrev audited : Store
audited = record store { audit = protecting ∷ [] }
