-- ===== src/Agent/Inventory/Update.antt =====
-- A request to change the policy of a resource (`update_policy` of inventory_service.py).
use node_conductor.Base.{ℕ, Text, ◌≡◌, true, false, none, some, List, if◌then◌else◌}
use node_conductor.Agent.Schema.{ManagementPolicy, Snapshot, same_policy}
use node_conductor.Agent.Policies.{
  Store, Audit, Change, response, operation_conflict, matches, replay_operation, fetch_operation,
}
use node_conductor.Agent.Inventory.{
  Protection, is_configured_protection, answered, protected_resource, update_policy,
}

module _ (cfg : Protection) (u : Text) (c : Change) (observed seen now : ℕ) (cs : List Snapshot)
    (s : Store) where
  -- The protection of the configured resource cannot be removed: a new request to give it another
  -- policy is refused and writes nothing, not even an observation.
  pub protection_stays :
      fetch_operation u s ≡ none
      → is_configured_protection cfg c.target_kind c.target ≡ true
      → same_policy c.management_policy ManagementPolicy.protected ≡ false
      → update_policy cfg u c observed seen now cs s ≡ (s, protected_resource)
  unfolding update_policy replay_operation
  protection_stays new own other = rw (new, update_policy) (rw (own, other))

  -- A repeated request is answered from the audit, whatever has become of the resource since.
  pub update_replays :
      (a : Audit)
      → fetch_operation u s ≡ some a
      → update_policy cfg u c observed seen now cs s
        ≡ (s, answered (if matches a c then response a else operation_conflict))
  unfolding update_policy replay_operation
  update_replays a known = rw (known, update_policy)
