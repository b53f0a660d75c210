-- ===== src/Backend/Synchronization/Peer.antt =====
-- The two sides together: what `_validate_agent_contract` of services/agent_inventory_sync.py makes
-- of the answers of the Agent's inventory_service.py.
use node_conductor.Base.{
  Text, ◌≡◌, refl, Bool, true, false, Option, none, some, List, ◌==◌, if◌then◌else◌, ==_iff,
}
use node_conductor.Agent.Status.{Engine, HealthResponse, CapabilitiesResponse, health, capabilities}
use node_conductor.Backend.Inventory.{SyncError, capability_missing, engine_unavailable, any_text}
use node_conductor.Backend.Targets.{Connection}
use node_conductor.Backend.Synchronization.{
  ready, degraded, AgentHealth, AgentCapabilities, validate_agent_contract,
}

-- The answers as the client reads them.
abbrev pub received_health : HealthResponse → AgentHealth
received_health h = record {
  agent_id = h.agent_id;
  status = if h.is_ready then ready else degraded;
  agent_version = h.agent_version;
  engine_available = h.engine_available;
}

abbrev pub received_capabilities : CapabilitiesResponse → AgentCapabilities
received_capabilities k = record {
  agent_id = k.agent_id;
  agent_version = k.agent_version;
  api_version = k.api_version;
  engine_available = k.engine_available;
  capabilities = k.capabilities;
}

-- The verdict on an Agent by what its engine answers to `ping` and to `version`.
abbrev pub verdict_on : Bool → Option (Text × Text) → Option SyncError
verdict_on pings none = some capability_missing
verdict_on true (some v) = none
verdict_on false (some v) = some engine_unavailable

-- The Agent of a connection passes the contract just when its engine answers. Where the engine does
-- not tell its version, the Agent leaves the inventory out of its capabilities and the verdict is
-- `capability_missing`; where only the ping fails, it is `engine_unavailable`.
pub peer_verdict :
    (c : Connection) (version : Text) (actions : List Text) (e : Engine)
    → validate_agent_contract c
        (received_health (health c.agent_id version e))
        (received_capabilities (capabilities c.agent_id version actions e))
      ≡ verdict_on e.pings e.version
unfolding validate_agent_contract health capabilities any_text
peer_verdict c version actions e = go e.pings e.version
  where
    own : (c.agent_id == c.agent_id) ≡ true
    own = (==_iff c.agent_id c.agent_id).1 refl

    same : (version == version) ≡ true
    same = (==_iff version version).1 refl

    go :
        (p : Bool) (v : Option (Text × Text))
        → validate_agent_contract c
            (received_health (health c.agent_id version (record { pings = p; version = v })))
            (received_capabilities
              (capabilities c.agent_id version actions (record { pings = p; version = v })))
          ≡ verdict_on p v
    go true none = rw (own, same) refl
    go false none = rw (own, same) refl
    go true (some v) = rw (own, same) refl
    go false (some v) = rw (own, same) refl
