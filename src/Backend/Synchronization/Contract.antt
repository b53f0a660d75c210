-- ===== src/Backend/Synchronization/Contract.antt =====
-- The contract between the backend and an Agent (`_validate_agent_contract` of
-- services/agent_inventory_sync.py).
use node_conductor.Base.{ℕ, ◌≡◌, refl, inl, inr, true, none, List, arith, Option-cases}
use node_conductor.Agent.Schema.{Resource}
use node_conductor.Backend.Inventory.{
  SyncSettings, fine, Client, any_text, fetch_complete_inventory,
}
use node_conductor.Backend.Inventory.Collected.{Checked-cases}
use node_conductor.Backend.Targets.{Connection}
use node_conductor.Backend.Synchronization.{
  ready, AgentHealth, AgentCapabilities, AgentClient, expected_api_version, resource_inventory_v1,
  validate_agent_contract, consult,
}

-- The contract that `validate_agent_contract` accepts.
pub record IsAgreed (c : Connection) (h : AgentHealth) (k : AgentCapabilities) : Type 0 where
  pub health_agent : h.agent_id ≡ c.agent_id
  pub capabilities_agent : k.agent_id ≡ c.agent_id
  pub versions : h.agent_version ≡ k.agent_version
  pub api_version : k.api_version ≡ expected_api_version
  pub inventory : any_text resource_inventory_v1 k.capabilities ≡ true
  pub status : h.status ≡ ready
  pub engine : h.engine_available ≡ true
  pub engine_seen : k.engine_available ≡ true

pub agreed_contract :
    (c : Connection) (h : AgentHealth) (k : AgentCapabilities)
    → IsAgreed c h k
    → validate_agent_contract c h k ≡ none
unfolding validate_agent_contract
agreed_contract c h k a = ground (
  arith, a.health_agent, a.capabilities_agent, a.versions, a.api_version, a.inventory, a.status,
  a.engine, a.engine_seen,
)

contract-IsAgreed :
    (c : Connection) (h : AgentHealth) (k : AgentCapabilities)
    → validate_agent_contract c h k ≡ none
    → IsAgreed c h k
unfolding validate_agent_contract
contract-IsAgreed c h k e = record {
  health_agent = ground arith;
  capabilities_agent = ground arith;
  versions = ground arith;
  api_version = ground arith;
  inventory = ground arith;
  status = ground arith;
  engine = ground arith;
  engine_seen = ground arith;
}

pub consult-IsAgreed :
    (settings : SyncSettings) (c : Connection) (client : AgentClient) (resources : List Resource)
    (pages : ℕ)
    → consult settings c client ≡ fine (resources, pages)
    → (h : AgentHealth) × (k : AgentCapabilities) × (client.health ≡ fine h)
      × (client.capabilities ≡ fine k)
      × IsAgreed c h k
      × (fetch_complete_inventory settings client.list_resources ≡ fine (resources, pages))
unfolding consult
consult-IsAgreed settings c client resources pages e = elim (Checked-cases client.health) [
  | inr (f, bad) ↦ absurd (ground arith)
  | inl (h, healthy) ↦ elim (Checked-cases client.capabilities) [
    | inr (f, bad) ↦ absurd (ground arith)
    | inl (k, capable) ↦ elim (Option-cases (validate_agent_contract c h k)) [
      | inr (f, bad) ↦ absurd (ground arith)
      | inl good ↦ (h, k, healthy, capable, contract-IsAgreed c h k good, ground arith)
    ]
  ]
]

pub consult-agreed :
    (settings : SyncSettings) (c : Connection) (h : AgentHealth) (k : AgentCapabilities)
    (list_resources : Client)
    → IsAgreed c h k
    → consult settings c
        (record { health = fine h; capabilities = fine k; list_resources = list_resources })
      ≡ fetch_complete_inventory settings list_resources
unfolding consult
consult-agreed settings c h k list_resources agreed =
    rw (agreed_contract c h k agreed, consult) refl
