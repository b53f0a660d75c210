-- ===== src/Agent/Status.antt =====
-- What the Agent says of itself: `health` and `capabilities` of inventory_service.py and
-- `capabilities` of action_service.py (agent/src/nodeconductor_agent).
use node_conductor.Base.{
  Text, Bool, true, false, Option, none, some, List, [], ◌∷◌, ◌++◌, ◌&&◌, if◌then◌else◌,
}

-- What the engine answers to `ping`, and to `version` with its two texts; both raise
-- `EngineUnavailableError` where it does not answer.
pub record Engine : Type 0 where
  pub pings : Bool
  pub version : Option (Text × Text)

pub record HealthResponse : Type 0 where
  pub agent_id : Text
  pub is_ready : Bool
  pub agent_version : Text
  pub engine_available : Bool

pub record CapabilitiesResponse : Type 0 where
  pub agent_id : Text
  pub agent_version : Text
  pub api_version : Text
  pub engine_available : Bool
  pub engine_version : Option Text
  pub docker_api_version : Option Text
  pub capabilities : List Text

-- The texts that both sides know: "v2", and the names of the capabilities.
abbrev pub v2 : Text
v2 = 2

abbrev pub inventory_capability : Text
inventory_capability = 1

abbrev pub base_capabilities : List Text
base_capabilities = 11 ∷ 12 ∷ []

abbrev pub engine_capabilities : List Text
engine_capabilities = 13 ∷ 14 ∷ inventory_capability ∷ 15 ∷ []

abbrev pub standalone_start_stop : Text
standalone_start_stop = 16

abbrev pub compose_start_stop : Text
compose_start_stop = 17

-- `ActionService.capabilities`, by whether there are projects and whether the runner is available.
unfoldable pub action_capabilities : Bool → Bool → List Text
action_capabilities has_projects runner_available =
    standalone_start_stop
    ∷ (if has_projects && runner_available then compose_start_stop ∷ [] else [])

unfoldable pub health : Text → Text → Engine → HealthResponse
health agent_id version e =
    if e.pings
    then record {
      agent_id = agent_id;
      is_ready = true;
      agent_version = version;
      engine_available = true;
    }
    else record {
      agent_id = agent_id;
      is_ready = false;
      agent_version = version;
      engine_available = false;
    }

abbrev pub capabilities_with : Text → Text → List Text → Option (Text × Text) → CapabilitiesResponse
capabilities_with agent_id version actions none = record {
  agent_id = agent_id;
  agent_version = version;
  api_version = v2;
  engine_available = false;
  engine_version = none;
  docker_api_version = none;
  capabilities = base_capabilities;
}
capabilities_with agent_id version actions (some (engine, api)) = record {
  agent_id = agent_id;
  agent_version = version;
  api_version = v2;
  engine_available = true;
  engine_version = some engine;
  docker_api_version = some api;
  capabilities = base_capabilities ++ (engine_capabilities ++ actions);
}

unfoldable pub capabilities : Text → Text → List Text → Engine → CapabilitiesResponse
capabilities agent_id version actions e = capabilities_with agent_id version actions e.version
