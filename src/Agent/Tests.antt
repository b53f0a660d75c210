-- ===== src/Agent/Tests.antt =====
-- The Agent on a concrete engine.
mod Actions
mod System
mod Journal
mod Policies
mod Inventory
mod Edges
use node_conductor.Base.{Option, some, List, [], ◌∷◌}
use node_conductor.Agent.Schema.{
  standalone_container, managed, State, Health, ComposeClassification, Snapshot, Member,
}
use node_conductor.Agent.Policies.{Store}
use node_conductor.Agent.Inventory.{Protection}

abbrev pub web_server : Snapshot
web_server = record {
  id = 41;
  name = 42;
  state = State.exited;
  health_status = Health.none;
  compose_classification = ComposeClassification.none;
  compose_project = Option.none;
  compose_service = Option.none;
}

-- A container of the project 60.
abbrev pub database : Snapshot
database = record {
  id = 51;
  name = 52;
  state = State.running;
  health_status = Health.healthy;
  compose_classification = ComposeClassification.coherent;
  compose_project = some 60;
  compose_service = some 61;
}

abbrev pub engine : List Snapshot
engine = database ∷ web_server ∷ []

-- The container 41 has the policy `managed`.
abbrev pub store : Store
store = record {
  policies =
      record {
        target_kind = standalone_container;
        target = 41;
        current_name = 42;
        management_policy = managed;
        first_seen_at = 1;
        last_seen_at = 2;
        updated_at = 2;
      }
      ∷ [];
  audit = [];
}

abbrev pub unprotected : Protection
unprotected = record { kind = Option.none; target = Option.none }

abbrev pub member : Member
member = record {
  docker_id = 51;
  name = 52;
  compose_service = some 61;
  state = State.running;
  health_status = Health.healthy;
  last_observed_at = 5;
}
