-- ===== src/Backend/Tests/Inventory.antt =====
-- The collection of a small inventory, one resource to a page.
use node_conductor.Base.{ℕ, ◌≡◌, ◌≤◌, refl, false, none, some, List, [], ◌∷◌, All, arith}
use node_conductor.Agent.Schema.{
  ManagementPolicy, State, Health, ComposeClassification, Snapshot, Member, Resource,
}
use node_conductor.Agent.Inventory.{ProtectionStatus, Stored, standalone_row, compose_row}
use node_conductor.Backend.Inventory.{
  SyncSettings, fine, take_items, take_resource, seen_identity, see_members, any_text,
  identity_invalid, exposes_member, validate_page, conclude, fetch_pages, fetch_complete_inventory,
}
use node_conductor.Backend.Inventory.Collected.{serving, fetch_complete-snapshot}
use node_conductor.Backend.Inventory.Refused.{Distinct, fetch_complete-IsProper}

abbrev pub container : Snapshot
container = record {
  id = 41;
  name = 42;
  state = State.exited;
  health_status = Health.none;
  compose_classification = ComposeClassification.none;
  compose_project = none;
  compose_service = none;
}

abbrev pub project_member : Member
project_member = record {
  docker_id = 51;
  name = 52;
  compose_service = some 61;
  state = State.running;
  health_status = Health.healthy;
  last_observed_at = 5;
}

abbrev pub two_resources : List Resource
two_resources =
    compose_row 60 (project_member ∷ []) false ManagementPolicy.managed
    ∷ standalone_row container false ManagementPolicy.discovered
    ∷ []

abbrev pub kept : Stored
kept = record {
  id = 90;
  resources = two_resources;
  observed_at = 5;
  status = ProtectionStatus.not_configured;
}

abbrev pub one_each : SyncSettings
one_each = record { page_size = 1; max_pages = 3 }

fetch_complete-snapshot_example :
    (m : ℕ) × (m ≤ 3) × (fetch_complete_inventory one_each (serving kept) ≡ fine (two_resources, m))
unfolding take_items take_resource seen_identity see_members any_text exposes_member
fetch_complete-snapshot_example =
    fetch_complete-snapshot one_each kept
      (record { resources = two_resources; seen_member_ids = 51 ∷ [] }) (omega arith) (omega arith)
      (omega arith) refl refl

fetch_complete-IsProper_example :
    Distinct two_resources × All (λ r. identity_invalid r ≡ false) two_resources × (2 ≤ 3)
unfolding fetch_complete_inventory fetch_pages validate_page conclude take_items take_resource
    seen_identity see_members any_text exposes_member
fetch_complete-IsProper_example =
    fetch_complete-IsProper one_each (serving kept) two_resources 2 refl
