-- ===== src/Agent/Schema.antt =====
-- The contracts of the Agent (agent/src/nodeconductor_agent/models.py). The texts that tell a
-- reader what a result code means are renderings of the codes and are left out.
use node_conductor.Base.{ℕ, Text, Bool, true, false, Option, List}

pub data TargetKind : Type 0 where
  compose_project standalone_container : TargetKind

pub data ManagementPolicy : Type 0 where
  discovered managed protected : ManagementPolicy

pub data ResourceAction : Type 0 where
  start stop : ResourceAction

-- `ContainerState` and `ComposeState` are two sets of these texts.
pub data State : Type 0 where
  created running paused restarting removing exited dead unknown : State
  stopped starting degraded partial : State

pub data Health : Type 0 where
  none starting healthy unhealthy unknown : Health

pub data Classification : Type 0 where
  operational ambiguous : Classification

pub data ComposeClassification : Type 0 where
  none coherent ambiguous : ComposeClassification

-- `ContainerSnapshot`, less the time of creation.
pub record Snapshot : Type 0 where
  pub id : Text
  pub name : Text
  pub state : State
  pub health_status : Health
  pub compose_classification : ComposeClassification
  pub compose_project : Option Text
  pub compose_service : Option Text

-- `ResourceMemberResponse`
pub record Member : Type 0 where
  pub docker_id : Text
  pub name : Text
  pub compose_service : Option Text
  pub state : State
  pub health_status : Health
  pub last_observed_at : ℕ

-- `ResourceResponse`; `diagnostic` says whether its one diagnostic status is set.
pub record Resource : Type 0 where
  pub classification : Classification
  pub target_kind : Option TargetKind
  pub target : Text
  pub display_name : Text
  pub state : State
  pub health_status : Health
  pub management_policy : Option ManagementPolicy
  pub operable : Bool
  pub protection_forced : Bool
  pub diagnostic : Bool
  pub members : List Member

abbrev pub same_kind : TargetKind → TargetKind → Bool
same_kind compose_project compose_project = true
same_kind standalone_container standalone_container = true
same_kind _ _ = false

abbrev pub is_kind : Option TargetKind → TargetKind → Bool
is_kind Option.none k = false
is_kind (Option.some j) k = same_kind j k

abbrev pub same_policy : ManagementPolicy → ManagementPolicy → Bool
same_policy discovered discovered = true
same_policy managed managed = true
same_policy protected protected = true
same_policy _ _ = false

abbrev pub same_action : ResourceAction → ResourceAction → Bool
same_action start start = true
same_action stop stop = true
same_action _ _ = false

abbrev pub is_operational : Classification → Bool
is_operational operational = true
is_operational Classification.ambiguous = false
