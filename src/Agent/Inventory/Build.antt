-- ===== src/Agent/Inventory/Build.antt =====
-- How the inventory is built from the containers that the engine lists (`_build_resources` of
-- agent/src/nodeconductor_agent/inventory_service.py, with the methods that it calls).
use node_conductor.Base.{
  ℕ, Text, Bool, true, false, Option, none, some, List, [], ◌∷◌, ◌++◌, ◌&&◌, ◌||◌, ◌==◌, map, ltb,
  if◌then◌else◌, sql_eq, is_none,
}
use node_conductor.Agent.Schema.{
  TargetKind, compose_project, standalone_container, ManagementPolicy, Classification, operational,
  ComposeClassification, Snapshot, Member, Resource, is_kind,
}
use node_conductor.Agent.Aggregate.{aggregate_compose_state, aggregate_health_status}
use node_conductor.Agent.Policies.{Store, observe, force_protected}

-- `protected_target_kind` and `protected_target`.
pub record Protection : Type 0 where
  pub kind : Option TargetKind
  pub target : Option Text

pub data ProtectionStatus : Type 0 where
  not_configured protected configured_absent configured_inconsistent : ProtectionStatus

unfoldable pub is_configured_protection : Protection → TargetKind → Text → Bool
is_configured_protection c k t = is_kind c.kind k && sql_eq c.target (some t)

unfoldable pub policy_for : TargetKind → Text → Text → Bool → ℕ → Store → Store × ManagementPolicy
policy_for k t name true now s = (force_protected k t name now s, ManagementPolicy.protected)
policy_for k t name false now s = observe k t name now s

abbrev pub standalone_row : Snapshot → Bool → ManagementPolicy → Resource
standalone_row c forced policy = record {
  classification = operational;
  target_kind = some standalone_container;
  target = c.id;
  display_name = c.name;
  state = c.state;
  health_status = c.health_status;
  management_policy = some policy;
  operable = true;
  protection_forced = forced;
  diagnostic = false;
  members = [];
}

unfoldable pub standalone_resource : Protection → Snapshot → ℕ → Store → Store × Resource
standalone_resource cfg c now s =
    let forced = is_configured_protection cfg standalone_container c.id in
    let (s', policy) = policy_for standalone_container c.id c.name forced now s in
    (s', standalone_row c forced policy)

-- A container whose Compose labels do not make an identity is listed, and never operable.
unfoldable pub ambiguous_resource : Snapshot → Resource
ambiguous_resource c = record {
  classification = Classification.ambiguous;
  target_kind = none;
  target = c.id;
  display_name = c.name;
  state = c.state;
  health_status = c.health_status;
  management_policy = none;
  operable = false;
  protection_forced = false;
  diagnostic = true;
  members = [];
}

-- `sorted` by a key: an insertion sort, which is stable too.
unfoldable pub insert_by {ℓ} : {A : Type ℓ} → (A → A → Bool) → A → List A → List A
insert_by before x [] = x ∷ []
insert_by before x (y ∷ ys) =
    let rest = insert_by before x ys in if before y x then y ∷ rest else x ∷ (y ∷ ys)

unfoldable pub sort_by {ℓ} : {A : Type ℓ} → (A → A → Bool) → List A → List A
sort_by before [] = []
sort_by before (x ∷ xs) = insert_by before x (sort_by before xs)

abbrev pub member_of : ℕ → Snapshot → Member
member_of now c = record {
  docker_id = c.id;
  name = c.name;
  compose_service = c.compose_service;
  state = c.state;
  health_status = c.health_status;
  last_observed_at = now;
}

abbrev pub id_before : Snapshot → Snapshot → Bool
id_before a b = ltb a.id b.id

unfoldable pub compose_members : List Snapshot → ℕ → List Member
compose_members cs now = map (member_of now) (sort_by id_before cs)

abbrev pub compose_row : Text → List Member → Bool → ManagementPolicy → Resource
compose_row project ms forced policy = record {
  classification = operational;
  target_kind = some compose_project;
  target = project;
  display_name = project;
  state = aggregate_compose_state ms;
  health_status = aggregate_health_status ms;
  management_policy = some policy;
  operable = true;
  protection_forced = forced;
  diagnostic = false;
  members = ms;
}

unfoldable pub compose_resource : Protection → Text → List Snapshot → ℕ → Store → Store × Resource
compose_resource cfg project cs now s =
    let forced = is_configured_protection cfg compose_project project in
    let (s', policy) = policy_for compose_project project project forced now s in
    (s', compose_row project (compose_members cs now) forced policy)

abbrev pub Projects : Type 0
Projects = List (Text × List Snapshot)

-- projects.setdefault(project, []).append(snapshot)
unfoldable pub add_to_project : Text → Snapshot → Projects → Projects
add_to_project p c [] = (p, c ∷ []) ∷ []
add_to_project p c ((q, cs) ∷ ps) =
    let rest = add_to_project p c ps in if q == p then (q, cs ++ (c ∷ [])) ∷ ps else (q, cs) ∷ rest

-- The variables of the loop over the containers.
pub record Scan : Type 0 where
  pub projects : Projects
  pub resources : List Resource
  pub inconsistent : Bool
  pub store : Store

-- A coherent container has a project label; 0 stands for the one that is missing.
abbrev pub project_name : Option Text → Text
project_name none = 0
project_name (some p) = p

abbrev pub project_protected : Protection → Option Text → Bool
project_protected cfg none = false
project_protected cfg (some p) = is_configured_protection cfg compose_project p

unfoldable pub scan_as : Protection → ℕ → ComposeClassification → Snapshot → Scan → Scan
scan_as cfg now ComposeClassification.coherent c sc = record sc {
  projects = add_to_project (project_name c.compose_project) c sc.projects;
  inconsistent = sc.inconsistent || is_configured_protection cfg standalone_container c.id;
}
scan_as cfg now ComposeClassification.ambiguous c sc = record sc {
  resources = sc.resources ++ (ambiguous_resource c ∷ []);
  inconsistent =
      sc.inconsistent
      || is_configured_protection cfg standalone_container c.id
      || project_protected cfg c.compose_project;
}
scan_as cfg now ComposeClassification.none c sc =
    let (s', r) = standalone_resource cfg c now sc.store in
    record sc { resources = sc.resources ++ (r ∷ []); store = s' }

unfoldable pub scan_all : Protection → ℕ → List Snapshot → Scan → Scan
scan_all cfg now [] sc = sc
scan_all cfg now (c ∷ cs) sc = scan_all cfg now cs (scan_as cfg now c.compose_classification c sc)

unfoldable pub add_projects :
    Protection → ℕ → Projects → Store → List Resource → Store × List Resource
add_projects cfg now [] s rs = (s, rs)
add_projects cfg now ((p, cs) ∷ ps) s rs =
    let (s', r) = compose_resource cfg p cs now s in add_projects cfg now ps s' (rs ++ (r ∷ []))

-- The order of the texts "", "compose_project" and "standalone_container".
abbrev pub kind_rank : Option TargetKind → ℕ
kind_rank none = 0
kind_rank (some compose_project) = 1
kind_rank (some standalone_container) = 2

abbrev pub class_rank : Classification → ℕ
class_rank operational = 0
class_rank Classification.ambiguous = 1

abbrev pub resource_before : Resource → Resource → Bool
resource_before a b =
    ltb (class_rank a.classification) (class_rank b.classification)
    || (class_rank a.classification == class_rank b.classification
        && (ltb (kind_rank a.target_kind) (kind_rank b.target_kind)
            || (kind_rank a.target_kind == kind_rank b.target_kind && ltb a.target b.target)))

unfoldable pub any_forced : List Resource → Bool
any_forced [] = false
any_forced (r ∷ rs) = r.protection_forced || any_forced rs

unfoldable pub protection_status : Protection → List Resource → Bool → ProtectionStatus
protection_status cfg rs inconsistent =
    if is_none cfg.kind
    then ProtectionStatus.not_configured
    else if any_forced rs
    then ProtectionStatus.protected
    else if inconsistent
    then ProtectionStatus.configured_inconsistent
    else ProtectionStatus.configured_absent

unfoldable pub build_resources :
    Protection → ℕ → List Snapshot → Store → Store × List Resource × ProtectionStatus
build_resources cfg now cs s =
    let sc =
      scan_all cfg now cs
        (record { projects = []; resources = []; inconsistent = false; store = s }) in
    let (s', rs) = add_projects cfg now sc.projects sc.store sc.resources in
    let sorted = sort_by resource_before rs in
    (s', sorted, protection_status cfg sorted sc.inconsistent)
