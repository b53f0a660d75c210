-- ===== src/Agent/Inventory.antt =====
-- The typed inventory of Docker resources (agent/src/nodeconductor_agent/inventory_service.py): its
-- pages and the changes of policy. The containers that the engine lists are an argument; an engine
-- that cannot be reached raises before anything is written, and is left out.
mod Build
pub mod Sound
pub mod Complete
pub mod Pages
pub mod Update
pub mod Protected
unfoldable pub use Build.*
use node_conductor.Base.{
  ℕ, ◌+◌, Text, Bool, true, false, Option, none, some, List, [], ◌∷◌, ◌++◌, ◌&&◌, ◌||◌, not, ◌==◌,
  map, ltb, if◌then◌else◌, sql_eq, is_none, take, drop, length,
}
use node_conductor.Agent.Schema.{
  TargetKind, compose_project, standalone_container, ManagementPolicy, Classification, operational,
  ComposeClassification, Snapshot, Member, Resource, same_kind, is_kind, is_operational,
  same_policy,
}
use node_conductor.Agent.Aggregate.{aggregate_compose_state, aggregate_health_status}
use node_conductor.Agent.Policies.{
  Store, observe, force_protected, Change, PolicyResult, replay_operation, set_policy,
}

-- `_find_operational_resource`: the resource, or `none` for `ResourceNotOperableError`. What the
-- gateway is asked after a miss only decides which error is raised.
abbrev pub is_target : TargetKind → Text → Resource → Bool
is_target k t r = is_operational r.classification && is_kind r.target_kind k && r.target == t

unfoldable pub find_resource : (Resource → Bool) → List Resource → Option Resource
find_resource p [] = none
find_resource p (r ∷ rs) = let rest = find_resource p rs in if p r then some r else rest

pub data UpdateResult : Type 0 where
  answered : PolicyResult → UpdateResult
  protected_resource : UpdateResult
  not_operable : UpdateResult

abbrev pub update_found : Text → Change → ℕ → ℕ → Store → Option Resource → Store × UpdateResult
update_found u c seen now s none = (s, not_operable)
update_found u c seen now s (some r) =
    let (s', result) = set_policy u c r.display_name seen now s in (s', answered result)

-- `observed`, `seen` and `now` are the readings of the clock by the inventory and by `set_policy`.
unfoldable pub update_policy :
    Protection → Text → Change → ℕ → ℕ → ℕ → List Snapshot → Store → Store × UpdateResult
update_policy cfg u c observed seen now cs s =
    let (s', rs, _) = build_resources cfg observed cs s in
    elim (replay_operation u c s) [
      | some r ↦ (s, answered r)
      | none ↦
          if is_configured_protection cfg c.target_kind c.target
            && not (same_policy c.management_policy ManagementPolicy.protected)
          then (s, protected_resource)
          else update_found u c seen now s' (find_resource (is_target c.target_kind c.target) rs)
    ]

-- A stored snapshot, by its id.
pub record Stored : Type 0 where
  pub id : Text
  pub resources : List Resource
  pub observed_at : ℕ
  pub status : ProtectionStatus

pub record Page : Type 0 where
  pub items : List Resource
  pub limit : ℕ
  pub offset : ℕ
  pub total : ℕ
  pub snapshot_id : Text
  pub observed_at : ℕ
  pub status : ProtectionStatus

-- while len(self._snapshots) > 4: pop the oldest. A dict keeps the order of insertion.
unfoldable pub evict : List Stored → List Stored
evict [] = []
evict (x ∷ xs) = let rest = evict xs in if ltb 4 (length (x ∷ xs)) then rest else x ∷ xs

unfoldable pub find_stored : Text → List Stored → Option Stored
find_stored u [] = none
find_stored u (x ∷ xs) = let rest = find_stored u xs in if x.id == u then some x else rest

abbrev pub page_of : ℕ → ℕ → Stored → Page
page_of limit offset x = record {
  items = take limit (drop offset x.resources);
  limit = limit;
  offset = offset;
  total = length x.resources;
  snapshot_id = x.id;
  observed_at = x.observed_at;
  status = x.status;
}

abbrev pub page_from : ℕ → ℕ → Option Stored → Option Page
page_from limit offset none = none
page_from limit offset (some x) = some (page_of limit offset x)

abbrev pub stored_page : ℕ → ℕ → Option Text → List Stored → Option Page
stored_page limit offset none xs = none
stored_page limit offset (some u) xs = page_from limit offset (find_stored u xs)

-- `none` is `InventorySnapshotError`; `uuid` is what uuid4() draws for a new snapshot.
unfoldable pub list_resources :
    Protection
    → ℕ
    → ℕ
    → Option Text
    → ℕ
    → Text
    → List Snapshot
    → List Stored
    → Store
    → Store × List Stored × Option Page
list_resources cfg limit offset snapshot_id now uuid cs xs s =
    let (s', rs, status) = build_resources cfg now cs s in
    let new : Stored = record { id = uuid; resources = rs; observed_at = now; status = status } in
    if offset == 0 && is_none snapshot_id
    then (s', evict (xs ++ (new ∷ [])), some (page_of limit offset new))
    else (s, xs, stored_page limit offset snapshot_id xs)
