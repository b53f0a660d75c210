-- ===== src/Backend/Targets.antt =====
-- The tables of connections, targets, members and inventory issues, with the statements of
-- backend/src/nodeconductor/repositories/agent_inventory_repository.py on them; their columns and
-- triggers are set up in repositories/services_repository.py.
pub mod Members
pub mod Sync
pub mod Applied
pub mod Contracts
pub mod Valid
pub mod Created
pub mod Found
pub mod Protection
pub mod System
pub mod Presence
pub mod Settled
pub mod Accepted
pub mod Listing
use node_conductor.Base.{
  ℕ, zero, suc, ◌+◌, Text, Bool, true, false, Option, none, some, List, [], ◌∷◌, ◌++◌, ◌&&◌, ◌||◌,
  not, ◌==◌, if◌then◌else◌, is_none,
}
use node_conductor.Table.{count_where, find_where, update_where}
use node_conductor.Table.Serial.{Serial, insert, upsert}
use node_conductor.Agent.Schema.{
  TargetKind, compose_project, standalone_container, ManagementPolicy, discovered, managed,
  protected, State, Health, Member, Resource, same_kind, same_policy,
}
use node_conductor.Backend.Inventory.{any_text}
use node_conductor.Backend.Written.{
  Written, wrote, refused, not_null_violation, protection_violation,
}

pub data AgentTransport : Type 0 where
  unix_socket https : AgentTransport

-- `agent_connections`; its default policy is always `discovered`.
pub record Connection : Type 0 where
  pub id : Text
  pub agent_id : Text
  pub description : Text
  pub transport : AgentTransport
  pub endpoint : Text
  pub credential_ref : Option Text

-- `targets`, with the columns of TARGET_COLUMNS.
pub record TargetRow : Type 0 where
  pub id : ℕ
  pub driver : Text
  pub connection_id : Text
  pub target_kind : TargetKind
  pub target : Text
  pub management_policy : ManagementPolicy
  pub display_name : Option Text
  pub observed_state : Option State
  pub observed_health_status : Option Health
  pub last_seen_at : Option ℕ
  pub is_present : Bool
  pub is_pilotable : Bool
  pub protection_forced : Bool

-- The driver's name, 'docker'.
abbrev pub docker : Text
docker = 0

-- driver = 'docker' AND connection_id = c
abbrev pub of_connection : Text → TargetRow → Bool
of_connection c r = r.driver == docker && r.connection_id == c

-- The row with the key (driver, connection_id, target_kind, target).
abbrev pub has_key : Text → Text → TargetKind → Text → TargetRow → Bool
has_key d c k t r =
    r.driver == d && (r.connection_id == c && (same_kind r.target_kind k && r.target == t))

abbrev pub target_with_id : ℕ → TargetRow → Bool
target_with_id i r = r.id == i

-- `_existing_targets`
unfoldable pub existing_targets : Text → List TargetRow → List (TargetKind × Text)
existing_targets c [] = []
existing_targets c (r ∷ rs) =
    let rest = existing_targets c rs in
    if of_connection c r then (r.target_kind, r.target) ∷ rest else rest

unfoldable pub any_target : TargetKind → Text → List (TargetKind × Text) → Bool
any_target k t [] = false
any_target k t ((j, u) ∷ xs) = (same_kind j k && u == t) || any_target k t xs

-- The trigger `enforce_target_protection`: whether it refuses to put `new` for `old`.
abbrev pub enforce_target_protection : TargetRow → TargetRow → Bool
enforce_target_protection old new =
    old.protection_forced
    && (not new.protection_forced || not (same_policy new.management_policy protected))

abbrev pub new_target : Text → ℕ → TargetKind → ManagementPolicy → Resource → ℕ → TargetRow
new_target c now k m x i = record {
  id = i;
  driver = docker;
  connection_id = c;
  target_kind = k;
  target = x.target;
  management_policy = m;
  display_name = some x.display_name;
  observed_state = some x.state;
  observed_health_status = some x.health_status;
  last_seen_at = some now;
  is_present = true;
  is_pilotable = true;
  protection_forced = x.protection_forced;
}

abbrev pub observed_target : ℕ → ManagementPolicy → Resource → TargetRow → TargetRow
observed_target now m x r = record r {
  management_policy = if r.protection_forced then protected else m;
  display_name = some x.display_name;
  observed_state = some x.state;
  observed_health_status = some x.health_status;
  last_seen_at = some now;
  is_present = true;
  is_pilotable = true;
  protection_forced = r.protection_forced || x.protection_forced;
}

-- Whether the trigger refuses what an update makes of the row that it finds.
unfoldable pub trigger_refuses :
    (TargetRow → Bool) → (TargetRow → TargetRow) → List TargetRow → Bool
trigger_refuses p f rows = elim (find_where p rows) [
  | none ↦ false
  | some r ↦ enforce_target_protection r (f r)
]

unfoldable pub upsert_target :
    Text
    → ℕ
    → TargetKind
    → ManagementPolicy
    → Resource
    → Serial TargetRow
    → Written (Serial TargetRow × TargetRow)
upsert_target c now k m x t =
    if trigger_refuses (has_key docker c k x.target) (observed_target now m x) t.rows
    then refused protection_violation
    else wrote
        (upsert (has_key docker c k x.target) (new_target c now k m x) (observed_target now m x) t)

-- `_upsert_resource`, on the nullable fields of a resource.
abbrev pub upsert_nullable :
    Text
    → ℕ
    → Resource
    → Serial TargetRow
    → Option TargetKind
    → Option ManagementPolicy
    → Written (Serial TargetRow × TargetRow)
upsert_nullable c now x t (some k) (some m) = upsert_target c now k m x t
upsert_nullable c now x t _ _ = refused not_null_violation

unfoldable pub upsert_resource :
    Text → Resource → ℕ → Serial TargetRow → Written (Serial TargetRow × TargetRow)
upsert_resource c x now t = upsert_nullable c now x t x.target_kind x.management_policy

-- id = ANY(ids)
unfoldable pub any_id : ℕ → List ℕ → Bool
any_id i [] = false
any_id i (j ∷ js) = i == j || any_id i js

abbrev pub is_legacy_member : Text → List Text → TargetRow → Bool
is_legacy_member c members r =
    of_connection c r && (same_kind r.target_kind standalone_container && any_text r.target members)

-- `_disable_legacy_member_targets`
unfoldable pub disable_legacy_member_targets : Text → List Text → List TargetRow → List TargetRow
disable_legacy_member_targets c members rows =
    update_where (is_legacy_member c members)
      (λ (r : TargetRow). record r { is_pilotable = false; is_present = false }) rows

abbrev pub is_left_out : Text → List ℕ → TargetRow → Bool
is_left_out c ids r = of_connection c r && (r.is_present && not (any_id r.id ids))

-- `_mark_targets_absent`, with the number of rows that it changes.
unfoldable pub mark_targets_absent : Text → List ℕ → List TargetRow → List TargetRow × ℕ
mark_targets_absent c ids rows = (
  update_where (is_left_out c ids) (λ (r : TargetRow). record r { is_present = false }) rows,
  count_where (is_left_out c ids) rows,
)
