-- ===== src/Agent/Policies.antt =====
-- The local policies of the Agent and their audit
-- (agent/src/nodeconductor_agent/policy_repository.py). Every function is one SQLite transaction.
pub mod Laws
pub mod Changes
use node_conductor.Base.{
  ℕ, Text, Bool, true, false, Option, none, some, List, [], ◌∷◌, ◌++◌, ◌&&◌, not, ◌==◌,
  if◌then◌else◌, or_default,
}
use mathlib.Core.Option
use node_conductor.Table.{find_where, update_where}
use node_conductor.Agent.Schema.{
  TargetKind, standalone_container, ManagementPolicy, discovered, protected, same_kind, same_policy,
}

-- A row of `resource_policies`.
pub record Policy : Type 0 where
  pub target_kind : TargetKind
  pub target : Text
  pub current_name : Text
  pub management_policy : ManagementPolicy
  pub first_seen_at : ℕ
  pub last_seen_at : ℕ
  pub updated_at : ℕ

-- A row of `resource_policy_audit`.
pub record Audit : Type 0 where
  pub operation_id : Text
  pub target_kind : TargetKind
  pub target : Text
  pub actor : Text
  pub previous_policy : ManagementPolicy
  pub management_policy : ManagementPolicy
  pub changed_at : ℕ

pub record Store : Type 0 where
  pub policies : List Policy
  pub audit : List Audit

-- A row of the older table `container_policies`.
pub record LegacyPolicy : Type 0 where
  pub container_id : Text
  pub current_name : Text
  pub management_policy : ManagementPolicy
  pub first_seen_at : ℕ
  pub last_seen_at : ℕ
  pub updated_at : ℕ

abbrev pub of_resource : TargetKind → Text → Policy → Bool
of_resource k t p = same_kind p.target_kind k && p.target == t

abbrev pub has_operation_id : Text → Audit → Bool
has_operation_id u a = a.operation_id == u

abbrev pub migrated : LegacyPolicy → Policy
migrated l = record {
  target_kind = standalone_container;
  target = l.container_id;
  current_name = l.current_name;
  management_policy = l.management_policy;
  first_seen_at = l.first_seen_at;
  last_seen_at = l.last_seen_at;
  updated_at = l.updated_at;
}

-- INSERT OR IGNORE of one row.
abbrev pub insert_or_ignore : Policy → List Policy → Option Policy → List Policy
insert_or_ignore p ps none = ps ++ (p ∷ [])
insert_or_ignore p ps (some _) = ps

unfoldable pub migrate_legacy_container_policies : List LegacyPolicy → List Policy → List Policy
migrate_legacy_container_policies [] ps = ps
migrate_legacy_container_policies (l ∷ ls) ps = migrate_legacy_container_policies ls (
    insert_or_ignore (migrated l) ps
      (find_where (of_resource standalone_container l.container_id) ps))

abbrev pub first_observation : TargetKind → Text → Text → ℕ → Policy
first_observation k t name now = record {
  target_kind = k;
  target = t;
  current_name = name;
  management_policy = discovered;
  first_seen_at = now;
  last_seen_at = now;
  updated_at = now;
}

abbrev pub observed_again : Text → ℕ → Policy → Policy
observed_again name now p = record p { current_name = name; last_seen_at = now }

abbrev pub upsert : TargetKind → Text → Text → ℕ → List Policy → Option Policy → List Policy
upsert k t name now ps none = ps ++ (first_observation k t name now ∷ [])
upsert k t name now ps (some _) = update_where (of_resource k t) (observed_again name now) ps

-- The SELECT of `_observe_in_transaction`.
unfoldable pub policy_of : TargetKind → Text → Store → Option ManagementPolicy
policy_of k t s =
    Option.map (λ (p : Policy). p.management_policy) (find_where (of_resource k t) s.policies)

unfoldable pub observe_rows : TargetKind → Text → Text → ℕ → Store → Store
observe_rows k t name now s = record s {
  policies = upsert k t name now s.policies (find_where (of_resource k t) s.policies);
}

-- The row is there, since it has just been written; `discovered` stands for no row.
unfoldable pub observe : TargetKind → Text → Text → ℕ → Store → Store × ManagementPolicy
observe k t name now s =
    let s' = observe_rows k t name now s in (s', or_default (policy_of k t s') discovered)

abbrev pub with_policy : ManagementPolicy → ℕ → Policy → Policy
with_policy m now p = record p { management_policy = m; updated_at = now }

-- UPDATE resource_policies SET management_policy, updated_at WHERE the key.
unfoldable pub write_policy : TargetKind → Text → ManagementPolicy → ℕ → Store → Store
write_policy k t m now s = record s {
  policies = update_where (of_resource k t) (with_policy m now) s.policies;
}

unfoldable pub force_protected : TargetKind → Text → Text → ℕ → Store → Store
force_protected k t name now s = write_policy k t protected now (observe_rows k t name now s)

-- A request to change a policy, less its operation id.
pub record Change : Type 0 where
  pub target_kind : TargetKind
  pub target : Text
  pub management_policy : ManagementPolicy
  pub actor : Text

-- `_validate_replay` does not raise.
abbrev pub matches : Audit → Change → Bool
matches a c =
    same_kind a.target_kind c.target_kind
    && (a.target == c.target
        && (same_policy a.management_policy c.management_policy && a.actor == c.actor))

unfoldable pub fetch_operation : Text → Store → Option Audit
fetch_operation u s = find_where (has_operation_id u) s.audit

-- The row for the response, or `OperationConflictError`.
pub data PolicyResult : Type 0 where
  response : Audit → PolicyResult
  operation_conflict : PolicyResult

abbrev pub replayed : Audit → Change → PolicyResult
replayed a c = if matches a c then response a else operation_conflict

abbrev pub audit_row : Text → Change → ManagementPolicy → ℕ → Audit
audit_row u c previous now = record {
  operation_id = u;
  target_kind = c.target_kind;
  target = c.target;
  actor = c.actor;
  previous_policy = previous;
  management_policy = c.management_policy;
  changed_at = now;
}

-- The two readings of the clock, at the observation and at the change, are `seen` and `now`.
unfoldable pub change_policy : Text → Change → Text → ℕ → ℕ → Store → Store × PolicyResult
change_policy u c name seen now s =
    let (s1, previous) = observe c.target_kind c.target name seen s in
    let s2 = write_policy c.target_kind c.target c.management_policy now s1 in
    (
      record s2 { audit = s2.audit ++ (audit_row u c previous now ∷ []) },
      response (audit_row u c previous now),
    )

unfoldable pub set_policy : Text → Change → Text → ℕ → ℕ → Store → Store × PolicyResult
set_policy u c name seen now s = elim (fetch_operation u s) [
  | some a ↦ (s, replayed a c)
  | none ↦ change_policy u c name seen now s
]

abbrev pub replay_row : Change → Option Audit → Option PolicyResult
replay_row c none = none
replay_row c (some a) = some (replayed a c)

unfoldable pub replay_operation : Text → Change → Store → Option PolicyResult
replay_operation u c s = replay_row c (fetch_operation u s)
