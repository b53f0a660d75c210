-- ===== src/Backend/Targets/Members.antt =====
-- The tables `compose_members` and `docker_inventory_issues`, with the statements of
-- repositories/agent_inventory_repository.py on them.
use node_conductor.Base.{
  ℕ, Text, Bool, true, false, none, some, List, ◌&&◌, not, ◌==◌, if◌then◌else◌,
}
use node_conductor.Table.{count_where, update_where}
use node_conductor.Table.Serial.{Serial, upsert}
use node_conductor.Agent.Schema.{State, Health, Member, Resource}
use node_conductor.Backend.Written.{Written, wrote, refused, not_null_violation, value_too_long}
use node_conductor.Backend.Targets.{any_id}

-- `compose_members`, with the columns of MEMBER_COLUMNS.
pub record MemberRow : Type 0 where
  pub id : ℕ
  pub connection_id : Text
  pub project_target_id : ℕ
  pub docker_id : Text
  pub display_name : Text
  pub compose_service : Text
  pub observed_state : State
  pub observed_health_status : Health
  pub last_seen_at : ℕ
  pub is_present : Bool

-- `docker_inventory_issues`; `diagnostic_status` has one value.
pub record IssueRow : Type 0 where
  pub id : ℕ
  pub connection_id : Text
  pub docker_id : Text
  pub display_name : Text
  pub observed_state : State
  pub observed_health_status : Health
  pub last_seen_at : ℕ
  pub is_present : Bool

abbrev pub has_member_key : Text → Text → MemberRow → Bool
has_member_key c d r = r.connection_id == c && r.docker_id == d

abbrev pub new_member : Text → ℕ → Member → Text → ℕ → ℕ → MemberRow
new_member c project m service now i = record {
  id = i;
  connection_id = c;
  project_target_id = project;
  docker_id = m.docker_id;
  display_name = m.name;
  compose_service = service;
  observed_state = m.state;
  observed_health_status = m.health_status;
  last_seen_at = now;
  is_present = true;
}

abbrev pub observed_member : ℕ → Member → Text → ℕ → MemberRow → MemberRow
observed_member project m service now r = record r {
  project_target_id = project;
  display_name = m.name;
  compose_service = service;
  observed_state = m.state;
  observed_health_status = m.health_status;
  last_seen_at = now;
  is_present = true;
}

-- `_upsert_member`
unfoldable pub upsert_member :
    Text → ℕ → Member → ℕ → Serial MemberRow → Written (Serial MemberRow × MemberRow)
upsert_member c project m now t = elim m.compose_service [
  | none ↦ refused not_null_violation
  | some service ↦ wrote (
      upsert (has_member_key c m.docker_id) (new_member c project m service now)
        (observed_member project m service now) t)
]

abbrev pub has_issue_key : Text → Text → IssueRow → Bool
has_issue_key c d r = r.connection_id == c && r.docker_id == d

abbrev pub new_issue : Text → Resource → ℕ → ℕ → IssueRow
new_issue c x now i = record {
  id = i;
  connection_id = c;
  docker_id = x.target;
  display_name = x.display_name;
  observed_state = x.state;
  observed_health_status = x.health_status;
  last_seen_at = now;
  is_present = true;
}

abbrev pub observed_issue : Resource → ℕ → IssueRow → IssueRow
observed_issue x now r = record r {
  display_name = x.display_name;
  observed_state = x.state;
  observed_health_status = x.health_status;
  last_seen_at = now;
  is_present = true;
}

-- `_upsert_issue`; a resource without a diagnostic has NULL for it, and `fits` says which texts the
-- column docker_id, a VARCHAR(64), takes.
unfoldable pub upsert_issue :
    (Text → Bool) → Text → Resource → ℕ → Serial IssueRow → Written (Serial IssueRow × IssueRow)
upsert_issue fits c x now t =
    if not x.diagnostic
    then refused not_null_violation
    else if not (fits x.target)
    then refused value_too_long
    else wrote (upsert (has_issue_key c x.target) (new_issue c x now) (observed_issue x now) t)

-- `_mark_rows_absent`, on each of its two tables.
unfoldable pub mark_members_absent : Text → List ℕ → List MemberRow → List MemberRow × ℕ
mark_members_absent c ids rows = (
  update_where (λ (r : MemberRow). r.connection_id == c && (r.is_present && not (any_id r.id ids)))
      (λ (r : MemberRow). record r { is_present = false }) rows,
  count_where (λ (r : MemberRow). r.connection_id == c && (r.is_present && not (any_id r.id ids)))
      rows,
)

unfoldable pub mark_issues_absent : Text → List ℕ → List IssueRow → List IssueRow × ℕ
mark_issues_absent c ids rows = (
  update_where (λ (r : IssueRow). r.connection_id == c && (r.is_present && not (any_id r.id ids)))
      (λ (r : IssueRow). record r { is_present = false }) rows,
  count_where (λ (r : IssueRow). r.connection_id == c && (r.is_present && not (any_id r.id ids)))
      rows,
)
