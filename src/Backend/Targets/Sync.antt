-- ===== src/Backend/Targets/Sync.antt =====
-- The transaction that applies a collected inventory (`synchronize_inventory_rows` of
-- backend/src/nodeconductor/repositories/agent_inventory_repository.py).
use node_conductor.Base.{
  ℕ, ◌-◌, Text, Bool, none, some, List, [], ◌∷◌, ◌++◌, map, ◌==◌, if◌then◌else◌, length,
}
use node_conductor.Table.{find_where}
use node_conductor.Table.Serial.{Serial}
use node_conductor.Agent.Schema.{TargetKind, Member, Resource, is_operational}
use node_conductor.Backend.Written.{Written, wrote, refused, connection_not_found, ◌>>=◌}
use node_conductor.Backend.Targets.{
  Connection, TargetRow, upsert_resource, existing_targets, any_target,
  disable_legacy_member_targets, mark_targets_absent,
}
use node_conductor.Backend.Targets.Members.{
  MemberRow, IssueRow, upsert_member, upsert_issue, mark_members_absent, mark_issues_absent,
}

-- The tables, and which texts have at most the 64 characters of the column docker_id of the issues:
-- the number of a text does not tell its length.
pub record Tables : Type 0 where
  pub connections : List Connection
  pub targets : Serial TargetRow
  pub members : Serial MemberRow
  pub issues : Serial IssueRow
  pub docker_id_fits : Text → Bool

-- The dictionary that is returned.
pub record Report : Type 0 where
  pub discovered : List TargetRow
  pub created_count : ℕ
  pub updated_count : ℕ
  pub absent_count : ℕ
  pub member_count : ℕ
  pub member_absent_count : ℕ
  pub issue_count : ℕ
  pub issue_absent_count : ℕ
  pub total_count : ℕ

-- The list `operational`, and the list `issues`.
unfoldable pub operational_among : List Resource → List Resource
operational_among [] = []
operational_among (x ∷ xs) =
    let rest = operational_among xs in if is_operational x.classification then x ∷ rest else rest

unfoldable pub issues_among : List Resource → List Resource
issues_among [] = []
issues_among (x ∷ xs) =
    let rest = issues_among xs in if is_operational x.classification then rest else x ∷ rest

abbrev pub connection_with_id : Text → Connection → Bool
connection_with_id c r = r.id == c

-- `_lock_connection`
unfoldable pub lock_connection : Text → List Connection → Written Connection
lock_connection c rows = elim (find_where (connection_with_id c) rows) [
  | none ↦ refused connection_not_found
  | some r ↦ wrote r
]

-- The rows come in the order of the resources.
unfoldable pub upsert_resources :
    Text → ℕ → List Resource → Serial TargetRow → Written (Serial TargetRow × List TargetRow)
upsert_resources c now [] t = wrote (t, [])
upsert_resources c now (x ∷ xs) t = do
  (t', r) ← upsert_resource c x now t
  (t'', rs) ← upsert_resources c now xs t'
  wrote (t'', r ∷ rs)

-- The inner loop over the members of one project: the ids of the rows.
unfoldable pub upsert_members_of :
    Text → ℕ → ℕ → List Member → Serial MemberRow → Written (Serial MemberRow × List ℕ)
upsert_members_of c project now [] t = wrote (t, [])
upsert_members_of c project now (m ∷ ms) t = do
  (t', r) ← upsert_member c project m now t
  (t'', ids) ← upsert_members_of c project now ms t'
  wrote (t'', r.id ∷ ids)

-- The loop over `zip(operational, synchronized)`.
unfoldable pub upsert_members :
    Text
    → ℕ
    → List Resource
    → List TargetRow
    → Serial MemberRow
    → Written (Serial MemberRow × List ℕ)
upsert_members c now [] rs t = wrote (t, [])
upsert_members c now (x ∷ xs) [] t = wrote (t, [])
upsert_members c now (x ∷ xs) (r ∷ rs) t = do
  (t', ids) ← upsert_members_of c r.id now x.members t
  (t'', more) ← upsert_members c now xs rs t'
  wrote (t'', ids ++ more)

abbrev pub docker_id_of : Member → Text
docker_id_of m = m.docker_id

-- What the same loop appends to `member_docker_ids`.
unfoldable pub member_docker_ids : List Resource → List TargetRow → List Text
member_docker_ids [] rs = []
member_docker_ids (x ∷ xs) [] = []
member_docker_ids (x ∷ xs) (r ∷ rs) = map docker_id_of x.members ++ member_docker_ids xs rs

unfoldable pub upsert_issues :
    (Text → Bool) → Text → ℕ → List Resource → Serial IssueRow → Written (Serial IssueRow × List ℕ)
upsert_issues fits c now [] t = wrote (t, [])
upsert_issues fits c now (x ∷ xs) t = do
  (t', r) ← upsert_issue fits c x now t
  (t'', ids) ← upsert_issues fits c now xs t'
  wrote (t'', r.id ∷ ids)

abbrev pub row_id : TargetRow → ℕ
row_id r = r.id

-- The rows whose key was not there before.
unfoldable pub discovered_among : List (TargetKind × Text) → List TargetRow → List TargetRow
discovered_among before [] = []
discovered_among before (r ∷ rs) =
    let rest = discovered_among before rs in
    if any_target r.target_kind r.target before then rest else r ∷ rest

-- The targets after the last two statements on them, with the number of those marked absent.
unfoldable pub settle_targets : Text → List Text → List ℕ → Serial TargetRow → Serial TargetRow × ℕ
settle_targets c member_ids ids t =
    let (rows, n) = mark_targets_absent c ids (disable_legacy_member_targets c member_ids t.rows) in
    (record t { rows = rows }, n)

abbrev pub settle_members : Text → List ℕ → Serial MemberRow → Serial MemberRow × ℕ
settle_members c ids t =
    let (rows, n) = mark_members_absent c ids t.rows in (record t { rows = rows }, n)

abbrev pub settle_issues : Text → List ℕ → Serial IssueRow → Serial IssueRow × ℕ
settle_issues c ids t =
    let (rows, n) = mark_issues_absent c ids t.rows in (record t { rows = rows }, n)

-- The end of the transaction, and the report.
unfoldable pub settle :
    Text
    → List Resource
    → Tables
    → Serial TargetRow
    → List TargetRow
    → Serial MemberRow × List ℕ
    → Serial IssueRow × List ℕ
    → Tables × Report
settle c resources before targets synchronized (members, member_ids) (issues, issue_ids) =
    let docker_ids = member_docker_ids (operational_among resources) synchronized in
    let (targets', absent) = settle_targets c docker_ids (map row_id synchronized) targets in
    let (members', members_absent) = settle_members c member_ids members in
    let (issues', issues_absent) = settle_issues c issue_ids issues in
    let discovered = discovered_among (existing_targets c before.targets.rows) synchronized in
    (
      record before { targets = targets'; members = members'; issues = issues' },
      record {
        discovered = discovered;
        created_count = length discovered;
        updated_count = length synchronized - length discovered;
        absent_count = absent;
        member_count = length member_ids;
        member_absent_count = members_absent;
        issue_count = length issue_ids;
        issue_absent_count = issues_absent;
        total_count = length resources;
      },
    )

unfoldable pub synchronize_inventory_rows :
    Text → List Resource → ℕ → Tables → Written (Tables × Report)
synchronize_inventory_rows c resources now db = do
  _ ← lock_connection c db.connections
  (targets, synchronized) ← upsert_resources c now (operational_among resources) db.targets
  members ← upsert_members c now (operational_among resources) synchronized db.members
  issues ← upsert_issues db.docker_id_fits c now (issues_among resources) db.issues
  wrote (settle c resources db targets synchronized members issues)
