-- ===== src/Backend/Targets/Listing.antt =====
-- The listings of one connection's targets, members and issues
-- (repositories/agent_inventory_repository.py).
use node_conductor.Base.{Text, ◌≡◌, ◌∙◌, Bool, true, false, List, ◌&&◌, ◌||◌, ◌==◌, ltb}
use node_conductor.Table.{count_where}
use node_conductor.Table.Ordered.{order_by, rows_where, count-order_by, count-rows_where}
use node_conductor.Agent.Schema.{TargetKind, compose_project, standalone_container, same_kind}
use node_conductor.Backend.Targets.{TargetRow, of_connection}
use node_conductor.Backend.Targets.Members.{MemberRow, IssueRow}
use node_conductor.Backend.Targets.Sync.{Tables}

-- The order of the texts of the kinds.
abbrev pub kind_before : TargetKind → TargetKind → Bool
kind_before compose_project standalone_container = true
kind_before _ _ = false

abbrev pub target_before : TargetRow → TargetRow → Bool
target_before a b =
    kind_before a.target_kind b.target_kind
    || (same_kind a.target_kind b.target_kind && ltb a.target b.target)

unfoldable pub fetch_inventory_target_rows : Text → Tables → List TargetRow
fetch_inventory_target_rows c db =
    order_by target_before (rows_where (of_connection c) db.targets.rows)

unfoldable pub fetch_compose_member_rows : Text → Tables → List MemberRow
fetch_compose_member_rows c db =
    order_by (λ (a : MemberRow) (b : MemberRow). ltb a.docker_id b.docker_id)
      (rows_where (λ (r : MemberRow). r.connection_id == c) db.members.rows)

unfoldable pub fetch_inventory_issue_rows : Text → Tables → List IssueRow
fetch_inventory_issue_rows c db =
    order_by (λ (a : IssueRow) (b : IssueRow). ltb a.docker_id b.docker_id)
      (rows_where (λ (r : IssueRow). r.connection_id == c) db.issues.rows)

-- The listing holds the targets of the connection, each as often as the table.
pub fetch_targets-counts :
    (c : Text) (p : TargetRow → Bool) (db : Tables)
    → count_where p (fetch_inventory_target_rows c db)
      ≡ count_where (λ r. of_connection c r && p r) db.targets.rows
unfolding fetch_inventory_target_rows
fetch_targets-counts c p db =
    count-order_by target_before p (rows_where (of_connection c) db.targets.rows)
    ∙ count-rows_where (of_connection c) p db.targets.rows
