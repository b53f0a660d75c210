-- ===== src/Backend/Targets/Applied.antt =====
-- What a synchronisation that succeeds has done, statement by statement.
use node_conductor.Base.{
  ℕ, Text, ◌≡◌, refl, sym, ◌∙◌, ap, inl, inr, Option, none, some, List, ◌∷◌, arith, map, Bool-cases,
}
use node_conductor.Table.Serial.{Serial, upsert}
use node_conductor.Agent.Schema.{TargetKind, ManagementPolicy, Resource}
use node_conductor.Backend.Written.{wrote, wrote_injective, bind-wrote}
use node_conductor.Backend.Targets.{
  Connection, TargetRow, docker, has_key, new_target, observed_target, trigger_refuses,
  upsert_target, upsert_nullable, upsert_resource, disable_legacy_member_targets,
  mark_targets_absent,
}
use node_conductor.Backend.Targets.Members.{MemberRow, IssueRow}
use node_conductor.Backend.Targets.Sync.{
  Tables, Report, operational_among, issues_among, lock_connection, upsert_resources,
  upsert_members, upsert_issues, member_docker_ids, row_id, settle_targets, settle,
  synchronize_inventory_rows,
}

-- An upsert that succeeds had a kind and a policy, and passed the trigger.
pub record IsUpserted (c : Text) (now : ℕ) (x : Resource) (t t' : Serial TargetRow) (r : TargetRow)
    : Type 0 where
  pub kind : TargetKind
  pub policy : ManagementPolicy
  pub has_kind : x.target_kind ≡ some kind
  pub done :
      upsert
        (has_key docker c kind x.target)
        (new_target c now kind policy x)
        (observed_target now policy x)
        t
      ≡ (t', r)

upsert_target-done :
    (c : Text) (now : ℕ) (k : TargetKind) (m : ManagementPolicy) (x : Resource)
    (t t' : Serial TargetRow) (r : TargetRow)
    → upsert_target c now k m x t ≡ wrote (t', r)
    → upsert (has_key docker c k x.target) (new_target c now k m x) (observed_target now m x) t
      ≡ (t', r)
unfolding upsert_target
upsert_target-done c now k m x t t' r h =
    elim (Bool-cases
      (trigger_refuses (has_key docker c k x.target) (observed_target now m x) t.rows)) [
        | inl bad ↦ absurd (ground arith)
        | inr good ↦ wrote_injective (rw good at h)
      ]

upsert_nullable-IsUpserted :
    (c : Text) (now : ℕ) (x : Resource) (t t' : Serial TargetRow) (r : TargetRow)
    (k : Option TargetKind) (m : Option ManagementPolicy)
    → x.target_kind ≡ k
    → upsert_nullable c now x t k m ≡ wrote (t', r)
    → IsUpserted c now x t t' r
upsert_nullable-IsUpserted c now x t t' r none m e h = absurd cc
upsert_nullable-IsUpserted c now x t t' r (some k) none e h = absurd cc
upsert_nullable-IsUpserted c now x t t' r (some k) (some m) e h = record {
  kind = k;
  policy = m;
  has_kind = e;
  done = upsert_target-done c now k m x t t' r h;
}

pub upsert_resource-IsUpserted :
    (c : Text) (now : ℕ) (x : Resource) (t t' : Serial TargetRow) (r : TargetRow)
    → upsert_resource c x now t ≡ wrote (t', r)
    → IsUpserted c now x t t' r
unfolding upsert_resource
upsert_resource-IsUpserted c now x t t' r h =
    upsert_nullable-IsUpserted c now x t t' r x.target_kind x.management_policy refl h

-- One round of the loop over the resources, and the rest of it.
pub upsert_resources-step :
    (c : Text) (now : ℕ) (x : Resource) (xs : List Resource) (t t' : Serial TargetRow)
    (rs : List TargetRow)
    → upsert_resources c now (x ∷ xs) t ≡ wrote (t', rs)
    → (u : Serial TargetRow) × (r : TargetRow) × (more : List TargetRow) × IsUpserted c now x t u r
      × (upsert_resources c now xs u ≡ wrote (t', more))
      × (rs ≡ r ∷ more)
unfolding upsert_resources
upsert_resources-step c now x xs t t' rs h =
    let ((u, r), ok, h') = bind-wrote (upsert_resource c x now t) _ _ h in
    let ((u', more), ok', h'') = bind-wrote (upsert_resources c now xs u) _ _ h' in
    let same = wrote_injective h'' in
    (
      u,
      r,
      more,
      upsert_resource-IsUpserted c now x t u r ok,
      ok' ∙ ap (λ v. wrote (v, more)) (ap (λ p. p.0) same),
      sym (ap (λ p. p.1) same),
    )

pub record IsApplied (c : Text) (resources : List Resource) (now : ℕ) (db db' : Tables)
    (report : Report) : Type 0 where
  pub connection : Connection
  pub known : lock_connection c db.connections ≡ wrote connection
  pub targets : Serial TargetRow
  pub synchronized : List TargetRow
  pub upserted :
      upsert_resources c now (operational_among resources) db.targets
      ≡ wrote (targets, synchronized)
  pub members : Serial MemberRow × List ℕ
  pub issues : Serial IssueRow × List ℕ
  pub settled : settle c resources db targets synchronized members issues ≡ (db', report)

pub synchronize-IsApplied :
    (c : Text) (resources : List Resource) (now : ℕ) (db db' : Tables) (report : Report)
    → synchronize_inventory_rows c resources now db ≡ wrote (db', report)
    → IsApplied c resources now db db' report
unfolding synchronize_inventory_rows
synchronize-IsApplied c resources now db db' report h =
    let (connection, known, h1) = bind-wrote (lock_connection c db.connections) _ _ h in
    let ((targets, synchronized), upserted, h2) =
      bind-wrote (upsert_resources c now (operational_among resources) db.targets) _ _ h1 in
    let (members, _, h3) =
      bind-wrote (upsert_members c now (operational_among resources) synchronized db.members) _ _
        h2 in
    let (issues, _, h4) =
      bind-wrote (upsert_issues db.docker_id_fits c now (issues_among resources) db.issues) _ _
        h3 in
    record {
      connection = connection;
      known = known;
      targets = targets;
      synchronized = synchronized;
      upserted = upserted;
      members = members;
      issues = issues;
      settled = wrote_injective h4;
    }

-- The rows of the targets after the two last statements.
pub settled_rows :
    (c : Text) (resources : List Resource) (now : ℕ) (db db' : Tables) (report : Report)
    (a : IsApplied c resources now db db' report)
    → db'.targets.rows
      ≡ (mark_targets_absent c (map row_id a.synchronized) (
          disable_legacy_member_targets c
            (member_docker_ids (operational_among resources) a.synchronized)
            a.targets.rows)).0
unfolding settle settle_targets
settled_rows c resources now db db' report a = sym (ap (λ p. p.0.targets.rows) a.settled)
