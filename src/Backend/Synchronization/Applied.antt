-- ===== src/Backend/Synchronization/Applied.antt =====
-- A synchronisation that succeeds (services/agent_inventory_sync.py).
use node_conductor.Base.{
  ℕ, ◌≤◌, ◌*◌, Text, ◌≡◌, refl, sym, ◌∙◌, ap, inl, inr, true, false, Option, none, some, List,
  arith, length, All,
}
use node_conductor.Agent.Schema.{Resource}
use node_conductor.Agent.Inventory.{Stored}
use node_conductor.Backend.Written.{Written, wrote, refused}
use node_conductor.Backend.Inventory.{
  SyncSettings, Checked, fine, error, Progress, no_progress, take_items, exposes_member,
  identity_invalid,
}
use node_conductor.Backend.Inventory.Collected.{Checked-cases, serving, fetch_complete-snapshot}
use node_conductor.Backend.Inventory.Refused.{Distinct, fetch_complete-IsProper}
use node_conductor.Backend.Targets.{Connection}
use node_conductor.Backend.Targets.Sync.{Tables, Report, synchronize_inventory_rows}
use node_conductor.Backend.Targets.Contracts.{fetch_agent_connection_row}
use node_conductor.Backend.Targets.Accepted.{all_complete, synchronize_succeeds}
use node_conductor.Backend.Synchronization.{
  AgentHealth, AgentCapabilities, AgentClient, synchronized, SyncResult, SyncState, SyncOutcome,
  result, record_failure, record_success, consult, chosen_client, consult_chosen, apply_inventory,
  apply_consulted, synchronize_known, synchronize_agent_inventory,
}
use node_conductor.Backend.Synchronization.Contract.{IsAgreed, consult-IsAgreed, consult-agreed}
use node_conductor.Backend.Synchronization.Outcomes.{code_of}

abbrev report_of : SyncOutcome → Option Report
report_of (result r) = r.report
report_of _ = none

abbrev pages_of : SyncOutcome → ℕ
pages_of (result r) = r.pages
pages_of _ = 0

-- A connection whose Agent was asked, kept the contract, and gave an inventory that was applied.
pub record IsSynchronized (settings : SyncSettings) (connection_id : Text) (now : ℕ)
    (c : Connection) (chosen : Checked AgentClient) (s s' : SyncState) (r : SyncResult)
    : Type 0 where
  pub client : AgentClient
  pub health : AgentHealth
  pub capabilities : AgentCapabilities
  pub resources : List Resource
  pub report : Report
  pub is_chosen : chosen ≡ fine client
  pub healthy : client.health ≡ fine health
  pub capable : client.capabilities ≡ fine capabilities
  pub agreed : IsAgreed c health capabilities
  pub distinct : Distinct resources
  pub valid : All (λ x. identity_invalid x ≡ false) resources
  pub few_pages : r.pages ≤ settings.max_pages
  pub applied :
      synchronize_inventory_rows connection_id resources now s.tables ≡ wrote (s'.tables, report)
  pub reported : r.report ≡ some report

module _ (settings : SyncSettings) (connection_id : Text) (now : ℕ) (c : Connection)
    (s s' : SyncState) (r : SyncResult) where
  applied_inventory :
      (pages : ℕ) (w : Written (Tables × Report))
      → apply_inventory connection_id now c s pages w ≡ (s', result r)
      → (report : Report) × (w ≡ wrote (s'.tables, report))
        × (r.report ≡ some report)
        × (r.pages ≡ pages)
  unfolding record_success
  applied_inventory pages (refused f) h = absurd cc
  applied_inventory pages (wrote (tables, report)) h = (
    report,
    ap (λ p. wrote (p.0.tables, report)) h,
    sym (ap (λ p. report_of p.1) h),
    sym (ap (λ p. pages_of p.1) h),
  )

  applied_consulted :
      (chosen : Checked AgentClient)
      → apply_consulted connection_id now c s (consult_chosen settings c chosen) ≡ (s', result r)
      → r.error_code ≡ none
      → IsSynchronized settings connection_id now c chosen s s' r
  unfolding record_failure
  applied_consulted (error e) h code = absurd (ground (arith, ap (λ p. code_of p.1) h))
  applied_consulted (fine client) h code = elim (Checked-cases (consult settings c client)) [
    | inr (e, bad) ↦ absurd (ground (arith, ap (λ p. code_of p.1) (rw bad at h)))
    | inl ((resources, pages), ok) ↦
        let (report, applied, reported, paged) =
          applied_inventory pages (synchronize_inventory_rows connection_id resources now s.tables)
            (rw ok at h) in
        let (hh, k, healthy, capable, agreed, got) =
          consult-IsAgreed settings c client resources pages ok in
        let (distinct, valid, few) =
          fetch_complete-IsProper settings client.list_resources resources pages got in
        record {
          client = client;
          health = hh;
          capabilities = k;
          resources = resources;
          report = report;
          is_chosen = refl;
          healthy = healthy;
          capable = capable;
          agreed = agreed;
          distinct = distinct;
          valid = valid;
          few_pages = omega (arith, few, paged);
          applied = applied;
          reported = reported;
        }
  ]

-- A synchronisation that ends without an error code belongs to a known connection. Its Agent named
-- itself as expected in both answers and kept the contract; the inventory that was applied, in one
-- transaction, has distinct identities and only valid ones.
pub sync_agrees :
    (settings : SyncSettings) (build : Connection → Checked AgentClient)
    (client : Option AgentClient) (connection_id : Text) (now : ℕ) (s s' : SyncState)
    (r : SyncResult)
    → synchronize_agent_inventory settings build client connection_id now s ≡ (s', result r)
    → r.error_code ≡ none
    → (c : Connection) × (fetch_agent_connection_row connection_id s.tables ≡ some c)
      × IsSynchronized settings connection_id now c (chosen_client build client c) s s' r
unfolding synchronize_agent_inventory
sync_agrees settings build client connection_id now s s' r h code =
    known (fetch_agent_connection_row connection_id s.tables) h
  where
    known :
        (o : Option Connection)
        → synchronize_known settings build client connection_id now s o ≡ (s', result r)
        → (c : Connection) × (o ≡ some c)
          × IsSynchronized settings connection_id now c (chosen_client build client c) s s' r
    known none g = absurd cc
    known (some c) g = (
      c,
      refl,
      applied_consulted settings connection_id now c s s' r (chosen_client build client c) g code,
    )

-- An Agent that keeps the contract and serves one snapshot, whose resources pass the checks, have
-- all the fields that the columns need, have targets that fit into the column docker_id where they
-- are not operational, and fit into the pages allowed, is synchronised: the call ends without an
-- error.
pub agent_is_synchronized :
    (settings : SyncSettings) (build : Connection → Checked AgentClient) (connection_id : Text)
    (now : ℕ) (s : SyncState) (c : Connection) (h : AgentHealth) (k : AgentCapabilities)
    (x : Stored) (final : Progress)
    → fetch_agent_connection_row connection_id s.tables ≡ some c
    → IsAgreed c h k
    → 1 ≤ settings.page_size
    → 1 ≤ settings.max_pages
    → length x.resources ≤ settings.page_size * settings.max_pages
    → take_items x.resources no_progress ≡ fine final
    → exposes_member final.resources final.seen_member_ids ≡ false
    → all_complete s.tables.docker_id_fits x.resources ≡ true
    → (s' : SyncState) × (r : SyncResult) × (synchronize_agent_inventory settings build
          (some (record { health = fine h; capabilities = fine k; list_resources = serving x }))
          connection_id
          now
          s
        ≡ (s', result r))
      × (r.status ≡ synchronized)
unfolding synchronize_agent_inventory fetch_agent_connection_row
agent_is_synchronized settings build connection_id now s c h k x final known agreed some_size
      some_pages small whole apart complete =
    let (m, _, got) =
      fetch_complete-snapshot settings x final some_size some_pages small whole apart in
    let (tables, report, applied) =
      synchronize_succeeds connection_id x.resources now s.tables c known complete in
    (
      record_success c report m (record s { tables = tables }),
      record {
        status = synchronized;
        connection_id = connection_id;
        agent_id = c.agent_id;
        pages = m;
        report = some report;
        error_code = none;
      },
      ap (synchronize_known settings build (some client) connection_id now s) known
          ∙ ap (apply_consulted connection_id now c s)
              (consult-agreed settings c h k _ agreed ∙ got)
          ∙ ap (apply_inventory connection_id now c s m) applied,
      refl,
    )
  where
    client : AgentClient
    client = record { health = fine h; capabilities = fine k; list_resources = serving x }
