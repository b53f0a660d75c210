-- ===== src/Backend/Synchronization/Outcomes.antt =====
-- What a synchronisation leaves behind when it fails (services/agent_inventory_sync.py).
use node_conductor.Base.{
  ℕ, Text, ◌≡◌, ◌≢◌, refl, subst, if◌then◌else◌, sym, ◌∙◌, ap, Option, none, some, List, [], ◌∷◌,
  ◌++◌, arith, some_injective,
}
use node_conductor.Agent.Schema.{Resource}
use node_conductor.Backend.Written.{Written, wrote, refused}
use node_conductor.Backend.Inventory.{
  SyncSettings, SyncError, Checked, fine, error, pagination_invalid, pagination_changed,
  snapshot_changed, protection_status_changed, inventory_too_large, pagination_incomplete,
  inventory_duplicate, resource_identity_invalid, compose_member_duplicate, inventory_incomplete,
  member_exposed_as_target, identity_mismatch, version_mismatch, api_version_unsupported,
  capability_missing, response_invalid, response_too_large, agent_unavailable, engine_unavailable,
  credentials_unavailable, credentials_invalid, deadline_expired, https_endpoint_invalid,
  transport_invalid,
}
use node_conductor.Backend.Schema.{warning}
use node_conductor.Backend.Targets.{Connection}
use node_conductor.Backend.Targets.Sync.{Tables, Report, synchronize_inventory_rows}
use node_conductor.Backend.Targets.Contracts.{fetch_agent_connection_row}
use node_conductor.Backend.Synchronization.{
  AgentClient, SyncResult, SyncState, SyncStatus, unavailable, rejected, SyncEvent, SyncEventType,
  inventory_unavailable, inventory_rejected, failed_details, SyncOutcome, result, is_unavailable,
  failure_event, record_failure, apply_inventory, apply_consulted, synchronize_known,
  synchronize_agent_inventory,
}

abbrev pub code_of : SyncOutcome → Option SyncError
code_of (result r) = r.error_code
code_of _ = none

-- How a code is reported: the event and the status of the result.
pub data IsReported : SyncError → SyncEventType → SyncStatus → Type 0 where
  agent_down : IsReported agent_unavailable inventory_unavailable unavailable
  engine_down : IsReported engine_unavailable inventory_unavailable unavailable
  refused_inventory :
      {e : SyncError}
      → e ≢ agent_unavailable
      → e ≢ engine_unavailable
      → IsReported e inventory_rejected rejected

is_reported :
    (e : SyncError)
    → IsReported e
        (if is_unavailable e then inventory_unavailable else inventory_rejected)
        (if is_unavailable e then unavailable else rejected)
is_reported pagination_invalid = refused_inventory (λ h. cc) (λ h. cc)
is_reported pagination_changed = refused_inventory (λ h. cc) (λ h. cc)
is_reported snapshot_changed = refused_inventory (λ h. cc) (λ h. cc)
is_reported protection_status_changed = refused_inventory (λ h. cc) (λ h. cc)
is_reported inventory_too_large = refused_inventory (λ h. cc) (λ h. cc)
is_reported pagination_incomplete = refused_inventory (λ h. cc) (λ h. cc)
is_reported inventory_duplicate = refused_inventory (λ h. cc) (λ h. cc)
is_reported resource_identity_invalid = refused_inventory (λ h. cc) (λ h. cc)
is_reported compose_member_duplicate = refused_inventory (λ h. cc) (λ h. cc)
is_reported inventory_incomplete = refused_inventory (λ h. cc) (λ h. cc)
is_reported member_exposed_as_target = refused_inventory (λ h. cc) (λ h. cc)
is_reported identity_mismatch = refused_inventory (λ h. cc) (λ h. cc)
is_reported version_mismatch = refused_inventory (λ h. cc) (λ h. cc)
is_reported api_version_unsupported = refused_inventory (λ h. cc) (λ h. cc)
is_reported capability_missing = refused_inventory (λ h. cc) (λ h. cc)
is_reported response_invalid = refused_inventory (λ h. cc) (λ h. cc)
is_reported response_too_large = refused_inventory (λ h. cc) (λ h. cc)
is_reported agent_unavailable = agent_down
is_reported engine_unavailable = engine_down
is_reported credentials_unavailable = refused_inventory (λ h. cc) (λ h. cc)
is_reported credentials_invalid = refused_inventory (λ h. cc) (λ h. cc)
is_reported deadline_expired = refused_inventory (λ h. cc) (λ h. cc)
is_reported https_endpoint_invalid = refused_inventory (λ h. cc) (λ h. cc)
is_reported transport_invalid = refused_inventory (λ h. cc) (λ h. cc)

-- The event and the status of a failure.
pub record IsFailure (c : Connection) (e : SyncError) (events events' : List SyncEvent)
    (status : SyncStatus) : Type 0 where
  pub event_type : SyncEventType
  pub recorded :
      events'
      ≡ events
        ++ (record {
          event_type = event_type;
          severity = warning;
          actor_id = c.agent_id;
          details = failed_details c.id c.agent_id e;
        }
            ∷ [])
  pub reported : IsReported e event_type status

abbrev status_of : SyncOutcome → Option SyncStatus
status_of (result r) = some r.status
status_of _ = none

module _ (connection_id : Text) (now : ℕ) (c : Connection) (s s' : SyncState) (r : SyncResult) where
  refused_code :
      (e : SyncError) (pages : ℕ) (w : Written (Tables × Report))
      → apply_inventory connection_id now c s pages w ≡ (s', result r)
      → r.error_code ≡ some e
      → ⊥
  refused_code e pages (refused f) h code = cc
  refused_code e pages (wrote (tables, report)) h code = ground (arith, ap (λ p. code_of p.1) h)

  failed_consulted :
      (e : SyncError) (o : Checked (List Resource × ℕ))
      → apply_consulted connection_id now c s o ≡ (s', result r)
      → r.error_code ≡ some e
      → (s'.tables ≡ s.tables) × IsFailure c e s.events s'.events r.status
  unfolding record_failure
  failed_consulted e (error f) h code =
      let same : f ≡ e = some_injective (ap (λ p. code_of p.1) h ∙ code) in
      (
        sym (ap (λ p. p.0.tables) h),
        record {
          event_type = if is_unavailable e then inventory_unavailable else inventory_rejected;
          recorded =
              sym (ap (λ p. p.0.events) h)
              ∙ ap (λ g. s.events ++ (failure_event c (is_unavailable g) g ∷ [])) same;
          reported =
              subst (IsReported e _)
                (ap (λ g. if is_unavailable g then unavailable else rejected) (sym same)
                  ∙ some_injective (ap (λ p. status_of p.1) h))
                (is_reported e);
        },
      )
  failed_consulted e (fine (resources, pages)) h code = absurd (
      refused_code e pages (synchronize_inventory_rows connection_id resources now s.tables) h code)

module _ (settings : SyncSettings) (build : Connection → Checked AgentClient)
    (client : Option AgentClient) (connection_id : Text) (now : ℕ) (s s' : SyncState)
    (r : SyncResult) where
  failed_known :
      (e : SyncError) (o : Option Connection)
      → synchronize_known settings build client connection_id now s o ≡ (s', result r)
      → r.error_code ≡ some e
      → (c : Connection) × (o ≡ some c)
        × (s'.tables ≡ s.tables)
        × IsFailure c e s.events s'.events r.status
  failed_known e none h code = absurd cc
  failed_known e (some c) h code =
      let (tables, events) = failed_consulted connection_id now c s s' r e _ h code in
      (c, refl, tables, events)

  -- A synchronisation that ends with an error code has changed no table, and has recorded one
  -- event more, a warning of the Agent that names the connection and the code. For the codes
  -- `agent_unavailable` and `engine_unavailable` the event and the status of the result are those
  -- of an unavailable Agent, for every other code those of a rejected one.
  pub failed_sync :
      (e : SyncError)
      → synchronize_agent_inventory settings build client connection_id now s ≡ (s', result r)
      → r.error_code ≡ some e
      → (c : Connection) × (fetch_agent_connection_row connection_id s.tables ≡ some c)
        × (s'.tables ≡ s.tables)
        × IsFailure c e s.events s'.events r.status
  unfolding synchronize_agent_inventory
  failed_sync e h code = failed_known e (fetch_agent_connection_row connection_id s.tables) h code
