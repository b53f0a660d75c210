-- ===== src/Backend/Inventory.antt =====
-- The collection of a complete inventory from an Agent, page by page, with the checks that refuse
-- an inconsistent one (backend/src/nodeconductor/services/agent_inventory_sync.py). The pages and
-- resources of schemas/agent_api.py have the shape of the Agent's own.
pub mod Collected
pub mod Refused
use node_conductor.Base.{
  ℕ, zero, suc, ◌+◌, ◌-◌, ◌*◌, min, Text, Bool, true, false, Option, none, some, List, [], ◌∷◌,
  ◌++◌, ◌&&◌, ◌||◌, not, ◌==◌, ltb, if◌then◌else◌, length, is_none,
}
use mathlib.Core.Option
use node_conductor.Agent.Schema.{
  TargetKind, compose_project, standalone_container, Classification, operational, Member, Resource,
  is_kind, is_operational,
}
use node_conductor.Agent.Inventory.{ProtectionStatus, Page}

-- `agent_sync_page_size` and `agent_sync_max_pages` of the settings.
pub record SyncSettings : Type 0 where
  pub page_size : ℕ
  pub max_pages : ℕ

-- The codes of the errors of services/agent_client.py: those of `AgentResponseInvalidError` that
-- the collection raises, those that the contract or the client raises with it, those of
-- `AgentUnavailableError`, and those of `AgentClientConfigurationError`.
pub data SyncError : Type 0 where
  pagination_invalid pagination_changed snapshot_changed protection_status_changed : SyncError
  inventory_too_large pagination_incomplete inventory_duplicate : SyncError
  resource_identity_invalid compose_member_duplicate inventory_incomplete : SyncError
  member_exposed_as_target : SyncError
  identity_mismatch version_mismatch api_version_unsupported capability_missing : SyncError
  response_invalid response_too_large : SyncError
  agent_unavailable engine_unavailable : SyncError
  credentials_unavailable credentials_invalid deadline_expired : SyncError
  https_endpoint_invalid transport_invalid : SyncError

pub data Checked {ℓ} (A : Type ℓ) : Type ℓ where
  fine : A → Checked A
  error : SyncError → Checked A

-- `list_resources` of a client, in its k-th call: limit, offset, snapshot id.
abbrev pub Client : Type 0
Client = ℕ → ℕ → ℕ → Option Text → Checked Page

abbrev pub same_status : ProtectionStatus → ProtectionStatus → Bool
same_status ProtectionStatus.not_configured ProtectionStatus.not_configured = true
same_status ProtectionStatus.protected ProtectionStatus.protected = true
same_status ProtectionStatus.configured_absent ProtectionStatus.configured_absent = true
same_status ProtectionStatus.configured_inconsistent ProtectionStatus.configured_inconsistent = true
same_status _ _ = false

-- The tests against what the page before has set; the first page has none.
abbrev pub page_changed : Option Page → Page → Option SyncError
page_changed none p = none
page_changed (some q) p =
    if not (p.total == q.total)
    then some pagination_changed
    else if not (p.snapshot_id == q.snapshot_id)
    then some snapshot_changed
    else if not (p.observed_at == q.observed_at)
    then some snapshot_changed
    else if not (same_status p.status q.status)
    then some protection_status_changed
    else none

abbrev pub page_sizes : SyncSettings → ℕ → Page → Option SyncError
page_sizes s offset p =
    if ltb (s.page_size * s.max_pages) p.total
    then some inventory_too_large
    else if not (length p.items == min s.page_size (p.total - offset))
    then some pagination_incomplete
    else none

abbrev pub first_error : Option SyncError → Option SyncError → Option SyncError
first_error (some e) o = some e
first_error none o = o

-- The error that `_validate_page` raises, or none.
unfoldable pub validate_page : SyncSettings → ℕ → Option Page → Page → Option SyncError
validate_page s offset expected p =
    if not (p.limit == s.page_size) || not (p.offset == offset)
    then some pagination_invalid
    else first_error (page_changed expected p) (page_sizes s offset p)

-- The loop's variables; `seen_identities` holds the identities of `resources`.
pub record Progress : Type 0 where
  pub resources : List Resource
  pub seen_member_ids : List Text

abbrev pub no_progress : Progress
no_progress = record { resources = []; seen_member_ids = [] }

unfoldable pub any_text : Text → List Text → Bool
any_text t [] = false
any_text t (u ∷ us) = t == u || any_text t us

abbrev pub same_class : Classification → Classification → Bool
same_class operational operational = true
same_class Classification.ambiguous Classification.ambiguous = true
same_class _ _ = false

abbrev pub same_target_kind : Option TargetKind → Option TargetKind → Bool
same_target_kind none none = true
same_target_kind (some k) o = is_kind o k
same_target_kind _ _ = false

abbrev pub same_identity : Resource → Resource → Bool
same_identity a b =
    same_class a.classification b.classification
    && (same_target_kind a.target_kind b.target_kind && a.target == b.target)

unfoldable pub seen_identity : Resource → List Resource → Bool
seen_identity r [] = false
seen_identity r (x ∷ xs) = same_identity r x || seen_identity r xs

abbrev pub identity_invalid : Resource → Bool
identity_invalid r =
    if is_operational r.classification
    then is_none r.target_kind || is_none r.management_policy || not r.operable
    else not (is_none r.target_kind) || not (is_none r.management_policy) || r.operable

-- The ids that have been seen after these members, or none for one that is seen twice.
unfoldable pub see_members : List Member → List Text → Option (List Text)
see_members [] seen = some seen
see_members (m ∷ ms) seen =
    let rest = see_members ms (m.docker_id ∷ seen) in
    if any_text m.docker_id seen then none else rest

unfoldable pub take_resource : Resource → Progress → Checked Progress
take_resource r p =
    if seen_identity r p.resources
    then error inventory_duplicate
    else if identity_invalid r
    then error resource_identity_invalid
    else elim (see_members r.members p.seen_member_ids) [
      | none ↦ error compose_member_duplicate
      | some seen ↦ fine (record { resources = p.resources ++ (r ∷ []); seen_member_ids = seen })
    ]

unfoldable pub take_items : List Resource → Progress → Checked Progress
take_items [] p = fine p
take_items (r ∷ rs) p = elim (take_resource r p) [ error e ↦ error e | fine p' ↦ take_items rs p' ]

unfoldable pub exposes_member : List Resource → List Text → Bool
exposes_member [] seen = false
exposes_member (r ∷ rs) seen =
    is_kind r.target_kind standalone_container && any_text r.target seen || exposes_member rs seen

-- `_validate_cross_resource_members`, then the return.
unfoldable pub conclude : Progress → ℕ → Checked (List Resource × ℕ)
conclude p page_number =
    if exposes_member p.resources p.seen_member_ids
    then error member_exposed_as_target
    else fine (p.resources, page_number)

abbrev pub expected_id : Option Page → Option Text
expected_id = Option.map (λ (q : Page). q.snapshot_id)

-- The loop, with the number of pages that are left; the offset is the number of resources.
unfoldable pub fetch_pages :
    SyncSettings → Client → ℕ → ℕ → Option Page → Progress → Checked (List Resource × ℕ)
fetch_pages s client zero k expected p = error inventory_incomplete
fetch_pages s client (suc n) k expected p =
    elim (client k s.page_size (length p.resources) (expected_id expected)) [
      | error e ↦ error e
      | fine page ↦ elim (validate_page s (length p.resources) expected page) [
        | some e ↦ error e
        | none ↦ elim (take_items page.items p) [
          | error e ↦ error e
          | fine p' ↦
              let rest = fetch_pages s client n (k + 1) (some page) p' in
              if length p'.resources == page.total then conclude p' k else rest
        ]
      ]
    ]

unfoldable pub fetch_complete_inventory : SyncSettings → Client → Checked (List Resource × ℕ)
fetch_complete_inventory s client = fetch_pages s client s.max_pages 1 none no_progress
