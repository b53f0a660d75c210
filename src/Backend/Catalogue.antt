-- ===== src/Backend/Catalogue.antt =====
-- The catalogue of services: repositories/services_repository.py on the table `services`,
-- services/register.py, services/update.py and services/listing.py (backend/src/nodeconductor).
pub mod Names
pub mod Fields
pub mod Changes
pub mod Listing
use node_conductor.Base.{
  ℕ, suc, ◌+◌, Text, Bool, true, false, Option, none, some, List, [], ◌∷◌, ◌++◌, ◌&&◌, ◌||◌, not,
  ◌==◌, ltb, if◌then◌else◌, is_some, is_none, length, map,
}
use node_conductor.Table.{count_where, find_where, update_where}
use node_conductor.Table.Serial.{Serial, insert}
use node_conductor.Table.Ordered.{select_page}
use node_conductor.Backend.Schema.{
  Service, ServiceStatus, Event, EventType, Severity, Details, RequestedByType,
}
use node_conductor.Backend.Written.{Written, wrote, refused, unique_violation}

-- The table `services` with its sequence, and the events.
pub record Catalogue : Type 0 where
  pub services : Serial Service
  pub events : List Event

-- `New_service`
pub record NewService : Type 0 where
  pub name : Text
  pub kind : Text
  pub category : Text
  pub description : Text
  pub dependencies : Option (List ℕ)
  pub device_dependencies : Option (List ℕ)

-- A key of the JSON object that a PATCH sends: missing, null, or a value.
pub data Field {ℓ} (A : Type ℓ) : Type ℓ where
  unset null : Field A
  set : A → Field A

-- `UpdateService`
pub record UpdateService : Type 0 where
  pub name : Field Text
  pub kind : Field Text
  pub category : Field Text
  pub description : Field Text
  pub dependencies : Field (List ℕ)
  pub device_dependencies : Field (List ℕ)

abbrev pub has_service_id : ℕ → Service → Bool
has_service_id i r = r.id == i

abbrev pub has_name : Text → Service → Bool
has_name n r = r.name == n

unfoldable pub fetch_row_by_id : ℕ → Catalogue → Option Service
fetch_row_by_id i c = find_where (has_service_id i) c.services.rows

unfoldable pub fetch_row_by_name : Text → Catalogue → Option Service
fetch_row_by_name n c = find_where (has_name n) c.services.rows

-- The row with the default status.
abbrev pub new_service : NewService → ℕ → Service
new_service s i = record {
  id = i;
  name = s.name;
  kind = s.kind;
  category = s.category;
  description = s.description;
  status = ServiceStatus.off;
  dependencies = s.dependencies;
  device_dependencies = s.device_dependencies;
}

-- The INSERT, which the unique names may refuse; the sequence moves on either way.
unfoldable pub add_service : NewService → Catalogue → Catalogue × Written Service
add_service s c =
    let (t, row) = insert (new_service s) c.services in
    if is_some (fetch_row_by_name s.name c)
    then (
      record c { services = record c.services { next_id = c.services.next_id + 1 } },
      refused unique_violation,
    )
    else (record c { services = t }, wrote row)

abbrev pub created_event : Service → Event
created_event r = record {
  event_type = EventType.service_created;
  severity = Severity.info;
  service_id = some r.id;
  job_id = none;
  actor_type = RequestedByType.system;
  actor_id = none;
  details = Details.service_name r.name;
}

abbrev pub catalogue_event : Event → Catalogue → Catalogue
catalogue_event e c = record c { events = c.events ++ (e ∷ []) }

-- A service, or one of the errors that the functions raise; a violation is not caught.
pub data CatalogueResult : Type 0 where
  changed : Service → CatalogueResult
  already_exists null_field empty_update name_taken not_found violation : CatalogueResult

abbrev pub created : Catalogue × Written Service → Catalogue × CatalogueResult
created (c, refused e) = (c, violation)
created (c, wrote r) = (catalogue_event (created_event r) c, changed r)

-- `meanwhile` is what other transactions do between the look for the name and the INSERT.
unfoldable pub create_service :
    NewService → (Catalogue → Catalogue) → Catalogue → Catalogue × CatalogueResult
create_service s meanwhile c =
    if is_some (fetch_row_by_name s.name c)
    then (c, already_exists)
    else created (add_service s (meanwhile c))

abbrev pub is_null {ℓ} : {A : Type ℓ} → Field A → Bool
is_null null = true
is_null _ = false

abbrev pub is_unset {ℓ} : {A : Type ℓ} → Field A → Bool
is_unset unset = true
is_unset _ = false

-- A column that is not nullable, and one that is; a null in the first has been refused before.
abbrev pub assign {ℓ} : {A : Type ℓ} → Field A → A → A
assign (set a) old = a
assign _ old = old

abbrev pub assign_nullable {ℓ} : {A : Type ℓ} → Field A → Option A → Option A
assign_nullable (set a) old = some a
assign_nullable null old = none
assign_nullable unset old = old

abbrev pub null_required : UpdateService → Bool
null_required u =
    is_null u.name || (is_null u.kind || (is_null u.category || is_null u.description))

abbrev pub is_empty_update : UpdateService → Bool
is_empty_update u =
    is_unset u.name
    && (is_unset u.kind
        && (is_unset u.category
            && (is_unset u.description
                && (is_unset u.dependencies && is_unset u.device_dependencies))))

-- The names of the fields, in their alphabetical order.
abbrev pub field_name : {A : Type 0} → Text → Field A → List Text
field_name t f = if is_unset f then [] else t ∷ []

abbrev pub updated_fields : UpdateService → List Text
updated_fields u =
    field_name 0 u.category
    ++ (field_name 1 u.dependencies
        ++ (field_name 2 u.description
            ++ (field_name 3 u.device_dependencies
                ++ (field_name 4 u.name ++ field_name 5 u.kind))))

abbrev pub assigned : UpdateService → Service → Service
assigned u r = record r {
  name = assign u.name r.name;
  kind = assign u.kind r.kind;
  category = assign u.category r.category;
  description = assign u.description r.description;
  dependencies = assign_nullable u.dependencies r.dependencies;
  device_dependencies = assign_nullable u.device_dependencies r.device_dependencies;
}

-- Whether another row has the name that the field sets.
abbrev pub other_has_name : ℕ → Field Text → Catalogue → Bool
other_has_name i (set n) c =
    is_some (find_where (λ (r : Service). has_name n r && not (has_service_id i r)) c.services.rows)
other_has_name i _ c = false

abbrev pub updated_row :
    ℕ → UpdateService → Catalogue → Option Service → Catalogue × Written (Option Service)
updated_row i u c none = (c, wrote none)
updated_row i u c (some r) = if other_has_name i u.name c then (c, refused unique_violation) else (
  record c {
    services = record c.services {
      rows = update_where (has_service_id i) (assigned u) c.services.rows;
    };
  },
  wrote (some (assigned u r)),
)

-- The UPDATE, which the unique names may refuse.
unfoldable pub update_service_row :
    ℕ → UpdateService → Catalogue → Catalogue × Written (Option Service)
update_service_row i u c = updated_row i u c (fetch_row_by_id i c)

abbrev pub updated_event : ℕ → UpdateService → Event
updated_event i u = record {
  event_type = EventType.service_updated;
  severity = Severity.info;
  service_id = some i;
  job_id = none;
  actor_type = RequestedByType.system;
  actor_id = none;
  details = Details.updated_fields (updated_fields u);
}

abbrev pub updated :
    ℕ → UpdateService → Catalogue × Written (Option Service) → Catalogue × CatalogueResult
updated i u (c, refused e) = (c, violation)
updated i u (c, wrote none) = (c, not_found)
updated i u (c, wrote (some r)) = (catalogue_event (updated_event i u) c, changed r)

-- `existing_row is not None and existing_row["id"] != service_id`
abbrev pub is_other : ℕ → Option Service → Bool
is_other i none = false
is_other i (some r) = not (has_service_id i r)

abbrev pub name_conflict : ℕ → Field Text → Catalogue → Bool
name_conflict i (set n) c = is_other i (fetch_row_by_name n c)
name_conflict i _ c = false

unfoldable pub update_service :
    ℕ → UpdateService → (Catalogue → Catalogue) → Catalogue → Catalogue × CatalogueResult
update_service i u meanwhile c =
    if null_required u
    then (c, null_field)
    else if is_empty_update u
    then (c, empty_update)
    else if name_conflict i u.name c
    then (c, name_taken)
    else updated i u (update_service_row i u (meanwhile c))
