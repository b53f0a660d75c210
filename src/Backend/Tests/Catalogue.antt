-- ===== src/Backend/Tests/Catalogue.antt =====
-- A catalogue of two services.
use node_conductor.Base.{ltb, ℕ, ◌≡◌, refl, Bool, none, some, [], ◌∷◌, arith, ◌==◌}
use node_conductor.Table.{count_where, find_where, update_where}
use node_conductor.Table.Ordered.{IsOrdered}
use node_conductor.Backend.Schema.{Service, ServiceStatus}
use node_conductor.Backend.Catalogue.{
  Catalogue, NewService, unset, null, set, UpdateService, fetch_row_by_id, fetch_row_by_name,
  add_service, update_service_row, update_service, assigned,
}
use node_conductor.Backend.Catalogue.Names.{IsNamed, here, next, adds, updates, Reach-IsNamed}
use node_conductor.Backend.Catalogue.Changes.{IsChanged, update_changes}
use node_conductor.Backend.Catalogue.Listing.{count_rows, all_pages, pages_list_all}
use node_conductor.Backend.Tests.{service}

abbrev named_service : ℕ → ℕ → Service
named_service i n = record (service i ServiceStatus.on) { name = n }

abbrev catalogue : Catalogue
catalogue = record {
  services = record { rows = named_service 2 201 ∷ named_service 1 200 ∷ []; next_id = 3 };
  events = [];
}

abbrev registration : NewService
registration = record {
  name = 202;
  kind = 11;
  category = 12;
  description = 13;
  dependencies = some (1 ∷ []);
  device_dependencies = none;
}

-- A new name, and dependencies taken away.
abbrev renaming : UpdateService
renaming = record {
  name = set 203;
  kind = unset;
  category = unset;
  description = unset;
  dependencies = null;
  device_dependencies = unset;
}

catalogue-IsNamed : IsNamed catalogue
unfolding count_where
catalogue-IsNamed = record {
  ids_unique = λ i. ground arith;
  ids_below = λ n. ground arith;
  names_unique = λ n. ground arith;
}

Reach-IsNamed_example :
    IsNamed (update_service_row 1 renaming (add_service registration catalogue).0).0
Reach-IsNamed_example =
    Reach-IsNamed
      (next (next here (adds registration catalogue))
        (updates 1 renaming (add_service registration catalogue).0))
      catalogue-IsNamed

update_changes_example :
    IsChanged 1 renaming catalogue
      (update_service 1 renaming (λ x. x) catalogue).0
      (assigned renaming (named_service 1 200))
unfolding update_service update_service_row fetch_row_by_id fetch_row_by_name find_where
    update_where
update_changes_example =
    update_changes 1 renaming (λ x. x) catalogue (update_service 1 renaming (λ x. x) catalogue).0
      (assigned renaming (named_service 1 200)) refl

-- Only the first service is valid here.
abbrev only_first : Service → Bool
only_first r = r.id == 1

pages_list_all_example :
    IsOrdered (λ (a b : Service). ltb a.id b.id) (all_pages 1 2 0 catalogue)
    × ((p : Service → Bool)
        → count_where p (all_pages 1 2 0 catalogue) ≡ count_where p catalogue.services.rows)
unfolding count_rows
pages_list_all_example = pages_list_all 1 2 catalogue (omega arith)
