-- ===== src/Backend/Catalogue/Listing.antt =====
-- The listings of services and of events (services/listing.py, services/events.py,
-- repositories/events_repository.py). A row is valid when the model `Service` accepts it.
use node_conductor.Base.{
  ℕ, zero, suc, ◌+◌, ◌*◌, ◌≤◌, ◌≡◌, refl, sym, subst, ap, ◌∙◌, ==_iff, Bool, true, Option, none,
  some, List, [], ◌∷◌, ◌++◌, ◌&&◌, not, ◌==◌, ltb, if◌then◌else◌, length, arith,
}
use node_conductor.Table.{count_where}
use node_conductor.Table.First.{IsRank}
use node_conductor.Table.Ordered.{
  select_page, pages_from, pages-cover, count-order_by, order_by-IsOrdered, IsOrdered,
}
use node_conductor.Backend.Schema.{Service}
use node_conductor.Backend.Catalogue.{Catalogue, fetch_row_by_id}

abbrev pub service_before : Service → Service → Bool
service_before a b = ltb a.id b.id

unfoldable pub count_rows : Catalogue → ℕ
count_rows c = length c.services.rows

unfoldable pub fetch_rows_page : ℕ → ℕ → Catalogue → List Service
fetch_rows_page limit offset c = select_page service_before limit offset c.services.rows

-- `ServicesListResponse`; a warning is known by the id of its row.
pub record ServicesListResponse : Type 0 where
  pub total : ℕ
  pub valid_count : ℕ
  pub services : List Service
  pub invalid_count : ℕ
  pub warnings : List ℕ
  pub limit : ℕ
  pub offset : ℕ

-- A response, or `DataIntegrityError`.
pub data Listed {ℓ} (A : Type ℓ) : Type ℓ where
  listed : A → Listed A
  integrity_error : Listed A

-- `_build_service`
abbrev pub build_service : (Service → Bool) → Service → Listed Service
build_service valid r = if valid r then listed r else integrity_error

-- What the loop appends to `valid_services` and to `warnings`.
unfoldable pub valid_among : (Service → Bool) → List Service → List Service
valid_among valid [] = []
valid_among valid (r ∷ rs) =
    let rest = valid_among valid rs in
    elim (build_service valid r) [ listed s ↦ s ∷ rest | integrity_error ↦ rest ]

unfoldable pub warnings_among : (Service → Bool) → List Service → List ℕ
warnings_among valid [] = []
warnings_among valid (r ∷ rs) =
    let rest = warnings_among valid rs in
    elim (build_service valid r) [ listed s ↦ rest | integrity_error ↦ r.id ∷ rest ]

unfoldable pub list_all_services_tolerant :
    (Service → Bool) → ℕ → ℕ → Catalogue → Listed ServicesListResponse
list_all_services_tolerant valid limit offset c =
    let rows = fetch_rows_page limit offset c in
    let services = valid_among valid rows in
    let warnings = warnings_among valid rows in
    if not (length rows == length services + length warnings)
    then integrity_error
    else listed (record {
      total = count_rows c;
      valid_count = length services;
      services = services;
      invalid_count = length warnings;
      warnings = warnings;
      limit = limit;
      offset = offset;
    })

abbrev pub build_found : (Service → Bool) → Option Service → Listed (Option Service)
build_found valid none = listed none
build_found valid (some r) = elim (build_service valid r) [
  | listed s ↦ listed (some s)
  | integrity_error ↦ integrity_error
]

unfoldable pub get_service_by_id : (Service → Bool) → ℕ → Catalogue → Listed (Option Service)
get_service_by_id valid i c = build_found valid (fetch_row_by_id i c)

parts_count :
    (valid : Service → Bool) (rs : List Service)
    → length rs ≡ length (valid_among valid rs) + length (warnings_among valid rs)
unfolding valid_among warnings_among
parts_count valid [] = omega arith
parts_count valid (r ∷ rs) = ground (arith, parts_count valid rs)

parts_equal :
    (valid : Service → Bool) (rs : List Service)
    → (length rs == length (valid_among valid rs) + length (warnings_among valid rs)) ≡ true
parts_equal valid rs = (==_iff _ _).1 (parts_count valid rs)

-- Every invalid row of a page leaves one warning, with its id, and no valid row does.
warnings_listed :
    (valid : Service → Bool) (i : ℕ) (rs : List Service)
    → count_where (λ j. j == i) (warnings_among valid rs)
      ≡ count_where (λ (r : Service). r.id == i && not (valid r)) rs
unfolding warnings_among count_where
warnings_listed valid i [] = refl
warnings_listed valid i (r ∷ rs) = ground (arith, warnings_listed valid i rs)

-- The listing always answers, whatever rows are invalid. Its services and its warnings are together
-- as many as the rows of the page, and an id is warned of as often as the page holds an invalid
-- row with that id.
pub listing_answers :
    (valid : Service → Bool) (limit offset : ℕ) (c : Catalogue)
    → (p : ServicesListResponse) × (list_all_services_tolerant valid limit offset c ≡ listed p)
      × (length p.services + length p.warnings ≡ length (fetch_rows_page limit offset c))
      × ((i : ℕ)
          → count_where (λ j. j == i) p.warnings
            ≡ count_where
                (λ (r : Service). r.id == i && not (valid r))
                (fetch_rows_page limit offset c))
unfolding list_all_services_tolerant
listing_answers valid limit offset c =
    let rows = fetch_rows_page limit offset c in
    (
      record {
        total = count_rows c;
        valid_count = length (valid_among valid rows);
        services = valid_among valid rows;
        invalid_count = length (warnings_among valid rows);
        warnings = warnings_among valid rows;
        limit = limit;
        offset = offset;
      },
      rw (parts_equal valid rows) refl,
      sym (parts_count valid rows),
      λ i. warnings_listed valid i rows,
    )

service_before-IsRank : IsRank service_before
service_before-IsRank = record {
  asymmetric = λ a b h. ground arith;
  irreflexive = λ a. ground arith;
  negative = λ a b c h k. ground arith;
}

-- The rows of the next pages of one size, from an offset on.
unfoldable pub all_pages : ℕ → ℕ → ℕ → Catalogue → List Service
all_pages limit zero offset c = []
all_pages limit (suc n) offset c =
    fetch_rows_page limit offset c ++ all_pages limit n (offset + limit) c

all_pages-pages_from :
    (limit n offset : ℕ) (c : Catalogue)
    → all_pages limit n offset c ≡ pages_from service_before limit n offset c.services.rows
unfolding all_pages pages_from fetch_rows_page
all_pages-pages_from limit zero offset c = refl
all_pages-pages_from limit (suc n) offset c =
    ap (λ ys. select_page service_before limit offset c.services.rows ++ ys)
      (all_pages-pages_from limit n (offset + limit) c)

-- Enough pages of one size are together all services, each as often as it is in the table, in the
-- order of their ids.
pub pages_list_all :
    (limit n : ℕ) (c : Catalogue)
    → count_rows c ≤ n * limit
    → IsOrdered (λ (a b : Service). ltb a.id b.id) (all_pages limit n 0 c)
      × ((p : Service → Bool)
          → count_where p (all_pages limit n 0 c) ≡ count_where p c.services.rows)
unfolding count_rows
pages_list_all limit n c h =
    let whole =
      all_pages-pages_from limit n 0 c
      ∙ pages-cover service_before limit n 0 c.services.rows (omega (arith, h)) in
    (
      subst (IsOrdered service_before) (sym whole)
          (order_by-IsOrdered service_before c.services.rows service_before-IsRank),
      λ p. ap (count_where p) whole ∙ count-order_by service_before p c.services.rows,
    )
