-- ===== src/Backend/Catalogue/Fields.antt =====
-- What a partial update makes of each field of a service, and which names it tells
-- (services/update.py).
use node_conductor.Base.{
  ℕ, ◌+◌, List, if◌then◌else◌, ◌≡◌, refl, Text, false, Option, none, some, ◌==◌, arith, ◌++◌,
}
use node_conductor.Table.{count_where}
use node_conductor.Table.Count.{count-concat}
use node_conductor.Backend.Schema.{Service}
use node_conductor.Backend.Catalogue.{
  Field, unset, null, set, UpdateService, is_null, assign, assign_nullable, field_name,
  updated_fields, assigned, null_required,
}

-- What a key of the request makes of a column that is not nullable, and of one that is.
abbrev pub IsAssigned : {A : Type 0} → Field A → A → A → Type 0
IsAssigned (set a) old new = new ≡ a
IsAssigned unset old new = new ≡ old
IsAssigned null old new = ⊥

abbrev pub IsAssignedNullable : {A : Type 0} → Field A → Option A → Option A → Type 0
IsAssignedNullable (set a) old new = new ≡ some a
IsAssignedNullable unset old new = new ≡ old
IsAssignedNullable null old new = new ≡ none

assign-IsAssigned :
    {A : Type 0} (f : Field A) (old : A) → is_null f ≡ false → IsAssigned f old (assign f old)
assign-IsAssigned (set a) old h = refl
assign-IsAssigned unset old h = refl
assign-IsAssigned null old h = absurd cc

assign_nullable-IsAssigned :
    {A : Type 0} (f : Field A) (old : Option A) → IsAssignedNullable f old (assign_nullable f old)
assign_nullable-IsAssigned (set a) old = refl
assign_nullable-IsAssigned unset old = refl
assign_nullable-IsAssigned null old = refl

-- How often a key with the name `t` stands for the name `n`: once if it is there, and is this one.
abbrev pub named_by : {A : Type 0} → Text → Text → Field A → ℕ
named_by n t unset = 0
named_by n t _ = if t == n then 1 else 0

-- Every field is what the request says, and the id and the status are the old ones.
pub record IsUpdated (u : UpdateService) (old new : Service) : Type 0 where
  pub id : new.id ≡ old.id
  pub status : new.status ≡ old.status
  pub name : IsAssigned u.name old.name new.name
  pub kind : IsAssigned u.kind old.kind new.kind
  pub category : IsAssigned u.category old.category new.category
  pub description : IsAssigned u.description old.description new.description
  pub dependencies : IsAssignedNullable u.dependencies old.dependencies new.dependencies
  pub device_dependencies :
      IsAssignedNullable u.device_dependencies old.device_dependencies new.device_dependencies

pub assigned-IsUpdated :
    (u : UpdateService) (old : Service) → null_required u ≡ false → IsUpdated u old (assigned u old)
assigned-IsUpdated u old h = record {
  id = refl;
  status = refl;
  name = assign-IsAssigned u.name old.name (ground arith);
  kind = assign-IsAssigned u.kind old.kind (ground arith);
  category = assign-IsAssigned u.category old.category (ground arith);
  description = assign-IsAssigned u.description old.description (ground arith);
  dependencies = assign_nullable-IsAssigned u.dependencies old.dependencies;
  device_dependencies = assign_nullable-IsAssigned u.device_dependencies old.device_dependencies;
}

count-field_name :
    {A : Type 0} (n t : Text) (f : Field A)
    → count_where (λ m. m == n) (field_name t f) ≡ named_by n t f
unfolding count_where
count-field_name n t unset = refl
count-field_name n t null = ground arith
count-field_name n t (set a) = ground arith

-- The names 0 to 5 are those of category, dependencies, description, device_dependencies, name and
-- type.
pub count-updated_fields :
    (u : UpdateService) (n : Text)
    → count_where (λ m. m == n) (updated_fields u)
      ≡ named_by n 0 u.category
        + (named_by n 1 u.dependencies
            + (named_by n 2 u.description
                + (named_by n 3 u.device_dependencies
                    + (named_by n 4 u.name + named_by n 5 u.kind))))
count-updated_fields u n =
    let names : List Text = field_name 4 u.name ++ field_name 5 u.kind in
    let names3 : List Text = field_name 3 u.device_dependencies ++ names in
    let names2 : List Text = field_name 2 u.description ++ names3 in
    let names1 : List Text = field_name 1 u.dependencies ++ names2 in
    omega (
      arith,
      count-concat (λ m. m == n) (field_name 0 u.category) names1,
      count-concat (λ m. m == n) (field_name 1 u.dependencies) names2,
      count-concat (λ m. m == n) (field_name 2 u.description) names3,
      count-concat (λ m. m == n) (field_name 3 u.device_dependencies) names,
      count-concat (λ m. m == n) (field_name 4 u.name) (field_name 5 u.kind),
      count-field_name n 0 u.category,
      count-field_name n 1 u.dependencies,
      count-field_name n 2 u.description,
      count-field_name n 3 u.device_dependencies,
      count-field_name n 4 u.name,
      count-field_name n 5 u.kind,
    )
