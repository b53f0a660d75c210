-- ===== src/Agent/Gateway/Containers.antt =====
-- The lists of containers (docker_gateway.py). A container of Docker's list has an id, and what its
-- inspection comes to.
use node_conductor.Base.{ℕ, Text, Bool, Option, none, some, List, [], ◌∷◌, ltb, take, drop, length}
use node_conductor.Table.Ordered.{order_by}
use node_conductor.Agent.Schema.{Snapshot}

-- The attributes as a snapshot, `NotFound`, another error of Docker, or attributes that cannot be
-- read.
pub data Inspected : Type 0 where
  inspected : Snapshot → Inspected
  not_found docker_error unreadable : Inspected

pub record Container : Type 0 where
  pub id : Text
  pub inspection : Inspected

pub data GatewayError : Type 0 where
  engine_unavailable container_not_found docker_operation : GatewayError

pub data Gateway {ℓ} (A : Type ℓ) : Type ℓ where
  answer : A → Gateway A
  raise : GatewayError → Gateway A

abbrev pub with_snapshot : Snapshot → Gateway (List Snapshot) → Gateway (List Snapshot)
with_snapshot s (answer ss) = answer (s ∷ ss)
with_snapshot s (raise e) = raise e

-- The loop: a container that has gone is skipped.
unfoldable pub inspect_all : List Container → Gateway (List Snapshot)
inspect_all [] = answer []
inspect_all (c ∷ cs) =
    let rest = inspect_all cs in
    elim c.inspection [
      | inspected s ↦ with_snapshot s rest
      | not_found ↦ rest
      | docker_error ↦ raise engine_unavailable
      | unreadable ↦ raise docker_operation
    ]

abbrev pub container_before : Container → Container → Bool
container_before a b = ltb a.id b.id

-- `list_all_containers`; none for a list that Docker does not give.
unfoldable pub list_all_containers : Option (List Container) → Gateway (List Snapshot)
list_all_containers none = raise engine_unavailable
list_all_containers (some cs) = inspect_all (order_by container_before cs)

pub record ContainerPage : Type 0 where
  pub items : List Snapshot
  pub total : ℕ

abbrev pub page_of_all : ℕ → ℕ → Gateway (List Snapshot) → Gateway ContainerPage
page_of_all limit offset (raise e) = raise e
page_of_all limit offset (answer ss) =
    answer (record { items = take limit (drop offset ss); total = length ss })

-- `list_containers`
unfoldable pub list_containers : ℕ → ℕ → Option (List Container) → Gateway ContainerPage
list_containers limit offset cs = page_of_all limit offset (list_all_containers cs)

-- `inspect_container`, on what the look for the container and its inspection come to.
unfoldable pub inspect_container : Inspected → Gateway Snapshot
inspect_container (inspected s) = answer s
inspect_container not_found = raise container_not_found
inspect_container docker_error = raise engine_unavailable
inspect_container unreadable = raise docker_operation
