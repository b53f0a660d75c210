-- ===== src/Agent/Inventory/Complete.antt =====
-- Which containers the resources of an inventory stand for (`_build_resources` of
-- inventory_service.py).
use node_conductor.Base.{
  ℕ, ◌+◌, Text, ◌≡◌, refl, Bool, false, Option, some, List, [], ◌∷◌, ◌++◌, map, arith, ◌==◌,
  if◌then◌else◌, Bool-cases, inl, inr, ◌∙◌,
}
use node_conductor.Table.{count_where}
use node_conductor.Agent.Schema.{
  TargetKind, compose_project, ComposeClassification, Snapshot, Member, Resource,
}
use node_conductor.Agent.Policies.{Store}
use node_conductor.Agent.Inventory.{
  Protection, standalone_resource, ambiguous_resource, insert_by, sort_by, id_before,
  compose_members, member_of, compose_resource, Projects, add_to_project, project_name, Scan,
  scan_as, scan_all, add_projects, resource_before, build_resources,
}

-- How often a resource stands for the container `i`: a project by its members, another resource by
-- itself.
abbrev pub weight_of : Text → Option TargetKind → Text → List Member → ℕ
weight_of i (some compose_project) t ms = count_where (λ (m : Member). m.docker_id == i) ms
weight_of i _ t ms = if t == i then 1 else 0

abbrev pub standing_for : Text → List Resource → ℕ
standing_for i [] = 0
standing_for i (r ∷ rs) = weight_of i r.target_kind r.target r.members + standing_for i rs

abbrev has_container : Text → Snapshot → Bool
has_container i c = c.id == i

abbrev in_projects : Text → Projects → ℕ
in_projects i [] = 0
in_projects i ((p, cs) ∷ ps) = count_where (has_container i) cs + in_projects i ps

count-insert_by {ℓ} :
    {A : Type ℓ} (p : A → Bool) (before : A → A → Bool) (x : A) (xs : List A)
    → count_where p (insert_by before x xs) ≡ count_where p (x ∷ xs)
unfolding insert_by count_where
count-insert_by p before x [] = refl
count-insert_by p before x (y ∷ ys) = elim (Bool-cases (before y x)) [
  | inl earlier ↦ rw earlier (ground (arith, count-insert_by p before x ys))
  | inr later ↦ rw later
]

count-sort_by {ℓ} :
    {A : Type ℓ} (p : A → Bool) (before : A → A → Bool) (xs : List A)
    → count_where p (sort_by before xs) ≡ count_where p xs
unfolding sort_by count_where
count-sort_by p before [] = refl
count-sort_by p before (x ∷ xs) =
    count-insert_by p before x (sort_by before xs) ∙ ground (arith, count-sort_by p before xs)

module _ (i : Text) where
  standing_for-append :
      (xs ys : List Resource) → standing_for i (xs ++ ys) ≡ standing_for i xs + standing_for i ys
  standing_for-append [] ys = omega arith
  standing_for-append (x ∷ xs) ys = omega (arith, standing_for-append xs ys)

  standing_for-insert_by :
      (before : Resource → Resource → Bool) (x : Resource) (xs : List Resource)
      → standing_for i (insert_by before x xs) ≡ standing_for i (x ∷ xs)
  unfolding insert_by
  standing_for-insert_by before x [] = refl
  standing_for-insert_by before x (y ∷ ys) = elim (Bool-cases (before y x)) [
    | inl earlier ↦ rw earlier (omega (arith, standing_for-insert_by before x ys))
    | inr later ↦ rw later
  ]

  standing_for-sort_by :
      (before : Resource → Resource → Bool) (xs : List Resource)
      → standing_for i (sort_by before xs) ≡ standing_for i xs
  unfolding sort_by
  standing_for-sort_by before [] = refl
  standing_for-sort_by before (x ∷ xs) =
      standing_for-insert_by before x (sort_by before xs)
      ∙ omega (arith, standing_for-sort_by before xs)

  count-members :
      (now : ℕ) (cs : List Snapshot)
      → count_where (λ (m : Member). m.docker_id == i) (map (member_of now) cs)
        ≡ count_where (has_container i) cs
  unfolding count_where
  count-members now [] = refl
  count-members now (c ∷ cs) = ground (arith, count-members now cs)

  count-compose_members :
      (cs : List Snapshot) (now : ℕ)
      → count_where (λ (m : Member). m.docker_id == i) (compose_members cs now)
        ≡ count_where (has_container i) cs
  unfolding compose_members
  count-compose_members cs now =
      count-members now (sort_by id_before cs) ∙ count-sort_by (has_container i) id_before cs

  abbrev one : Snapshot → ℕ
  one c = if c.id == i then 1 else 0

  count-snoc :
      (cs : List Snapshot) (c : Snapshot)
      → count_where (has_container i) (cs ++ (c ∷ [])) ≡ one c + count_where (has_container i) cs
  unfolding count_where
  count-snoc [] c = elim (Bool-cases (c.id == i)) [ inl e ↦ rw e refl | inr e ↦ rw e refl ]
  count-snoc (x ∷ cs) c = ground (arith, count-snoc cs c)

  in_projects-add :
      (p : Text) (c : Snapshot) (ps : Projects)
      → in_projects i (add_to_project p c ps) ≡ one c + in_projects i ps
  unfolding add_to_project count_where
  in_projects-add p c [] = omega (arith, count-snoc [] c)
  in_projects-add p c ((q, cs) ∷ ps) = elim (Bool-cases (q == p)) [
    | inl same ↦ rw same (omega (arith, count-snoc cs c))
    | inr other ↦ rw other (omega (arith, in_projects-add p c ps))
  ]

  abbrev scanned : Scan → ℕ
  scanned sc = in_projects i sc.projects + standing_for i sc.resources

module _ (i : Text) (cfg : Protection) (now : ℕ) where
  scanned-scan_as :
      (k : ComposeClassification) (c : Snapshot) (sc : Scan)
      → scanned i (scan_as cfg now k c sc) ≡ one i c + scanned i sc
  unfolding scan_as ambiguous_resource standalone_resource
  scanned-scan_as ComposeClassification.coherent c sc =
      omega (arith, in_projects-add i (project_name c.compose_project) c sc.projects)
  scanned-scan_as ComposeClassification.ambiguous c sc =
      omega (arith, standing_for-append i sc.resources (ambiguous_resource c ∷ []))
  scanned-scan_as ComposeClassification.none c sc =
      omega (
        arith,
        standing_for-append i sc.resources ((standalone_resource cfg c now sc.store).1 ∷ []),
      )

  scanned-scan_all :
      (cs : List Snapshot) (sc : Scan)
      → scanned i (scan_all cfg now cs sc) ≡ count_where (has_container i) cs + scanned i sc
  unfolding scan_all count_where
  scanned-scan_all [] sc = omega arith
  scanned-scan_all (c ∷ cs) sc = ground (
    arith,
    scanned-scan_all cs (scan_as cfg now c.compose_classification c sc),
    scanned-scan_as c.compose_classification c sc,
  )

  weight-compose :
      (p : Text) (cs : List Snapshot) (s : Store)
      → standing_for i ((compose_resource cfg p cs now s).1 ∷ []) ≡ count_where (has_container i) cs
  unfolding compose_resource
  weight-compose p cs s = omega (arith, count-compose_members i cs now)

  standing_for-add_projects :
      (ps : Projects) (s : Store) (rs : List Resource)
      → standing_for i (add_projects cfg now ps s rs).1 ≡ in_projects i ps + standing_for i rs
  unfolding add_projects
  standing_for-add_projects [] s rs = omega arith
  standing_for-add_projects ((p, cs) ∷ ps) s rs =
      let (s', r) = compose_resource cfg p cs now s in
      omega (
        arith,
        standing_for-add_projects ps s' (rs ++ (r ∷ [])),
        standing_for-append i rs (r ∷ []),
        weight-compose p cs s,
      )

-- A container is in the inventory exactly as often as the engine lists it: for every id, the
-- projects that have a member with this id and the other resources whose target it is, each counted
-- as often as it occurs, are as many as the containers listed with the id. None is lost, counted
-- twice or given another id by the classification, the grouping by project and the sorting.
pub containers-build :
    (cfg : Protection) (now : ℕ) (cs : List Snapshot) (s : Store) (i : Text)
    → standing_for i (build_resources cfg now cs s).1 ≡ count_where (λ (c : Snapshot). c.id == i) cs
unfolding build_resources
containers-build cfg now cs s i =
    let empty : Scan = record { projects = []; resources = []; inconsistent = false; store = s } in
    let sc = scan_all cfg now cs empty in
    standing_for-sort_by i resource_before
      (add_projects cfg now sc.projects sc.store sc.resources).1
    ∙ omega (
      arith,
      standing_for-add_projects i cfg now sc.projects sc.store sc.resources,
      scanned-scan_all i cfg now cs empty,
    )
