-- ===== src/Agent/Inventory/Sound.antt =====
-- What holds of every listed resource (`_build_resources` of inventory_service.py), with the
-- validator of models.py.
use node_conductor.Base.{
  ℕ, Text, ◌≡◌, refl, Bool, true, false, Option, none, some, List, [], ◌∷◌, ◌++◌, ◌&&◌, ◌||◌, not,
  All, All-append, if◌then◌else◌, is_none, is_some, Bool-cases, inl, inr,
}
use node_conductor.Agent.Schema.{
  TargetKind, compose_project, standalone_container, ManagementPolicy, ComposeClassification,
  Snapshot, Member, Resource, is_operational, is_kind,
}
use node_conductor.Agent.Policies.{Store}
use node_conductor.Agent.Inventory.{
  Protection, is_configured_protection, policy_for, standalone_resource, ambiguous_resource,
  insert_by, sort_by, compose_resource, Projects, Scan, scan_as, scan_all, add_projects,
  resource_before, build_resources,
}

abbrev pub no_members : List Member → Bool
no_members [] = true
no_members (_ ∷ _) = false

-- `ResourceResponse.validate_classification` (models.py) raises nothing.
unfoldable pub validate_classification : Resource → Bool
validate_classification r =
    (if is_operational r.classification
      then is_some r.target_kind && is_some r.management_policy && r.operable && not r.diagnostic
      else is_none r.target_kind
        && is_none r.management_policy
        && not r.operable
        && not r.protection_forced)
    && (is_kind r.target_kind compose_project || no_members r.members)

abbrev pub is_protected : Option ManagementPolicy → Bool
is_protected (some ManagementPolicy.protected) = true
is_protected _ = false

-- The resource that the configuration protects carries the flag and the policy.
abbrev pub flag_is_right :
    Protection → Option TargetKind → Text → Bool → Option ManagementPolicy → Bool
flag_is_right cfg none t forced policy = not forced
flag_is_right cfg (some k) t true policy = is_configured_protection cfg k t && is_protected policy
flag_is_right cfg (some k) t false policy = not (is_configured_protection cfg k t)

abbrev pub IsSound : Protection → Resource → Type 0
IsSound cfg r =
    (validate_classification r ≡ true)
    × (flag_is_right cfg r.target_kind r.target r.protection_forced r.management_policy ≡ true)

module _ {ℓ κ} {A : Type ℓ} (P : A → Type κ) (before : A → A → Bool) where
  pub All-insert_by : (x : A) (xs : List A) → P x → All P xs → All P (insert_by before x xs)
  unfolding insert_by
  All-insert_by x [] p a = (p, tt)
  All-insert_by x (y ∷ ys) p a = elim (Bool-cases (before y x)) [
    | inl earlier ↦ rw earlier (a.0, All-insert_by x ys p a.1)
    | inr later ↦ rw later (p, a)
  ]

  pub All-sort_by : (xs : List A) → All P xs → All P (sort_by before xs)
  unfolding sort_by
  All-sort_by [] a = tt
  All-sort_by (x ∷ xs) a = All-insert_by x (sort_by before xs) a.0 (All-sort_by xs a.1)

module _ (cfg : Protection) (now : ℕ) where
  standalone-IsSound : (c : Snapshot) (s : Store) → IsSound cfg (standalone_resource cfg c now s).1
  unfolding standalone_resource validate_classification policy_for
  standalone-IsSound c s =
      elim (Bool-cases (is_configured_protection cfg standalone_container c.id)) [
        | inl own ↦ (refl, rw (own, standalone_resource) (rw own))
        | inr other ↦ (refl, rw (other, standalone_resource) (rw other))
      ]

  compose-IsSound :
      (p : Text) (cs : List Snapshot) (s : Store) → IsSound cfg (compose_resource cfg p cs now s).1
  unfolding compose_resource validate_classification policy_for
  compose-IsSound p cs s = elim (Bool-cases (is_configured_protection cfg compose_project p)) [
    | inl own ↦ (refl, rw (own, compose_resource) (rw own))
    | inr other ↦ (refl, rw (other, compose_resource) (rw other))
  ]

  ambiguous-IsSound : (c : Snapshot) → IsSound cfg (ambiguous_resource c)
  unfolding ambiguous_resource validate_classification
  ambiguous-IsSound c = (refl, refl)

  scan_as-IsSound :
      (k : ComposeClassification) (c : Snapshot) (sc : Scan)
      → All (IsSound cfg) sc.resources
      → All (IsSound cfg) (scan_as cfg now k c sc).resources
  unfolding scan_as
  scan_as-IsSound ComposeClassification.coherent c sc a = a
  scan_as-IsSound ComposeClassification.ambiguous c sc a =
      All-append (IsSound cfg) sc.resources (ambiguous_resource c ∷ []) a (ambiguous-IsSound c, tt)
  scan_as-IsSound ComposeClassification.none c sc a =
      All-append (IsSound cfg) sc.resources ((standalone_resource cfg c now sc.store).1 ∷ []) a
        (standalone-IsSound c sc.store, tt)

  scan_all-IsSound :
      (cs : List Snapshot) (sc : Scan)
      → All (IsSound cfg) sc.resources
      → All (IsSound cfg) (scan_all cfg now cs sc).resources
  unfolding scan_all
  scan_all-IsSound [] sc a = a
  scan_all-IsSound (c ∷ cs) sc a =
      scan_all-IsSound cs (scan_as cfg now c.compose_classification c sc)
        (scan_as-IsSound c.compose_classification c sc a)

  add_projects-IsSound :
      (ps : Projects) (s : Store) (rs : List Resource)
      → All (IsSound cfg) rs
      → All (IsSound cfg) (add_projects cfg now ps s rs).1
  unfolding add_projects
  add_projects-IsSound [] s rs a = a
  add_projects-IsSound ((p, cs) ∷ ps) s rs a =
      let (s', r) = compose_resource cfg p cs now s in
      add_projects-IsSound ps s' (rs ++ (r ∷ []))
        (All-append (IsSound cfg) rs (r ∷ []) a (compose-IsSound p cs s, tt))

  -- Whatever containers the engine lists, the model's validator accepts every resource that is
  -- built, and exactly the resource that the configuration protects is flagged, with the policy
  -- `protected`.
  pub build-IsSound :
      (cs : List Snapshot) (s : Store) → All (IsSound cfg) (build_resources cfg now cs s).1
  unfolding build_resources
  build-IsSound cs s =
      let sc : Scan =
        scan_all cfg now cs
          (record { projects = []; resources = []; inconsistent = false; store = s }) in
      All-sort_by (IsSound cfg) resource_before
        (add_projects cfg now sc.projects sc.store sc.resources).1
        (add_projects-IsSound sc.projects sc.store sc.resources (scan_all-IsSound cs _ tt))
