-- ===== src/Agent/Inventory/Protected.antt =====
-- The policy of the resource that the configuration protects (`update_policy` of
-- inventory_service.py).
use node_conductor.Base.{
  ℕ, Text, ◌≡◌, refl, ◌∙◌, ◌⊎◌, inl, inr, Bool, true, false, Option, none, some, List, [], ◌∷◌,
  ◌&&◌, not, arith, if◌then◌else◌, Bool-cases, Option-cases, or_default, ==_iff,
}
use node_conductor.Agent.Schema.{
  TargetKind, compose_project, standalone_container, ManagementPolicy, discovered, managed,
  protected, ComposeClassification, Snapshot, Resource, same_policy,
}
use node_conductor.Agent.Policies.{
  Store, Change, policy_of, set_policy, fetch_operation, replay_operation,
}
use node_conductor.Agent.Policies.Laws.{policy_of-observe, policy_of-force, same_key, same_kind→eq}
use node_conductor.Agent.Policies.Changes.{set_policy_new, set_policy_known}
use node_conductor.Agent.Inventory.{
  Protection, is_configured_protection, policy_for, standalone_resource, compose_resource, Projects,
  Scan, scan_as, scan_all, add_projects, build_resources, update_policy, update_found,
}

-- Observing or forcing any resource keeps a protected policy.
policy_for-keeps :
    (k : TargetKind) (t name : Text) (forced : Bool) (now : ℕ) (s : Store) (k' : TargetKind)
    (t' : Text)
    → policy_of k' t' s ≡ some protected
    → policy_of k' t' (policy_for k t name forced now s).0 ≡ some protected
unfolding policy_for
policy_for-keeps k t name true now s k' t' h = ground (arith, policy_of-force k t name now s k' t')
policy_for-keeps k t name false now s k' t' h =
    policy_of-observe k t name now s k' t' ∙ rw h (go (same_key k t k' t'))
  where
    go :
        (b : Bool)
        → (if b then some (or_default (some protected) discovered) else some protected)
          ≡ some protected
    go true = refl
    go false = refl

module _ (cfg : Protection) (now : ℕ) (k : TargetKind) (t : Text) where
  scan_as-keeps :
      (m : ComposeClassification) (c : Snapshot) (sc : Scan)
      → policy_of k t sc.store ≡ some protected
      → policy_of k t (scan_as cfg now m c sc).store ≡ some protected
  unfolding scan_as standalone_resource
  scan_as-keeps ComposeClassification.coherent c sc h = h
  scan_as-keeps ComposeClassification.ambiguous c sc h = h
  scan_as-keeps ComposeClassification.none c sc h =
      policy_for-keeps standalone_container c.id c.name
        (is_configured_protection cfg standalone_container c.id) now sc.store k t h

  scan_all-keeps :
      (cs : List Snapshot) (sc : Scan)
      → policy_of k t sc.store ≡ some protected
      → policy_of k t (scan_all cfg now cs sc).store ≡ some protected
  unfolding scan_all
  scan_all-keeps [] sc h = h
  scan_all-keeps (c ∷ cs) sc h =
      scan_all-keeps cs (scan_as cfg now c.compose_classification c sc)
        (scan_as-keeps c.compose_classification c sc h)

  add_projects-keeps :
      (ps : Projects) (s : Store) (rs : List Resource)
      → policy_of k t s ≡ some protected
      → policy_of k t (add_projects cfg now ps s rs).0 ≡ some protected
  unfolding add_projects compose_resource
  add_projects-keeps [] s rs h = h
  add_projects-keeps ((p, cs) ∷ ps) s rs h = add_projects-keeps ps _ _ (
      policy_for-keeps compose_project p p (is_configured_protection cfg compose_project p) now s k
        t h)

  build-keeps :
      (cs : List Snapshot) (s : Store)
      → policy_of k t s ≡ some protected
      → policy_of k t (build_resources cfg now cs s).0 ≡ some protected
  unfolding build_resources
  build-keeps cs s h = add_projects-keeps _ _ _ (scan_all-keeps cs _ h)

-- A change of policy keeps a protected one, unless it is that resource's and asks for another.
set_policy-keeps :
    (u : Text) (c : Change) (name : Text) (seen now : ℕ) (s : Store) (k : TargetKind) (t : Text)
    → policy_of k t s ≡ some protected
    → (same_key c.target_kind c.target k t ≡ false) ⊎ (c.management_policy ≡ protected)
    → policy_of k t (set_policy u c name seen now s).0 ≡ some protected
set_policy-keeps u c name seen now s k t h fine = elim (Option-cases (fetch_operation u s)) [
  | inr (a, known) ↦ rw ((set_policy_known u c name seen now s a known).0) h
  | inl new ↦
      (set_policy_new u c name seen now s k t new).0 ∙ go (same_key c.target_kind c.target k t) fine
]
  where
    go :
        (b : Bool)
        → (b ≡ false) ⊎ (c.management_policy ≡ protected)
        → (if b then some c.management_policy else policy_of k t s) ≡ some protected
    go false _ = h
    go true (inl e) = absurd cc
    go true (inr e) = rw e refl

same_key-configured :
    (cfg : Protection) (k : TargetKind) (t : Text) (k' : TargetKind) (t' : Text)
    → same_key k t k' t' ≡ true
    → is_configured_protection cfg k' t' ≡ true
    → is_configured_protection cfg k t ≡ true
unfolding is_configured_protection
same_key-configured cfg k t k' t' same own =
    rw (same_kind→eq k k' (ground arith), (==_iff t t').0 (ground arith)) own

pub same_policy→eq : (m m' : ManagementPolicy) → same_policy m m' ≡ true → m ≡ m'
same_policy→eq discovered discovered h = refl
same_policy→eq managed managed h = refl
same_policy→eq protected protected h = refl
same_policy→eq _ _ h = absurd cc

-- Once the resource that the configuration protects has the policy `protected`, no request to
-- change a policy takes it away, whatever the engine lists and whichever resource is named.
pub update_policy-keeps :
    (cfg : Protection) (u : Text) (c : Change) (observed seen now : ℕ) (cs : List Snapshot)
    (s : Store) (k : TargetKind) (t : Text)
    → is_configured_protection cfg k t ≡ true
    → policy_of k t s ≡ some protected
    → policy_of k t (update_policy cfg u c observed seen now cs s).0 ≡ some protected
unfolding update_policy
update_policy-keeps cfg u c observed seen now cs s k t own h =
    elim (Option-cases (replay_operation u c s)) [
      | inr (r, known) ↦ rw (known, update_policy) h
      | inl new ↦
          elim (Bool-cases (
            is_configured_protection cfg c.target_kind c.target
            && not (same_policy c.management_policy protected))) [
              | inl refused ↦ rw (new, update_policy) (rw refused h)
              | inr fine ↦ rw (new, update_policy) (rw fine (found fine _))
            ]
    ]
  where
    allowed :
        (is_configured_protection cfg c.target_kind c.target
            && not (same_policy c.management_policy protected))
          ≡ false
        → (same_key c.target_kind c.target k t ≡ false) ⊎ (c.management_policy ≡ protected)
    allowed fine = elim (Bool-cases (same_key c.target_kind c.target k t)) [
      | inr other ↦ inl other
      | inl same ↦
          let own' = same_key-configured cfg c.target_kind c.target k t same own in
          inr (same_policy→eq c.management_policy protected (ground arith))
    ]

    found :
        (is_configured_protection cfg c.target_kind c.target
            && not (same_policy c.management_policy protected))
          ≡ false
        → (r : Option Resource)
        → policy_of k t (update_found u c seen now (build_resources cfg observed cs s).0 r).0
          ≡ some protected
    found fine none = build-keeps cfg observed k t cs s h
    found fine (some r) =
        set_policy-keeps u c r.display_name seen now (build_resources cfg observed cs s).0 k t
          (build-keeps cfg observed k t cs s h) (allowed fine)
