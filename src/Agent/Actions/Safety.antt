-- ===== src/Agent/Actions/Safety.antt =====
-- When a call may be sent to the engine (`_execute_leader` of action_service.py).
use node_conductor.Base.{
  Text, ◌≡◌, refl, inl, inr, true, false, none, some, ◌||◌, not, arith, Bool-cases, Option-cases,
}
use node_conductor.Agent.Schema.{
  TargetKind, compose_project, standalone_container, ResourceAction, Resource, is_operational,
  same_kind,
}
use node_conductor.Agent.Actions.{
  not_found, engine_unavailable, broken, Fetched, value, failure, current_target,
  preflight_rejection, compose_preflight, registered, desired_state_observed, Call, is_managed,
}
use node_conductor.Agent.Actions.Leader.{
  World, pursue, registry_failure, with_resource, locked, verdict,
}

-- What must hold of a resource for an action to be sent to it.
pub record MayBeSent (w : World) (k : TargetKind) (t : Text) (a : ResourceAction) (r : Resource)
    : Type 0 where
  pub is_operational_target : is_operational r.classification ≡ true
  pub operable : r.operable ≡ true
  pub unprotected : r.protection_forced ≡ false
  pub managed : is_managed r.management_policy ≡ true
  pub registered_project : (not (same_kind k compose_project) || registered w.registry t) ≡ true
  pub runner : (not (same_kind k compose_project) || w.runner_available) ≡ true
  pub needed : desired_state_observed r a ≡ false

module _ (w : World) (k : TargetKind) (t : Text) (a : ResourceAction) (r : Resource) where
  pub preflight_passed :
      preflight_rejection r ≡ none
      → (is_operational r.classification ≡ true)
        × (r.operable ≡ true)
        × (r.protection_forced ≡ false)
        × (is_managed r.management_policy ≡ true)
  unfolding preflight_rejection
  preflight_passed h = ground arith

  compose_passed :
      (k : TargetKind)
      → registry_failure w k t ≡ none
      → (not (same_kind k compose_project) || registered w.registry t) ≡ true
  unfolding compose_preflight
  compose_passed compose_project h = ground arith
  compose_passed standalone_container h = refl

  pursued :
      (c : Call)
      → (pursue w k t a r).call ≡ some c
      → (desired_state_observed r a ≡ false)
        × ((not (same_kind k compose_project) || w.runner_available) ≡ true)
  unfolding pursue
  pursued c h = (ground arith, ground arith)

  pub resource_call : (c : Call) → (with_resource w k t a r).call ≡ some c → MayBeSent w k t a r
  unfolding with_resource
  resource_call c h = elim (Option-cases (preflight_rejection r)) [
    | inr (code, e) ↦ absurd (ground arith)
    | inl fine ↦ elim (Option-cases (registry_failure w k t)) [
      | inr (f, e) ↦ absurd (ground arith)
      | inl known ↦
          let (p1, p2, p3, p4) = preflight_passed fine in
          let (n, run) = pursued c (ground arith) in
          record {
            is_operational_target = p1;
            operable = p2;
            unprotected = p3;
            managed = p4;
            registered_project = compose_passed k known;
            runner = run;
            needed = n;
          }
    ]
  ]

-- A call is sent to the engine only under the resource's lock, and only for a resource that the
-- engine shows right before as operational, operable, not protected and managed, that is not yet in
-- the wanted state, and, for a project, that the local registry has and the runner can reach.
pub call_is_allowed :
    (w : World) (k : TargetKind) (t : Text) (a : ResourceAction) (c : Call)
    → (verdict w k t a).call ≡ some c
    → (w.lock_free ≡ true)
      × ((r : Resource) × (current_target k t w.before ≡ value r) × MayBeSent w k t a r)
unfolding verdict locked
call_is_allowed w k t a c h = elim (Bool-cases w.lock_free) [
  | inr held ↦ absurd (ground arith)
  | inl free ↦ (free, go (current_target k t w.before) refl)
]
  where
    go :
        (x : Fetched Resource)
        → current_target k t w.before ≡ x
        → (r : Resource) × (current_target k t w.before ≡ value r) × MayBeSent w k t a r
    go (value r) e = (r, e, resource_call w k t a r c (ground arith))
    go (failure not_found) e = absurd (ground arith)
    go (failure engine_unavailable) e = absurd (ground arith)
    go (failure broken) e = absurd (ground arith)
