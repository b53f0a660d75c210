-- ===== src/Agent/Actions/Outcome.antt =====
-- What the status of a finished operation means (`_execute_leader` of action_service.py).
use node_conductor.Base.{
  Text, ◌≡◌, refl, subst, sym, ◌⊎◌, inl, inr, Bool, true, false, none, some, ◌&&◌, not, arith,
  if◌then◌else◌, Bool-cases, Option-cases,
}
use node_conductor.Agent.Schema.{
  TargetKind, compose_project, standalone_container, ResourceAction, Resource, same_kind,
}
use node_conductor.Agent.Journal.{
  Status, completed, rejected, failed, indeterminate, ResultCode, is_in_progress, resource_busy,
}
use node_conductor.Agent.Actions.{
  not_found, engine_unavailable, broken, Fetched, value, failure, current_target,
  preflight_rejection, compose_preflight, desired_state_observed, filtered, call_for, ActionError,
  Sent, performed, action_error, raised,
}
use node_conductor.Agent.Actions.Leader.{
  World, Verdict, unsent, after_call, dispatch, pursue, registry_failure, with_resource, locked,
  verdict,
}

-- The ways an execution can end.
pub data Ends (w : World) (k : TargetKind) (t : Text) (a : ResourceAction) (v : Verdict)
    : Type 0 where
  -- nothing was sent, and nothing is claimed
  refused : (v.status ≡ rejected) ⊎ (v.status ≡ failed) → v.call ≡ none → Ends w k t a v
  -- the wanted state was seen before any call, and none was sent
  already_there :
      (r : Resource)
      → v.status ≡ completed
      → v.call ≡ none
      → current_target k t w.before ≡ value r
      → desired_state_observed r a ≡ true
      → v.resource ≡ filtered r
      → Ends w k t a v
  -- the call returned, and the wanted state was seen after it
  carried_out :
      (r : Resource)
      → v.status ≡ completed
      → v.call ≡ some (call_for k t a w.stop_timeout)
      → w.sent ≡ performed
      → current_target k t w.after ≡ value r
      → desired_state_observed r a ≡ true
      → v.resource ≡ filtered r
      → Ends w k t a v
  -- the call returned, and another state was seen after it
  not_reached :
      (r : Resource)
      → v.status ≡ failed
      → v.call ≡ some (call_for k t a w.stop_timeout)
      → w.sent ≡ performed
      → current_target k t w.after ≡ value r
      → desired_state_observed r a ≡ false
      → Ends w k t a v
  -- the call is known to have failed
  known_failure :
      (e : ActionError)
      → v.status ≡ failed
      → v.call ≡ some (call_for k t a w.stop_timeout)
      → w.sent ≡ action_error e
      → e.uncertain ≡ false
      → Ends w k t a v
  -- a call was sent, and what became of it is not known
  unknown :
      v.status ≡ indeterminate → v.call ≡ some (call_for k t a w.stop_timeout) → Ends w k t a v

module _ (w : World) (k : TargetKind) (t : Text) (a : ResourceAction) where
  after_call-Ends :
      (x : Fetched Resource)
      → w.sent ≡ performed
      → current_target k t w.after ≡ x
      → Ends w k t a (after_call (call_for k t a w.stop_timeout) a x)
  after_call-Ends (failure not_found) p e = unknown refl refl
  after_call-Ends (failure engine_unavailable) p e = unknown refl refl
  after_call-Ends (failure broken) p e = unknown refl refl
  after_call-Ends (value r) p e = elim (Bool-cases (desired_state_observed r a)) [
    | inl seen ↦ carried_out r (rw seen refl) (rw seen refl) p e seen (rw seen refl)
    | inr other ↦ not_reached r (rw other refl) (rw other refl) p e other
  ]

  dispatch-Ends : Ends w k t a (dispatch w k t a)
  unfolding dispatch
  dispatch-Ends = go w.sent refl
    where
      go : (s : Sent) → w.sent ≡ s → Ends w k t a (dispatch w k t a)
      go performed e =
          subst (λ v. Ends w k t a v) (sym (rw e refl))
            (after_call-Ends (current_target k t w.after) e refl)
      go (action_error x) e = elim (Bool-cases x.uncertain) [
        | inl unsure ↦ unknown (rw (e, unsure) refl) (rw e refl)
        | inr sure ↦ known_failure x (rw (e, sure) refl) (rw e refl) e sure
      ]
      go (raised broken) e = unknown (rw e refl) (rw e refl)
      go (raised not_found) e = unknown (rw e refl) (rw e refl)
      go (raised engine_unavailable) e = unknown (rw e refl) (rw e refl)

  registry_failure-status :
      (k : TargetKind) (st : Status) (code : ResultCode)
      → registry_failure w k t ≡ some (st, code)
      → (st ≡ rejected) ⊎ (st ≡ failed)
  unfolding compose_preflight
  registry_failure-status compose_project st code h = ground arith
  registry_failure-status standalone_container st code h = absurd cc

  with_resource-Ends :
      (r : Resource)
      → current_target k t w.before ≡ value r
      → Ends w k t a (with_resource w k t a r)
  unfolding with_resource pursue
  with_resource-Ends r seen = elim (Option-cases (preflight_rejection r)) [
    | inr (code, e) ↦ rw (e, with_resource) (refused (inl refl) refl)
    | inl fine ↦
        rw (fine, with_resource)
          (elim (Option-cases (registry_failure w k t)) [
            | inr ((st, code), e) ↦ rw e (refused (registry_failure-status k st code e) refl)
            | inl known ↦ rw known (elim (Bool-cases (desired_state_observed r a)) [
              | inl done ↦ rw done (already_there r refl refl seen done refl)
              | inr needed ↦
                  rw needed
                    (elim (Bool-cases (same_kind k compose_project && not w.runner_available)) [
                      | inl none_there ↦ rw none_there (refused (inr refl) refl)
                      | inr ready ↦ rw ready dispatch-Ends
                    ])
            ])
          ])
  ]

  -- Whatever the engine, the registry and the runner do, an execution ends in one of six ways:
  -- rejected or failed with no call sent; completed with no call, the wanted state seen before;
  -- completed after a call that returned, the wanted state seen after it; failed after a call that
  -- returned, another state seen after it; failed after a call that is known to have failed; or
  -- indeterminate after a call. The resource of a completed one is the one that was seen.
  pub verdict-Ends : Ends w k t a (verdict w k t a)
  unfolding verdict locked
  verdict-Ends = pick w.lock_free
    where
      go : (x : Fetched Resource) → current_target k t w.before ≡ x → Ends w k t a (locked w k t a)
      go (value r) e = rw (e, locked) (with_resource-Ends r e)
      go (failure not_found) e = rw (e, locked) (refused (inl refl) refl)
      go (failure engine_unavailable) e = rw (e, locked) (refused (inr refl) refl)
      go (failure broken) e = rw (e, locked) (refused (inr refl) refl)

      pick :
          (free : Bool)
          → Ends w k t a (if free then locked w k t a else unsent rejected resource_busy none)
      pick true = go (current_target k t w.before) refl
      pick false = refused (inl refl) refl

  -- An execution always ends its operation.
  pub verdict-ends : is_in_progress (verdict w k t a).status ≡ false
  verdict-ends = ended verdict-Ends
    where
      ended : Ends w k t a (verdict w k t a) → is_in_progress (verdict w k t a).status ≡ false
      ended (refused (inl s) _) = rw s refl
      ended (refused (inr s) _) = rw s refl
      ended (already_there r s _ _ _ _) = rw s refl
      ended (carried_out r s _ _ _ _ _) = rw s refl
      ended (not_reached r s _ _ _ _) = rw s refl
      ended (known_failure e s _ _ _) = rw s refl
      ended (unknown s _) = rw s refl
