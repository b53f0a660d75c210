-- ===== src/Agent/Policies/Changes.antt =====
-- The changes of policies, their effect and their audit (`set_policy` of policy_repository.py).
use node_conductor.Base.{
  ℕ, ◌≡◌, refl, sym, ap, ◌∙◌, Text, true, ◌&&◌, none, some, [], ◌∷◌, ◌++◌, arith, ◌==◌,
  if◌then◌else◌, or_default,
}
use node_conductor.Table.Count.{find-append_none}
use node_conductor.Agent.Schema.{
  TargetKind, compose_project, standalone_container, ManagementPolicy, discovered, managed,
  protected, same_kind, same_policy,
}
use node_conductor.Agent.Policies.{
  Audit, Store, has_operation_id, policy_of, observe_rows, observe, write_policy, Change, matches,
  fetch_operation, response, operation_conflict, audit_row, change_policy, set_policy,
  replay_operation,
}
use node_conductor.Agent.Policies.Laws.{same_key, observed_policy, written_after_observe}

module _ (u : Text) (c : Change) (name : Text) (seen now : ℕ) (s : Store) where
  new_request :
      fetch_operation u s ≡ none
      → set_policy u c name seen now s ≡ change_policy u c name seen now s
  unfolding set_policy
  new_request new = rw (new, set_policy)

  changed :
      (k : TargetKind) (t : Text)
      → policy_of k t (change_policy u c name seen now s).0 ≡ (
          if same_key c.target_kind c.target k t then some c.management_policy else policy_of k t s)
  changed k t =
      change_lookup k t
      ∙ written_after_observe c.target_kind c.target name seen c.management_policy now s k t
    where
      change_lookup :
          (k : TargetKind) (t : Text)
          → policy_of k t (change_policy u c name seen now s).0
            ≡ policy_of k t (
                write_policy c.target_kind c.target c.management_policy now
                  (observe_rows c.target_kind c.target name seen s))
      change_lookup k t = unfold change_policy observe policy_of in refl

  answered :
      response (audit_row u c (observe c.target_kind c.target name seen s).1 now)
      ≡ (change_policy u c name seen now s).1
  unfolding change_policy
  answered = refl

  audited_as :
      (change_policy u c name seen now s).0.audit
      ≡ s.audit ++ (audit_row u c (observe c.target_kind c.target name seen s).1 now ∷ [])
  unfolding change_policy write_policy observe observe_rows
  audited_as = refl

  audited :
      (change_policy u c name seen now s).0.audit
      ≡ s.audit
        ++ (audit_row u c (or_default (policy_of c.target_kind c.target s) discovered) now ∷ [])
  audited =
      audited_as
      ∙ ap (λ m. s.audit ++ (audit_row u c m now ∷ []))
          (observed_policy c.target_kind c.target name seen s)

  recorded :
      fetch_operation u s ≡ none
      → fetch_operation u (change_policy u c name seen now s).0
        ≡ some (audit_row u c (observe c.target_kind c.target name seen s).1 now)
  unfolding fetch_operation
  recorded new = rw audited_as (
      find-append_none (has_operation_id u) s.audit
        (audit_row u c (observe c.target_kind c.target name seen s).1 now) new (ground arith))

-- A change under a new operation id gives the resource its new policy, changes no other resource,
-- and appends one row to the audit, with which it answers: the operation id, the resource, the actor,
-- the policy before (`discovered` for an unknown resource), the policy after, and the time.
pub set_policy_new :
    (u : Text) (c : Change) (name : Text) (seen now : ℕ) (s : Store) (k : TargetKind) (t : Text)
    → fetch_operation u s ≡ none
    → let (s', result) = set_policy u c name seen now s in
      let row : Audit = record {
        operation_id = u;
        target_kind = c.target_kind;
        target = c.target;
        actor = c.actor;
        previous_policy = or_default (policy_of c.target_kind c.target s) discovered;
        management_policy = c.management_policy;
        changed_at = now;
      } in
      (policy_of k t s' ≡ (
        if same_key c.target_kind c.target k t then some c.management_policy else policy_of k t s))
      × (s'.audit ≡ s.audit ++ (row ∷ []))
      × (result ≡ response row)
set_policy_new u c name seen now s k t new = rw (new_request u c name seen now s new) (
  changed u c name seen now s k t,
  audited u c name seen now s,
  sym (answered u c name seen now s)
      ∙ ap (λ m. response (audit_row u c m now))
          (observed_policy c.target_kind c.target name seen s),
)

-- A known operation id is answered from its audit row, or refused if it was used for another
-- change; in both cases nothing is written, and `replay_operation` gives the same answer.
pub set_policy_known :
    (u : Text) (c : Change) (name : Text) (seen now : ℕ) (s : Store) (a : Audit)
    → fetch_operation u s ≡ some a
    → (set_policy u c name seen now s ≡ (s, if matches a c then response a else operation_conflict))
      × (replay_operation u c s ≡ some (set_policy u c name seen now s).1)
unfolding set_policy replay_operation
set_policy_known u c name seen now s a known = rw (known, set_policy) (refl, refl)

change_matches :
    (u : Text) (c : Change) (m : ManagementPolicy) (now : ℕ)
    → matches (audit_row u c m now) c ≡ true
change_matches u c m now = go c.target_kind c.management_policy
  where
    go :
        (k : TargetKind) (p : ManagementPolicy)
        → (same_kind k k && (c.target == c.target && (same_policy p p && c.actor == c.actor)))
          ≡ true
    go compose_project discovered = ground arith
    go compose_project managed = ground arith
    go compose_project protected = ground arith
    go standalone_container discovered = ground arith
    go standalone_container managed = ground arith
    go standalone_container protected = ground arith

-- A change that is sent twice is made once: the second call answers as the first and writes
-- nothing, whatever names and times it comes with.
pub set_policy_twice :
    (u : Text) (c : Change) (name name' : Text) (seen now seen' now' : ℕ) (s : Store)
    → fetch_operation u s ≡ none
    → let (s', result) = set_policy u c name seen now s in
      set_policy u c name' seen' now' s' ≡ (s', result)
set_policy_twice u c name name' seen now seen' now' s new =
    rw (new_request u c name seen now s new) (
      (set_policy_known u c name' seen' now' (change_policy u c name seen now s).0
        (audit_row u c (observe c.target_kind c.target name seen s).1 now)
        (recorded u c name seen now s new)).0
      ∙ rw (change_matches u c (observe c.target_kind c.target name seen s).1 now)
          (ap (λ r. ((change_policy u c name seen now s).0, r)) (answered u c name seen now s)))
