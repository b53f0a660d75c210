-- ===== src/Agent/Policies/Laws.antt =====
-- What each operation of policy_repository.py does to the policy of every resource.
use mathlib.Core.Option
use node_conductor.Base.{
  ℕ, ◌≡◌, refl, ◌∙◌, inl, inr, Text, Bool, true, false, ◌&&◌, Option, some, List, [], ◌∷◌, arith,
  ◌==◌, if◌then◌else◌, or_default, Bool-cases, Option-cases, ==_iff,
}
use node_conductor.Table.{find_where, update_where}
use node_conductor.Table.Rows.{find-append_miss}
use node_conductor.Table.Count.{find-append_none}
use node_conductor.Agent.Schema.{
  TargetKind, compose_project, standalone_container, ManagementPolicy, discovered, protected,
  same_kind,
}
use node_conductor.Agent.Policies.{
  Policy, Store, of_resource, first_observation, observed_again, policy_of, observe_rows, observe,
  with_policy, write_policy, force_protected,
}

-- Whether two keys of the table are the same.
abbrev pub same_key : TargetKind → Text → TargetKind → Text → Bool
same_key k t k' t' = same_kind k k' && t == t'

pub same_kind_refl : (k : TargetKind) → same_kind k k ≡ true
same_kind_refl compose_project = refl
same_kind_refl standalone_container = refl

same_kind-sym : (k k' : TargetKind) → same_kind k k' ≡ same_kind k' k
same_kind-sym compose_project compose_project = refl
same_kind-sym compose_project standalone_container = refl
same_kind-sym standalone_container compose_project = refl
same_kind-sym standalone_container standalone_container = refl

pub same_kind→eq : (k k' : TargetKind) → same_kind k k' ≡ true → k ≡ k'
same_kind→eq compose_project compose_project h = refl
same_kind→eq compose_project standalone_container h = absurd cc
same_kind→eq standalone_container compose_project h = absurd cc
same_kind→eq standalone_container standalone_container h = refl

abbrev the_policy : Option Policy → Option ManagementPolicy
the_policy = Option.map (λ (p : Policy). p.management_policy)

observed_rows :
    (k : TargetKind) (t name : Text) (now : ℕ) (k' : TargetKind) (t' : Text) (rows : List Policy)
    → the_policy (
        find_where
          (of_resource k' t')
          (update_where (of_resource k t) (observed_again name now) rows))
      ≡ the_policy (find_where (of_resource k' t') rows)
unfolding find_where update_where
observed_rows k t name now k' t' [] = refl
observed_rows k t name now k' t' (x ∷ rows) = ground (arith, observed_rows k t name now k' t' rows)

written_rows :
    (k : TargetKind) (t : Text) (m : ManagementPolicy) (now : ℕ) (k' : TargetKind) (t' : Text)
    (rows : List Policy)
    → the_policy
        (find_where (of_resource k' t') (update_where (of_resource k t) (with_policy m now) rows))
      ≡ (if same_key k t k' t'
          then Option.map (λ (p : Policy). m) (find_where (of_resource k' t') rows)
          else the_policy (find_where (of_resource k' t') rows))
unfolding find_where update_where
written_rows k t m now k' t' [] = ground arith
written_rows k t m now k' t' (x ∷ rows) = ground (arith, written_rows k t m now k' t' rows)

own_row :
    (k : TargetKind) (t name : Text) (now : ℕ)
    → of_resource k t (first_observation k t name now) ≡ true
own_row k t name now = ground (arith, same_kind_refl k)

observe_self :
    (k : TargetKind) (t name : Text) (now : ℕ) (s : Store)
    → policy_of k t (observe_rows k t name now s) ≡ some (or_default (policy_of k t s) discovered)
unfolding policy_of observe_rows
observe_self k t name now s = elim (Option-cases (find_where (of_resource k t) s.policies)) [
  | inl new ↦
      rw (new, observe_rows)
        (rw (
          find-append_none (of_resource k t) s.policies (first_observation k t name now) new
            (own_row k t name now)))
  | inr (p, e) ↦ rw (e, observe_rows) (rw (observed_rows k t name now k t s.policies) (rw e))
]

observe_other :
    (k : TargetKind) (t name : Text) (now : ℕ) (s : Store) (k' : TargetKind) (t' : Text)
    → same_key k t k' t' ≡ false
    → policy_of k' t' (observe_rows k t name now s) ≡ policy_of k' t' s
unfolding policy_of observe_rows
observe_other k t name now s k' t' other =
    elim (Option-cases (find_where (of_resource k t) s.policies)) [
      | inl new ↦
          rw (new, observe_rows)
            (rw (
              find-append_miss (of_resource k' t') s.policies (first_observation k t name now)
                other))
      | inr (p, e) ↦ rw (e, observe_rows) (observed_rows k t name now k' t' s.policies)
    ]

-- An observation records a new resource as `discovered`, and changes no policy of any resource.
pub policy_of-observe :
    (k : TargetKind) (t name : Text) (now : ℕ) (s : Store) (k' : TargetKind) (t' : Text)
    → policy_of k' t' (observe k t name now s).0 ≡ (
        if same_key k t k' t'
        then some (or_default (policy_of k' t' s) discovered)
        else policy_of k' t' s)
unfolding observe
policy_of-observe k t name now s k' t' = elim (Bool-cases (same_key k t k' t')) [
  | inl same ↦ rw same (
      rw (same_kind→eq k k' (ground arith), (==_iff t t').0 (ground arith))
        (observe_self k' t' name now s))
  | inr other ↦ rw other (observe_other k t name now s k' t' other)
]

policy_of-write :
    (k : TargetKind) (t : Text) (m : ManagementPolicy) (now : ℕ) (s : Store) (k' : TargetKind)
    (t' : Text)
    → policy_of k' t' (write_policy k t m now s) ≡ (
        if same_key k t k' t'
        then Option.map (λ (_ : ManagementPolicy). m) (policy_of k' t' s)
        else policy_of k' t' s)
unfolding policy_of write_policy
policy_of-write k t m now s k' t' =
    written_rows k t m now k' t' s.policies
    ∙ elim (Option-cases (find_where (of_resource k' t') s.policies)) [
      | inl gone ↦ rw gone
      | inr (p, e) ↦ rw e
    ]

-- An observation and then a write of the policy.
pub written_after_observe :
    (k : TargetKind) (t name : Text) (seen : ℕ) (m : ManagementPolicy) (now : ℕ) (s : Store)
    (k' : TargetKind) (t' : Text)
    → policy_of k' t' (write_policy k t m now (observe_rows k t name seen s))
      ≡ (if same_key k t k' t' then some m else policy_of k' t' s)
written_after_observe k t name seen m now s k' t' = elim (Bool-cases (same_key k t k' t')) [
  | inl same ↦ rw same (
      rw (same_kind→eq k k' (ground arith), (==_iff t t').0 (ground arith))
        (ground (
          arith,
          policy_of-write k' t' m now (observe_rows k' t' name seen s) k' t',
          observe_self k' t' name seen s,
          same_kind_refl k',
        )))
  | inr other ↦ ground (
    arith,
    policy_of-write k t m now (observe_rows k t name seen s) k' t',
    observe_other k t name seen s k' t' other,
  )
]

-- After `force_protected` the resource is protected, and no other resource's policy has changed.
pub policy_of-force :
    (k : TargetKind) (t name : Text) (now : ℕ) (s : Store) (k' : TargetKind) (t' : Text)
    → policy_of k' t' (force_protected k t name now s)
      ≡ (if same_key k t k' t' then some protected else policy_of k' t' s)
unfolding force_protected
policy_of-force k t name now s k' t' = written_after_observe k t name now protected now s k' t'

pub observed_policy :
    (k : TargetKind) (t name : Text) (now : ℕ) (s : Store)
    → (observe k t name now s).1 ≡ or_default (policy_of k t s) discovered
unfolding observe
observed_policy k t name now s = rw (observe_self k t name now s)
