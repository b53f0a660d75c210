-- ===== src/Agent/Journal/Valid.antt =====
-- The invariant of the journal of action_repository.py.
use node_conductor.Base.{
  ℕ, ◌≤◌, ◌≡◌, refl, inl, inr, Text, Bool, true, false, not, Option, none, some, [], ◌∷◌, ◌++◌,
  arith, All, All-append, is_some, Option-cases,
}
use node_conductor.Table.{count_where, find_where, update_where}
use node_conductor.Table.Count.{count-append, count-update_le, count-zero_of_find}
use node_conductor.Table.Rows.{All-update}
use node_conductor.Agent.Schema.{TargetKind, compose_project, standalone_container, same_kind}
use node_conductor.Agent.Journal.{
  Status, ResultCode, ObservedResource, Operation, Journal, Fingerprint, is_in_progress,
  has_operation_id, open_operation, active_on, recover, recover_row, fetch, begin, begin_new,
  new_operation, busy_operation, mark_dispatched, finish, finish_row,
}

abbrev pub HasOutcome : Operation → Type 0
HasOutcome o =
    (is_in_progress o.status ≡ not (is_some o.result_code))
    × (is_some o.finished_at ≡ is_some o.result_code)

pub record IsValid (j : Journal) : Type 0 where
  pub ids_unique : (u : Text) → count_where (has_operation_id u) j ≤ 1
  pub one_open_per_resource : (k : TargetKind) (t : Text) → count_where (active_on k t) j ≤ 1
  pub outcomes : All HasOutcome j

module _ (p : Operation → Bool) (f : Operation → Operation) (j : Journal) where
  -- An update that keeps the identities, opens nothing and keeps the outcomes in step.
  update-IsValid :
      ((o : Operation) → (f o).operation_id ≡ o.operation_id)
      → ((o : Operation) → (f o).target_kind ≡ o.target_kind)
      → ((o : Operation) → (f o).target ≡ o.target)
      → ((o : Operation)
          → p o ≡ true
          → is_in_progress (f o).status ≡ true
          → is_in_progress o.status ≡ true)
      → ((o : Operation) → p o ≡ true → HasOutcome o → HasOutcome (f o))
      → IsValid j
      → IsValid (update_where p f j)
  update-IsValid same_id same_kind' same_target closed outcome v = record {
    ids_unique = λ u. omega (
      arith,
      v.ids_unique u,
      count-update_le (has_operation_id u) p f j (λ o _ h. ground (arith, same_id o)),
    );
    one_open_per_resource = λ k t. omega (
      arith,
      v.one_open_per_resource k t,
      count-update_le (active_on k t) p f j
          (λ o e h. ground (arith, same_kind' o, same_target o, closed o e)),
    );
    outcomes = All-update HasOutcome p f j outcome v.outcomes;
  }

-- A restart keeps the invariant.
pub recover-IsValid : (now : ℕ) (j : Journal) → IsValid j → IsValid (recover now j)
unfolding recover
recover-IsValid now j v =
    update-IsValid (λ o. is_in_progress o.status) (recover_row now) j (λ o. refl) (λ o. refl)
      (λ o. refl) (λ o p a. cc) (λ o p h. (refl, refl)) v

pub mark_dispatched-IsValid : (u : Text) (j : Journal) → IsValid j → IsValid (mark_dispatched u j)
unfolding mark_dispatched
mark_dispatched-IsValid u j v =
    update-IsValid (open_operation u) (λ o. record o { dispatched = true }) j (λ o. refl)
      (λ o. refl) (λ o. refl) (λ o p a. a) (λ o p h. h) v

pub finish-IsValid :
    (u : Text) (status : Status) (code : ResultCode) (r : Option ObservedResource) (now : ℕ)
    (j : Journal)
    → is_in_progress status ≡ false
    → IsValid j
    → IsValid (finish u status code r now j).0
unfolding finish
finish-IsValid u status code r now j ended v =
    update-IsValid (open_operation u) (finish_row status code r now) j (λ o. refl) (λ o. refl)
      (λ o. refl) (λ o p a. ground arith) (λ o p h. (ended, refl)) v

free_resource :
    (k k' : TargetKind) (t t' : Text) (j : Journal)
    → same_kind k' k ≡ true
    → t' ≡ t
    → find_where (active_on k' t') j ≡ none
    → count_where (active_on k t) j ≡ 0
free_resource compose_project compose_project t t' j same e h =
    rw (← e) (count-zero_of_find (active_on compose_project t') j h)
free_resource standalone_container standalone_container t t' j same e h =
    rw (← e) (count-zero_of_find (active_on standalone_container t') j h)
free_resource compose_project standalone_container t t' j same e h = absurd cc
free_resource standalone_container compose_project t t' j same e h = absurd cc

module _ (u : Text) (f : Fingerprint) (now : ℕ) (j : Journal) (v : IsValid j)
    (unknown : fetch u j ≡ none) where
  append-IsValid :
      (o : Operation)
      → o.operation_id ≡ u
      → HasOutcome o
      → ((k : TargetKind) (t : Text) → active_on k t o ≡ true → count_where (active_on k t) j ≡ 0)
      → IsValid (j ++ (o ∷ []))
  unfolding fetch
  append-IsValid o named outcome free = record {
    ids_unique = λ w. ground (
      arith,
      count-append (has_operation_id w) j o,
      v.ids_unique w,
      count-zero_of_find (has_operation_id w) j,
    );
    one_open_per_resource = λ k t.
        ground (arith, count-append (active_on k t) j o, v.one_open_per_resource k t, free k t);
    outcomes = All-append HasOutcome j (o ∷ []) v.outcomes (outcome, tt);
  }

  begin_new-IsValid :
      (active : Option Operation)
      → find_where (active_on f.target_kind f.target) j ≡ active
      → IsValid (begin_new u f now j active).0
  begin_new-IsValid (some o) e =
      append-IsValid (busy_operation u f now) refl (refl, refl) (λ k t h. absurd (ground arith))
  begin_new-IsValid none e =
      append-IsValid (new_operation u f now) refl (refl, refl)
        (λ k t h. free_resource k f.target_kind t f.target j (ground arith) (ground arith) e)

  begin_unknown-IsValid : IsValid (begin u f now j).0
  unfolding begin
  begin_unknown-IsValid =
      rw (unknown, begin) (begin_new-IsValid (find_where (active_on f.target_kind f.target) j) refl)

-- A request keeps the invariant, whichever way it begins.
pub begin-IsValid :
    (u : Text) (f : Fingerprint) (now : ℕ) (j : Journal) → IsValid j → IsValid (begin u f now j).0
unfolding begin
begin-IsValid u f now j v = elim (Option-cases (fetch u j)) [
  | inl unknown ↦ begin_unknown-IsValid u f now j v unknown
  | inr (o, e) ↦ rw (e, begin) v
]
