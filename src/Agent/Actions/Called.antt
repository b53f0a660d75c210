-- ===== src/Agent/Actions/Called.antt =====
-- The calls that are sent over all interleavings of executions (action_service.py and
-- action_repository.py).
use node_conductor.Base.{
  ℕ, ◌≤◌, ◌≡◌, refl, Text, true, false, some, List, [], ◌∷◌, ◌++◌, ◌==◌, arith, Bool-cases,
  Option-cases, inl, inr, ◌⊎◌,
}
use node_conductor.Table.{count_where, find_where}
use node_conductor.Table.Count.{
  count-append, count-update_le, count-update_eq, count-update_zero, count-update_same,
}
use node_conductor.Agent.Schema.{TargetKind}
use node_conductor.Agent.Journal.{
  Journal, Operation, Fingerprint, started, busy, begin, begin_existing, new_operation,
  busy_operation, fetch, active_on, has_operation_id, open_operation, is_in_progress,
  mark_dispatched, finish, finish_row, recover, recover_row,
}
use node_conductor.Agent.Journal.Valid.{
  begin-IsValid, mark_dispatched-IsValid, finish-IsValid, recover-IsValid,
}
use node_conductor.Agent.Actions.{Call}
use node_conductor.Agent.Actions.Leader.{World, Verdict}
use node_conductor.Agent.Actions.Outcome.{verdict-ends}
use node_conductor.Agent.Actions.System.{
  sent, over, Leading, Agent, waiting_leader, live_leader, call_of, verdict_of, new_leader,
  leaders_after, set_phase, requested, dispatched_to, ended_by, restarted, Move, request, send,
  close, restart, Runs, here, next, IsCoherent,
}

-- The ways `begin` can go.
pub begin-cases :
    (u : Text) (f : Fingerprint) (now : ℕ) (j : Journal)
    → ((o : Operation) × (begin u f now j ≡ (j, begin_existing o f)))
      ⊎ (begin u f now j ≡ (j ++ (busy_operation u f now ∷ []), busy (busy_operation u f now)))
      ⊎ (begin u f now j ≡ (j ++ (new_operation u f now ∷ []), started))
unfolding begin
begin-cases u f now j = elim (Option-cases (fetch u j)) [
  | inr (o, known) ↦ inl (o, rw (known, begin) refl)
  | inl unused ↦ elim (Option-cases (find_where (active_on f.target_kind f.target) j)) [
    | inr (o, taken) ↦ inr (inl (rw (unused, begin) (rw taken refl)))
    | inl idle ↦ inr (inr (rw (unused, begin) (rw idle refl)))
  ]
]

existing_leaders :
    (u : Text) (f : Fingerprint) (w : World) (o : Operation) (ls : List Leading)
    → leaders_after u f w (begin_existing o f) ls ≡ ls
existing_leaders u f w o ls = ground arith

requested-IsCoherent :
    (u : Text) (f : Fingerprint) (w : World) (now : ℕ) (a : Agent)
    → IsCoherent a
    → IsCoherent (requested u f w now a)
requested-IsCoherent u f w now a h = elim (begin-cases u f now a.journal) [
  | inl (o, e) ↦ record {
    valid = begin-IsValid u f now a.journal h.valid;
    live_open = λ v. rw (e, existing_leaders u f w o a.leaders) (h.live_open v);
    calls_known = λ v. rw (e, existing_leaders u f w o a.leaders) (h.calls_known v);
  }
  | inr (inl e) ↦ record {
    valid = begin-IsValid u f now a.journal h.valid;
    live_open = λ v. rw e (
        ground (
          arith,
          h.live_open v,
          count-append (open_operation v) a.journal (busy_operation u f now),
        ));
    calls_known = λ v. rw e (
        ground (
          arith,
          h.calls_known v,
          count-append (has_operation_id v) a.journal (busy_operation u f now),
        ));
  }
  | inr (inr e) ↦ record {
    valid = begin-IsValid u f now a.journal h.valid;
    live_open = λ v. rw e (
        ground (
          arith,
          h.live_open v,
          count-append (open_operation v) a.journal (new_operation u f now),
          count-append (live_leader v) a.leaders (new_leader u f w),
        ));
    calls_known = λ v. rw e (
        ground (
          arith,
          h.calls_known v,
          count-append (has_operation_id v) a.journal (new_operation u f now),
          count-append (waiting_leader v) a.leaders (new_leader u f w),
        ));
  }
]

count_positive :
    (u : Text) (l : Leading) (ls : List Leading)
    → find_where (waiting_leader u) ls ≡ some l
    → 1 ≤ count_where (waiting_leader u) ls
unfolding count_where find_where
count_positive u l [] e = absurd cc
count_positive u l (x ∷ ls) e = ground (arith, count_positive u l ls)

module _ (u : Text) (a : Agent) (h : IsCoherent a) where
  dispatched-IsCoherent :
      (l : Leading) (c : Call)
      → find_where (waiting_leader u) a.leaders ≡ some l
      → IsCoherent (dispatched_to u c a)
  unfolding mark_dispatched
  dispatched-IsCoherent l c found = record {
    valid = mark_dispatched-IsValid u a.journal h.valid;
    live_open = λ v. omega (
      arith,
      h.live_open v,
      count-update_le (live_leader v) (waiting_leader u) (set_phase sent) a.leaders
          (λ x p q. ground arith),
      count-update_eq (open_operation v) (open_operation u)
          (λ (o : Operation). record o { dispatched = true }) a.journal (λ x. refl),
    );
    calls_known = λ v. ground (
      arith,
      h.calls_known v,
      count_positive u l a.leaders found,
      count-append (call_of v) a.calls (u, c),
      count-update_le (waiting_leader v) (waiting_leader u) (set_phase sent) a.leaders
          (λ x p q. ground arith),
      count-update_zero (waiting_leader u) (waiting_leader u) (set_phase sent) a.leaders
          (λ x p. ground arith) (λ x p. p),
      count-update_eq (has_operation_id v) (open_operation u)
          (λ (o : Operation). record o { dispatched = true }) a.journal (λ x. refl),
    );
  }

  ended-IsCoherent :
      (v : Verdict) (now : ℕ) → is_in_progress v.status ≡ false → IsCoherent (ended_by u v now a)
  unfolding finish
  ended-IsCoherent v now ended = record {
    valid = finish-IsValid u v.status v.code v.resource now a.journal ended h.valid;
    live_open = λ w. elim (Bool-cases (w == u)) [
      | inl same ↦ omega (
        arith,
        count-update_zero (live_leader w) (live_leader u) (set_phase over) a.leaders
            (λ x p. ground arith) (λ x p. ground arith),
      )
      | inr other ↦ omega (
        arith,
        h.live_open w,
        count-update_le (live_leader w) (live_leader u) (set_phase over) a.leaders
            (λ x p q. ground arith),
        count-update_same (open_operation w) (open_operation u)
            (finish_row v.status v.code v.resource now) a.journal (λ x p. ground arith),
      )
    ];
    calls_known = λ w. omega (
      arith,
      h.calls_known w,
      count-update_le (waiting_leader w) (live_leader u) (set_phase over) a.leaders
          (λ x p q. ground arith),
      count-update_eq (has_operation_id w) (open_operation u)
          (finish_row v.status v.code v.resource now) a.journal (λ x. refl),
    );
  }

  restarted-IsCoherent : (now : ℕ) → IsCoherent (restarted now a)
  unfolding recover
  restarted-IsCoherent now = record {
    valid = recover-IsValid now a.journal h.valid;
    live_open = λ v. omega (
      arith,
      count-update_zero (live_leader v) (λ (l : Leading). true) (set_phase over) a.leaders
          (λ x p. ground arith) (λ x p. absurd cc),
    );
    calls_known = λ v. omega (
      arith,
      h.calls_known v,
      count-update_le (waiting_leader v) (λ (l : Leading). true) (set_phase over) a.leaders
          (λ x p q. ground arith),
      count-update_eq (has_operation_id v) (λ (o : Operation). is_in_progress o.status)
          (recover_row now) a.journal (λ x. refl),
    );
  }

Move-IsCoherent : {a b : Agent} → Move a b → IsCoherent a → IsCoherent b
Move-IsCoherent (request a u f w now) h = requested-IsCoherent u f w now a h
Move-IsCoherent (send a u l c found called) h = dispatched-IsCoherent u a h l c found
Move-IsCoherent (close a u l now found done) h =
    ended-IsCoherent u a h (verdict_of l) now
      (verdict-ends l.world l.fingerprint.target_kind l.fingerprint.target l.fingerprint.action)
Move-IsCoherent (restart a now) h = restarted-IsCoherent 0 a h now

Runs-IsCoherent : {a b : Agent} → Runs a b → IsCoherent a → IsCoherent b
Runs-IsCoherent here h = h
Runs-IsCoherent (next r m) h = Move-IsCoherent m (Runs-IsCoherent r h)

-- However the executions of any number of requests interleave, and however often the Agent
-- restarts in between, from a coherent start no operation id sends more than one call, and no
-- resource has more than one open operation.
pub called_once :
    {a b : Agent} (u : Text) (k : TargetKind) (t : Text)
    → Runs a b
    → IsCoherent a
    → (count_where (call_of u) b.calls ≤ 1) × (count_where (active_on k t) b.journal ≤ 1)
called_once u k t r h =
    let c = Runs-IsCoherent r h in
    (omega (arith, c.calls_known u, c.valid.ids_unique u), c.valid.one_open_per_resource k t)
