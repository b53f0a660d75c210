-- ===== src/Agent/Actions/Once.antt =====
-- The journal through an execution, and through a second one with the same id (`_execute_leader`
-- of action_service.py).
use node_conductor.Base.{
  ℕ, Text, ◌≡◌, refl, ◌∙◌, inl, inr, true, false, Option, none, some, [], ◌∷◌, ◌++◌, not, arith,
  if◌then◌else◌, Bool-cases, Option-cases,
}
use node_conductor.Table.{find_where}
use node_conductor.Table.Count.{find-append_none}
use node_conductor.Table.Rows.{find-update, find_passes}
use node_conductor.Agent.Journal.{
  Operation, Journal, Fingerprint, Begin, started, replay, busy, already_open, id_conflict,
  is_in_progress, has_operation_id, open_operation, active_on, matches, fetch, begin, new_operation,
  busy_operation, mark_dispatched,
}
use node_conductor.Agent.Journal.Valid.{
  IsValid, begin-IsValid, mark_dispatched-IsValid, finish-IsValid,
}
use node_conductor.Agent.Journal.Replay.{finish_then_replay, new_operation-matches}
use node_conductor.Agent.Actions.{Call}
use node_conductor.Agent.Actions.Leader.{
  World, Verdict, verdict, Answer, response, conflict, unavailable, mark_if_sent, close, lead,
  execute_leader,
}
use node_conductor.Agent.Actions.Outcome.{verdict-ends}

close-IsValid :
    (u : Text) (v : Verdict) (now : ℕ) (j : Journal)
    → is_in_progress v.status ≡ false
    → IsValid j
    → IsValid (close u v now j).0
unfolding close
close-IsValid u v now j ended h =
    finish-IsValid u v.status v.code v.resource now _ ended (marked v.call)
  where
    marked : (c : Option Call) → IsValid (mark_if_sent c u j)
    marked none = h
    marked (some c) = mark_dispatched-IsValid u j h

lead-IsValid :
    (u : Text) (f : Fingerprint) (w : World) (j : Journal) (b : Begin)
    → IsValid j
    → IsValid (lead u f w j b).0
unfolding lead
lead-IsValid u f w j started h =
    close-IsValid u (verdict w f.target_kind f.target f.action) w.finished_at j
      (verdict-ends w f.target_kind f.target f.action) h
lead-IsValid u f w j (replay o) h = h
lead-IsValid u f w j (busy o) h = h
lead-IsValid u f w j already_open h = h
lead-IsValid u f w j id_conflict h = h

-- An execution keeps the journal valid, whatever the world answers.
pub execute_leader-IsValid :
    (u : Text) (f : Fingerprint) (w : World) (j : Journal)
    → IsValid j
    → IsValid (execute_leader u f w j).0
unfolding execute_leader
execute_leader-IsValid u f w j h =
    lead-IsValid u f w (begin u f w.started_at j).0 (begin u f w.started_at j).1
      (begin-IsValid u f w.started_at j h)

-- A second execution that is answered from a row changes nothing and sends nothing.
answered :
    (u : Text) (f : Fingerprint) (w : World) (j : Journal) (o : Operation)
    → begin u f w.started_at j ≡ (j, replay o)
    → execute_leader u f w j ≡ (j, response o, none)
unfolding execute_leader lead
answered u f w j o e = rw (e, execute_leader) refl

-- The open row of an operation, after its call was marked.
marked_row :
    (c : Option Call) (u : Text) (f : Fingerprint) (j : Journal) (o : Operation)
    → fetch u j ≡ some o
    → is_in_progress o.status ≡ true
    → matches o f ≡ true
    → (o' : Operation) × (fetch u (mark_if_sent c u j) ≡ some o')
      × (is_in_progress o'.status ≡ true)
      × (matches o' f ≡ true)
unfolding fetch mark_dispatched
marked_row none u f j o found opened same = (o, found, opened, same)
marked_row (some c) u f j o found opened same = (
  record o { dispatched = true },
  find-update (has_operation_id u) (open_operation u)
        (λ (x : Operation). record x { dispatched = true }) j o (λ x. refl) found
      ∙ rw (opened, find_passes (has_operation_id u) j o found) refl,
  opened,
  same,
)

-- What is finished is what a second execution gets.
close_then_replay :
    (u : Text) (f : Fingerprint) (v : Verdict) (now : ℕ) (w : World) (j : Journal) (o : Operation)
    → fetch u j ≡ some o
    → is_in_progress o.status ≡ true
    → matches o f ≡ true
    → is_in_progress v.status ≡ false
    → execute_leader u f w (close u v now j).0 ≡ ((close u v now j).0, (close u v now j).1, none)
unfolding close
close_then_replay u f v now w j o found opened same ended =
    let (o', found', opened', same') = marked_row v.call u f j o found opened same in
    let (row, again) =
      finish_then_replay u f v.status v.code v.resource now w.started_at (mark_if_sent v.call u j)
        o' found' opened' same' ended in
    answered u f w _ _ again ∙ rw row refl

-- The answer that a row gives.
abbrev row_answer : Operation → Fingerprint → Answer
row_answer o f =
    if not (matches o f)
    then conflict
    else if is_in_progress o.status
    then unavailable
    else response o

answered_by_row :
    (u : Text) (f : Fingerprint) (w : World) (j : Journal) (o : Operation)
    → fetch u j ≡ some o
    → execute_leader u f w j ≡ (j, row_answer o f, none)
unfolding execute_leader lead begin
answered_by_row u f w j o found = elim (Bool-cases (matches o f)) [
  | inr other ↦ rw (found, execute_leader, begin) (rw other refl)
  | inl same ↦ elim (Bool-cases (is_in_progress o.status)) [
    | inl opened ↦ rw (found, execute_leader, begin) (rw (same, opened) refl)
    | inr ended ↦ rw (found, execute_leader, begin) (rw (same, ended) refl)
  ]
]

begin_busy :
    (u : Text) (f : Fingerprint) (w : World) (j : Journal) (o : Operation)
    → fetch u j ≡ none
    → find_where (active_on f.target_kind f.target) j ≡ some o
    → execute_leader u f w j ≡ (
      j ++ (busy_operation u f w.started_at ∷ []),
      response (busy_operation u f w.started_at),
      none,
    )
unfolding execute_leader lead begin
begin_busy u f w j o unused taken = rw (unused, execute_leader, begin) (rw taken refl)

begin_fresh :
    (u : Text) (f : Fingerprint) (w : World) (j : Journal)
    → fetch u j ≡ none
    → find_where (active_on f.target_kind f.target) j ≡ none
    → execute_leader u f w j ≡ lead u f w (j ++ (new_operation u f w.started_at ∷ [])) started
unfolding execute_leader begin
begin_fresh u f w j unused idle = rw (unused, execute_leader, begin) (rw idle refl)

new_row :
    (u : Text) (f : Fingerprint) (o : Operation) (j : Journal)
    → fetch u j ≡ none
    → o.operation_id ≡ u
    → fetch u (j ++ (o ∷ [])) ≡ some o
unfolding fetch
new_row u f o j unused e = find-append_none (has_operation_id u) j o unused (ground arith)

-- An operation id is carried out at most once: whatever the journal held and whatever the engine
-- does, a second execution of the same request gets the first one's answer, leaves the journal as
-- the first one left it, and sends no call.
pub execute_twice :
    (u : Text) (f : Fingerprint) (w w2 : World) (j : Journal)
    → let (j', answer, call) = execute_leader u f w j in
      execute_leader u f w2 j' ≡ (j', answer, none)
unfolding lead
execute_twice u f w w2 j = elim (Option-cases (fetch u j)) [
  | inr (o, found) ↦ rw (answered_by_row u f w j o found) (answered_by_row u f w2 j o found)
  | inl unused ↦ elim (Option-cases (find_where (active_on f.target_kind f.target) j)) [
    | inr (o, taken) ↦ rw (begin_busy u f w j o unused taken) (
        answered_by_row u f w2 _ _ (new_row u f (busy_operation u f w.started_at) j unused refl)
        ∙ rw (new_operation-matches f (busy_operation u f w.started_at) refl refl refl refl) refl)
    | inl idle ↦ rw (begin_fresh u f w j unused idle) (
        close_then_replay u f (verdict w f.target_kind f.target f.action) w.finished_at w2
          (j ++ (new_operation u f w.started_at ∷ [])) (new_operation u f w.started_at)
          (new_row u f (new_operation u f w.started_at) j unused refl) refl
          (new_operation-matches f (new_operation u f w.started_at) refl refl refl refl)
          (verdict-ends w f.target_kind f.target f.action))
  ]
]
