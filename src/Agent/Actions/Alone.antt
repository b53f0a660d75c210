-- ===== src/Agent/Actions/Alone.antt =====
-- The moves of one request, and its execution in one piece (`_execute_leader` of
-- action_service.py).
use node_conductor.Base.{
  ◌≡◌, refl, sym, ap, ◌∙◌, ◌⊎◌, Text, true, Option, none, some, List, [], ◌∷◌, ◌++◌, arith,
  Bool-cases, Option-cases, inl, inr,
}
use node_conductor.Table.{count_where, find_where, update_where}
use node_conductor.Table.Count.{find-none_of_count, find-append_none, count_mono}
use node_conductor.Agent.Journal.{
  Journal, Operation, Fingerprint, matches, is_in_progress, started, begin, begin_existing, finish,
}
use node_conductor.Agent.Actions.{Call}
use node_conductor.Agent.Actions.Leader.{
  World, Verdict, verdict, execute_leader, lead, mark_if_sent,
}
use node_conductor.Agent.Actions.Leader as Leader
use node_conductor.Agent.Actions.System.{
  sent, Leading, Agent, waiting_leader, live_leader, verdict_of, new_leader, set_phase, requested,
  dispatched_to, ended_by, request, send, close, Runs, here, next,
}
use node_conductor.Agent.Actions.Called.{begin-cases}

-- The calls sent, with one more for the id if there is one.
abbrev pub with_call : Text → Option Call → List (Text × Call) → List (Text × Call)
with_call u none cs = cs
with_call u (some c) cs = cs ++ ((u, c) ∷ [])

existing-lead :
    (u : Text) (f : Fingerprint) (w : World) (j : Journal) (o : Operation)
    → ((lead u f w j (begin_existing o f)).0 ≡ j) × ((lead u f w j (begin_existing o f)).2 ≡ none)
unfolding lead
existing-lead u f w j o = elim (Bool-cases (matches o f)) [
  | inr other ↦ rw other (refl, refl)
  | inl same ↦ elim (Bool-cases (is_in_progress o.status)) [
    | inl opened ↦ rw (same, opened) (refl, refl)
    | inr ended ↦ rw (same, ended) (refl, refl)
  ]
]

live_waits : (u : Text) (l : Leading) → waiting_leader u l ≡ true → live_leader u l ≡ true
live_waits u l h = ground arith

sent_found :
    (u : Text) (f : Fingerprint) (w : World) (ls : List Leading)
    → find_where (live_leader u) ls ≡ none
    → find_where
        (live_leader u)
        (update_where (waiting_leader u) (set_phase sent) (ls ++ (new_leader u f w ∷ [])))
      ≡ some (set_phase sent (new_leader u f w))
unfolding find_where update_where
sent_found u f w [] h = ground arith
sent_found u f w (l ∷ ls) h = ground (arith, live_waits u l, sent_found u f w ls)

-- Where a request comes to by its own moves: its begin, then its end, or its call and its end.
abbrev pub IsEpisode : Text → Fingerprint → World → Agent → Agent → Type 0
IsEpisode u f w a b =
    let asked = requested u f w w.started_at a in
    let v = verdict_of (new_leader u f w) in
    (b ≡ asked)
    ⊎ (b ≡ ended_by u v w.finished_at asked)
    ⊎ ((c : Call) × (b ≡ ended_by u v w.finished_at (dispatched_to u c asked)))

module _ (u : Text) (f : Fingerprint) (w : World) (a : Agent)
    (alone : count_where (live_leader u) a.leaders ≡ 0) where
  abbrev asked : Agent
  asked = requested u f w w.started_at a

  new_live :
      find_where (live_leader u) (a.leaders ++ (new_leader u f w ∷ [])) ≡ some (new_leader u f w)
  new_live =
      find-append_none (live_leader u) a.leaders (new_leader u f w)
        (find-none_of_count (live_leader u) a.leaders alone) (ground arith)

  new_waiting :
      find_where (waiting_leader u) (a.leaders ++ (new_leader u f w ∷ [])) ≡ some (new_leader u f w)
  new_waiting =
      find-append_none (waiting_leader u) a.leaders (new_leader u f w)
        (find-none_of_count (waiting_leader u) a.leaders (
          omega (
            arith,
            alone,
            count_mono (waiting_leader u) (live_leader u) a.leaders (λ x p. ground arith),
          )))
        (ground arith)

  -- What a leader that began writes in the end.
  begun-journal :
      (j : Journal)
      → begin u f w.started_at a.journal ≡ (j, started)
      → (execute_leader u f w a.journal).0
        ≡ (finish u
            (verdict_of (new_leader u f w)).status
            (verdict_of (new_leader u f w)).code
            (verdict_of (new_leader u f w)).resource
            w.finished_at
            (mark_if_sent (verdict_of (new_leader u f w)).call u j)).0
  unfolding execute_leader lead Leader.close
  begun-journal j e = rw (e, execute_leader) refl

  begun-call :
      (j : Journal)
      → begin u f w.started_at a.journal ≡ (j, started)
      → (execute_leader u f w a.journal).2 ≡ (verdict_of (new_leader u f w)).call
  unfolding execute_leader lead Leader.close
  begun-call j e = rw (e, execute_leader) refl

  record Matched : Type 0 where
    agent : Agent
    runs : Runs a agent
    episode : IsEpisode u f w a agent
    journal : agent.journal ≡ (execute_leader u f w a.journal).0
    calls : agent.calls ≡ with_call u (execute_leader u f w a.journal).2 a.calls

  silent :
      (j : Journal)
      → begin u f w.started_at a.journal ≡ (j, started)
      → (verdict_of (new_leader u f w)).call ≡ none
      → Matched
  silent j e no_call = record {
    agent = ended_by u (verdict_of (new_leader u f w)) w.finished_at asked;
    runs =
        next (next here (request a u f w w.started_at))
          (close asked u (new_leader u f w) w.finished_at (rw e new_live) (rw no_call refl));
    episode = inr (inl refl);
    journal = rw e (sym (begun-journal j e ∙ rw no_call refl));
    calls = sym (ap (λ o. with_call u o a.calls) (begun-call j e ∙ no_call));
  }

  calling :
      (j : Journal) (c : Call)
      → begin u f w.started_at a.journal ≡ (j, started)
      → (verdict_of (new_leader u f w)).call ≡ some c
      → Matched
  unfolding update_where
  calling j c e called = record {
    agent = ended_by u (verdict_of (new_leader u f w)) w.finished_at (dispatched_to u c asked);
    runs =
        next
          (next (next here (request a u f w w.started_at))
            (send asked u (new_leader u f w) c (rw e new_waiting) called))
          (close (dispatched_to u c asked) u (set_phase sent (new_leader u f w)) w.finished_at
            (rw e sent_live) (rw called refl));
    episode = inr (inr (c, refl));
    journal = rw e (sym (begun-journal j e ∙ rw called refl));
    calls = sym (ap (λ o. with_call u o a.calls) (begun-call j e ∙ called));
  }
    where
      sent_live :
          find_where (live_leader u) (
            update_where (waiting_leader u) (set_phase sent) (a.leaders ++ (new_leader u f w ∷ [])))
          ≡ some (set_phase sent (new_leader u f w))
      sent_live = sent_found u f w a.leaders (find-none_of_count (live_leader u) a.leaders alone)

  matched : Matched
  unfolding execute_leader lead
  matched = elim (begin-cases u f w.started_at a.journal) [
    | inl (o, e) ↦ record {
      agent = asked;
      runs = next here (request a u f w w.started_at);
      episode = inl refl;
      journal = rw (e, execute_leader) (sym (existing-lead u f w a.journal o).0);
      calls =
          rw (e, execute_leader)
            (sym (ap (λ c. with_call u c a.calls) (existing-lead u f w a.journal o).1));
    }
    | inr (inl e) ↦ record {
      agent = asked;
      runs = next here (request a u f w w.started_at);
      episode = inl refl;
      journal = rw (e, execute_leader) refl;
      calls = rw (e, execute_leader) refl;
    }
    | inr (inr e) ↦ elim (Option-cases (verdict_of (new_leader u f w)).call) [
      | inl no_call ↦ silent _ e no_call
      | inr (c, called) ↦ calling _ c e called
    ]
  ]

  -- For a request whose id no other leader has: its own moves, that is its begin, the dispatch of
  -- its call if it has one, and its end, taken one after the other from the same agent, write the
  -- same journal as its execution in one piece and send out the same call, or none.
  pub execute_leader-Runs :
      (b : Agent) × Runs a b
      × IsEpisode u f w a b
      × (b.journal ≡ (execute_leader u f w a.journal).0)
      × (b.calls ≡ with_call u (execute_leader u f w a.journal).2 a.calls)
  execute_leader-Runs = let m = matched in (m.agent, m.runs, m.episode, m.journal, m.calls)
