-- ===== src/Agent/Actions/System.antt =====
-- The executions of an Agent, interleaved: any number of leaders between their `begin` and their
-- `finish`, and restarts of the Agent. A follower only reads the journal, so it takes no step; a
-- request may begin at any time, also while another one with its id is being carried out.
use node_conductor.Base.{
  ℕ, ◌+◌, ◌≤◌, ◌≡◌, Text, Bool, true, false, ◌&&◌, not, some, List, [], ◌∷◌, ◌++◌, ◌==◌, is_some,
}
use node_conductor.Table.{count_where, find_where, update_where}
use node_conductor.Agent.Journal.{
  Journal, Fingerprint, Begin, started, begin, has_operation_id, open_operation, mark_dispatched,
  finish, recover,
}
use node_conductor.Agent.Journal.Valid.{IsValid}
use node_conductor.Agent.Actions.{Call}
use node_conductor.Agent.Actions.Leader.{World, Verdict, verdict}

-- Where a leader is: before the call, after it, or done (or lost with a stopped Agent).
pub data Phase : Type 0 where
  waiting sent over : Phase

-- A leader, with all that its execution will meet.
pub record Leading : Type 0 where
  pub operation_id : Text
  pub fingerprint : Fingerprint
  pub world : World
  pub phase : Phase

pub record Agent : Type 0 where
  pub journal : Journal
  pub leaders : List Leading
  pub calls : List (Text × Call)

abbrev is_waiting : Phase → Bool
is_waiting waiting = true
is_waiting _ = false

abbrev is_over : Phase → Bool
is_over over = true
is_over _ = false

abbrev pub waiting_leader : Text → Leading → Bool
waiting_leader u l = l.operation_id == u && is_waiting l.phase

abbrev pub live_leader : Text → Leading → Bool
live_leader u l = l.operation_id == u && not (is_over l.phase)

abbrev pub call_of : Text → Text × Call → Bool
call_of u (v, c) = v == u

abbrev pub verdict_of : Leading → Verdict
verdict_of l = verdict l.world l.fingerprint.target_kind l.fingerprint.target l.fingerprint.action

abbrev pub new_leader : Text → Fingerprint → World → Leading
new_leader u f w = record { operation_id = u; fingerprint = f; world = w; phase = waiting }

abbrev pub leaders_after : Text → Fingerprint → World → Begin → List Leading → List Leading
leaders_after u f w started ls = ls ++ (new_leader u f w ∷ [])
leaders_after u f w _ ls = ls

abbrev pub set_phase : Phase → Leading → Leading
set_phase p l = record l { phase = p }

-- The four ways the Agent moves.
abbrev pub requested : Text → Fingerprint → World → ℕ → Agent → Agent
requested u f w now a = record a {
  journal = (begin u f now a.journal).0;
  leaders = leaders_after u f w (begin u f now a.journal).1 a.leaders;
}

abbrev pub dispatched_to : Text → Call → Agent → Agent
dispatched_to u c a = record {
  journal = mark_dispatched u a.journal;
  leaders = update_where (waiting_leader u) (set_phase sent) a.leaders;
  calls = a.calls ++ ((u, c) ∷ []);
}

abbrev pub ended_by : Text → Verdict → ℕ → Agent → Agent
ended_by u v now a = record a {
  journal = (finish u v.status v.code v.resource now a.journal).0;
  leaders = update_where (live_leader u) (set_phase over) a.leaders;
}

abbrev pub restarted : ℕ → Agent → Agent
restarted now a = record a {
  journal = recover now a.journal;
  leaders = update_where (λ (l : Leading). true) (set_phase over) a.leaders;
}

pub data Move : Agent → Agent → Type 0 where
  request :
      (a : Agent) (u : Text) (f : Fingerprint) (w : World) (now : ℕ)
      → Move a (requested u f w now a)
  -- a leader that has not sent a call yet sends the one of its verdict
  send :
      (a : Agent) (u : Text) (l : Leading) (c : Call)
      → find_where (waiting_leader u) a.leaders ≡ some l
      → (verdict_of l).call ≡ some c
      → Move a (dispatched_to u c a)
  -- a leader that has sent its call, or has none to send, finishes
  close :
      (a : Agent) (u : Text) (l : Leading) (now : ℕ)
      → find_where (live_leader u) a.leaders ≡ some l
      → is_waiting l.phase ≡ not (is_some (verdict_of l).call)
      → Move a (ended_by u (verdict_of l) now a)
  restart : (a : Agent) (now : ℕ) → Move a (restarted now a)

pub data Runs (a : Agent) : Agent → Type 0 where
  here : Runs a a
  next : {b c : Agent} → Runs a b → Move b c → Runs a c

-- Every leader has the open row of its id, and an id that was called, or may still be, has a row.
pub record IsCoherent (a : Agent) : Type 0 where
  pub valid : IsValid a.journal
  pub live_open :
      (u : Text) → count_where (live_leader u) a.leaders ≤ count_where (open_operation u) a.journal
  pub calls_known :
      (u : Text)
      → count_where (call_of u) a.calls + count_where (waiting_leader u) a.leaders
        ≤ count_where (has_operation_id u) a.journal
