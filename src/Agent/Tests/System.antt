-- ===== src/Agent/Tests/System.antt =====
-- Two requests for one container, the second under another id, with a restart after the call.
use node_conductor.Base.{◌≤◌, ◌≡◌, refl, [], arith}
use node_conductor.Table.{count_where, find_where}
use node_conductor.Agent.Schema.{standalone_container}
use node_conductor.Agent.Inventory.{find_resource}
use node_conductor.Agent.Journal.{active_on, begin, fetch}
use node_conductor.Agent.Actions.{
  current_target, preflight_rejection, desired_state_observed, start_container,
}
use node_conductor.Agent.Actions.Leader.{
  dispatch, pursue, with_resource, locked, verdict, execute_leader,
}
use node_conductor.Agent.Actions.System.{
  Agent, here, next, request, send, restart, new_leader, call_of, requested, dispatched_to,
  restarted, IsCoherent, Runs,
}
use node_conductor.Agent.Actions.Called.{called_once}
use node_conductor.Agent.Actions.Alone.{IsEpisode, with_call, execute_leader-Runs}
use node_conductor.Agent.Tests.Actions.{good_world}
use node_conductor.Agent.Tests.Journal.{start_web, empty-IsValid}

abbrev fresh_agent : Agent
fresh_agent = record { journal = []; leaders = []; calls = [] }

fresh_agent-IsCoherent : IsCoherent fresh_agent
unfolding count_where
fresh_agent-IsCoherent = record {
  valid = empty-IsValid;
  live_open = λ u. omega arith;
  calls_known = λ u. omega arith;
}

abbrev first_requested : Agent
first_requested = requested 70 start_web good_world 5 fresh_agent

abbrev both_requested : Agent
both_requested = requested 71 start_web good_world 6 first_requested

abbrev called : Agent
called = dispatched_to 70 (start_container 41) both_requested

called_once_example :
    (count_where (call_of 70) (restarted 9 called).calls ≤ 1)
    × (count_where (active_on standalone_container 41) (restarted 9 called).journal ≤ 1)
unfolding begin fetch find_where verdict locked with_resource pursue dispatch current_target
    find_resource preflight_rejection desired_state_observed
called_once_example =
    called_once 70 standalone_container 41
      (next
        (next
          (next (next here (request fresh_agent 70 start_web good_world 5))
            (request first_requested 71 start_web good_world 6))
          (send both_requested 70 (new_leader 70 start_web good_world) (start_container 41) refl
            refl))
        (restart called 9))
      fresh_agent-IsCoherent

execute_leader-Runs_example :
    (b : Agent) × Runs fresh_agent b
    × IsEpisode 70 start_web good_world fresh_agent b
    × (b.journal ≡ (execute_leader 70 start_web good_world []).0)
    × (b.calls ≡ with_call 70 (execute_leader 70 start_web good_world []).2 [])
unfolding count_where
execute_leader-Runs_example = execute_leader-Runs 70 start_web good_world fresh_agent refl
