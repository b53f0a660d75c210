-- ===== src/Agent/Tests/Actions.antt =====
-- Executions on a concrete engine.
use node_conductor.Base.{◌≡◌, refl, true, false, none, [], ◌∷◌}
use node_conductor.Agent.Schema.{standalone_container, start, State, Resource, managed}
use node_conductor.Agent.Inventory.{standalone_row, find_resource}
use node_conductor.Agent.Journal.Valid.{IsValid}
use node_conductor.Agent.Actions.{
  value, Look, current_target, preflight_rejection, desired_state_observed, start_container,
  performed,
}
use node_conductor.Agent.Actions.Leader.{
  World, dispatch, pursue, with_resource, locked, verdict, execute_leader,
}
use node_conductor.Agent.Actions.Safety.{MayBeSent, call_is_allowed}
use node_conductor.Agent.Actions.Outcome.{Ends, verdict-Ends}
use node_conductor.Agent.Actions.Once.{execute_leader-IsValid, execute_twice}
use node_conductor.Agent.Tests.{web_server}
use node_conductor.Agent.Tests.Journal.{start_web, empty-IsValid, opened}

abbrev stopped_web : Resource
stopped_web = standalone_row web_server false managed

abbrev running_web : Resource
running_web = standalone_row (record web_server { state = State.running }) false managed

abbrev shows : Resource → Look
shows r = record { resources = value (r ∷ []); inspected = value web_server }

-- The container is stopped, the call returns, and the container runs.
abbrev pub good_world : World
good_world = record {
  lock_free = true;
  registry = record { usable = true; get = λ t. none };
  runner_available = false;
  stop_timeout = 10;
  before = shows stopped_web;
  sent = performed;
  after = shows running_web;
  recheck = shows running_web;
  started_at = 5;
  finished_at = 7;
}

abbrev later_world : World
later_world = record good_world { before = shows running_web; started_at = 50; finished_at = 60 }

call_is_allowed_example :
    (true ≡ true)
    × ((r : Resource) × (current_target standalone_container 41 good_world.before ≡ value r)
        × MayBeSent good_world standalone_container 41 start r)
unfolding verdict locked with_resource pursue dispatch current_target find_resource
    preflight_rejection desired_state_observed
call_is_allowed_example =
    call_is_allowed good_world standalone_container 41 start (start_container 41) refl

verdict-Ends_example :
    Ends good_world standalone_container 41 start (verdict good_world standalone_container 41 start)
verdict-Ends_example = verdict-Ends good_world standalone_container 41 start

execute_leader-IsValid_example : IsValid (execute_leader 71 start_web good_world []).0
execute_leader-IsValid_example = execute_leader-IsValid 71 start_web good_world [] empty-IsValid

execute_twice_example :
    let (j, answer, call) = execute_leader 71 start_web good_world opened in
    execute_leader 71 start_web later_world j ≡ (j, answer, none)
execute_twice_example = execute_twice 71 start_web good_world later_world opened
