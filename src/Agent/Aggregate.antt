-- ===== src/Agent/Aggregate.antt =====
-- The state and the health of a Compose project from those of its members
-- (agent/src/nodeconductor_agent/inventory_service.py, `aggregate_compose_state` and
-- `aggregate_health_status`). A test on the set of the members' states is a test on the members.
pub mod Laws
use node_conductor.Base.{Bool, true, false, ◌&&◌, ◌||◌, not, List, [], ◌∷◌, if◌then◌else◌}
use node_conductor.Agent.Schema.{State, Health, Member}

unfoldable pub any_member : (Member → Bool) → List Member → Bool
any_member p [] = false
any_member p (m ∷ ms) = p m || any_member p ms

unfoldable pub all_members : (Member → Bool) → List Member → Bool
all_members p [] = true
all_members p (m ∷ ms) = p m && all_members p ms

abbrev pub is_empty : List Member → Bool
is_empty [] = true
is_empty (_ ∷ _) = false

-- state in {"unknown", "removing", "dead"}
abbrev pub is_lost : State → Bool
is_lost State.unknown = true
is_lost State.removing = true
is_lost State.dead = true
is_lost _ = false

-- state in {"created", "exited"}
abbrev pub is_stopped : State → Bool
is_stopped State.created = true
is_stopped State.exited = true
is_stopped _ = false

-- state in {"running", "restarting", "paused"}
abbrev pub is_alive : State → Bool
is_alive State.running = true
is_alive State.restarting = true
is_alive State.paused = true
is_alive _ = false

abbrev pub is_running : State → Bool
is_running State.running = true
is_running _ = false

abbrev pub is_paused : State → Bool
is_paused State.paused = true
is_paused _ = false

abbrev pub is_restarting : State → Bool
is_restarting State.restarting = true
is_restarting _ = false

abbrev pub health_unknown : Health → Bool
health_unknown Health.unknown = true
health_unknown _ = false

abbrev pub health_bad : Health → Bool
health_bad Health.unhealthy = true
health_bad _ = false

abbrev pub health_starting : Health → Bool
health_starting Health.starting = true
health_starting _ = false

abbrev pub health_none : Health → Bool
health_none Health.none = true
health_none _ = false

abbrev pub on_state : (State → Bool) → Member → Bool
on_state p m = p m.state

abbrev pub on_health : (Health → Bool) → Member → Bool
on_health p m = p m.health_status

unfoldable pub aggregate_compose_state : List Member → State
aggregate_compose_state ms =
    if is_empty ms
    then State.unknown
    else if any_member (on_state is_lost) ms || any_member (on_health health_unknown) ms
    then State.unknown
    else if all_members (on_state is_stopped) ms
    then State.stopped
    else if any_member (on_state is_stopped) ms && any_member (on_state is_alive) ms
    then State.partial
    else if any_member (on_health health_bad) ms || any_member (on_state is_paused) ms
    then State.degraded
    else if any_member (on_state is_restarting) ms || any_member (on_health health_starting) ms
    then State.starting
    else if all_members (on_state is_running) ms
    then State.running
    else State.unknown

unfoldable pub aggregate_health_status : List Member → Health
aggregate_health_status ms =
    if is_empty ms || any_member (on_health health_unknown) ms
    then Health.unknown
    else if any_member (on_health health_bad) ms
    then Health.unhealthy
    else if any_member (on_health health_starting) ms
    then Health.starting
    else if all_members (on_health health_none) ms
    then Health.none
    else Health.healthy
