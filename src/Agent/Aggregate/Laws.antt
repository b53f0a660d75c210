-- ===== src/Agent/Aggregate/Laws.antt =====
-- What the aggregates of inventory_service.py say of the members.
use mathlib.Core.List.{Perm, Permᴰ}
use mathlib.Core.Logic.{∥∥₁_elim}
use node_conductor.Base.{◌≡◌, ◌↔◌, refl, ◌∙◌, ap, Bool, true, false, ◌||◌, List, [], ◌∷◌, arith}
use node_conductor.Agent.Schema.{State, Health, Member}
use node_conductor.Agent.Aggregate.{
  any_member, all_members, is_empty, is_lost, is_stopped, is_alive, is_running, is_paused,
  is_restarting, health_unknown, health_bad, health_starting, health_none, on_state, on_health,
  aggregate_compose_state, aggregate_health_status,
}

none_of_all :
    (p q : Member → Bool) (ms : List Member)
    → ((m : Member) → p m ≡ true → q m ≡ false)
    → all_members p ms ≡ true
    → any_member q ms ≡ false
unfolding any_member all_members
none_of_all p q [] h a = refl
none_of_all p q (m ∷ ms) h a = ground (arith, h m, none_of_all p q ms h)

not_all_of_all :
    (p q : Member → Bool) (ms : List Member)
    → ((m : Member) → p m ≡ true → q m ≡ false)
    → is_empty ms ≡ false
    → all_members p ms ≡ true
    → all_members q ms ≡ false
unfolding all_members
not_all_of_all p q [] h e a = absurd cc
not_all_of_all p q (m ∷ ms) h e a = ground (arith, h m)

running-others :
    (s : State)
    → is_running s ≡ true
    → (is_lost s || is_stopped s || is_paused s || is_restarting s) ≡ false
running-others State.running h = refl
running-others _ h = absurd cc

stopped-lost : (s : State) → is_stopped s ≡ true → is_lost s ≡ false
stopped-lost State.created h = refl
stopped-lost State.exited h = refl
stopped-lost _ h = absurd cc

-- The project is reported as running exactly if it has members, every one of them runs, and no
-- health is unknown, bad or still starting.
pub running_iff :
    (ms : List Member)
    → (aggregate_compose_state ms ≡ State.running) ↔ (
        (is_empty ms ≡ false)
        × (all_members (on_state is_running) ms ≡ true)
        × (any_member (on_health health_unknown) ms ≡ false)
        × (any_member (on_health health_bad) ms ≡ false)
        × (any_member (on_health health_starting) ms ≡ false))
unfolding aggregate_compose_state
running_iff ms = (
  λ h. ground arith,
  λ h. ground (
    arith,
    none_of_all (on_state is_running) (on_state is_lost) ms
        (λ m r. ground (arith, running-others m.state)) h.1,
    none_of_all (on_state is_running) (on_state is_stopped) ms
        (λ m r. ground (arith, running-others m.state)) h.1,
    none_of_all (on_state is_running) (on_state is_paused) ms
        (λ m r. ground (arith, running-others m.state)) h.1,
    none_of_all (on_state is_running) (on_state is_restarting) ms
        (λ m r. ground (arith, running-others m.state)) h.1,
    not_all_of_all (on_state is_running) (on_state is_stopped) ms
        (λ m r. ground (arith, running-others m.state)) h.0 h.1,
  ),
)

-- The project is reported as stopped exactly if it has members, every one of them is created or
-- exited, and no health is unknown.
stopped_iff :
    (ms : List Member)
    → (aggregate_compose_state ms ≡ State.stopped) ↔ (
        (is_empty ms ≡ false)
        × (all_members (on_state is_stopped) ms ≡ true)
        × (any_member (on_health health_unknown) ms ≡ false))
unfolding aggregate_compose_state
stopped_iff ms = (
  λ h. ground arith,
  λ h. ground (
    arith,
    none_of_all (on_state is_stopped) (on_state is_lost) ms (λ m r. stopped-lost m.state r) h.1,
  ),
)

any-perm :
    (p : Member → Bool) {xs ys : List Member} → Permᴰ xs ys → any_member p xs ≡ any_member p ys
unfolding any_member
any-perm p Permᴰ.nil = refl
any-perm p (Permᴰ.cons e r) = ground (arith, ap p e, any-perm p r)
any-perm p (Permᴰ.swap e f) = ground (arith, ap p e, ap p f)
any-perm p (Permᴰ.trans r s) = any-perm p r ∙ any-perm p s

all-perm :
    (p : Member → Bool) {xs ys : List Member} → Permᴰ xs ys → all_members p xs ≡ all_members p ys
unfolding all_members
all-perm p Permᴰ.nil = refl
all-perm p (Permᴰ.cons e r) = ground (arith, ap p e, all-perm p r)
all-perm p (Permᴰ.swap e f) = ground (arith, ap p e, ap p f)
all-perm p (Permᴰ.trans r s) = all-perm p r ∙ all-perm p s

empty-perm : {xs ys : List Member} → Permᴰ xs ys → is_empty xs ≡ is_empty ys
empty-perm Permᴰ.nil = refl
empty-perm (Permᴰ.cons e r) = refl
empty-perm (Permᴰ.swap e f) = refl
empty-perm (Permᴰ.trans r s) = empty-perm r ∙ empty-perm s

State-set : IsSet State
State-set = hlevel

Health-set : IsSet Health
Health-set = hlevel

state-permᴰ :
    {xs ys : List Member} → Permᴰ xs ys → aggregate_compose_state xs ≡ aggregate_compose_state ys
unfolding aggregate_compose_state
state-permᴰ r = rw (
  empty-perm r,
  any-perm (on_state is_lost) r,
  any-perm (on_health health_unknown) r,
  all-perm (on_state is_stopped) r,
  any-perm (on_state is_stopped) r,
  any-perm (on_state is_alive) r,
  any-perm (on_health health_bad) r,
  any-perm (on_state is_paused) r,
  any-perm (on_state is_restarting) r,
  any-perm (on_health health_starting) r,
  all-perm (on_state is_running) r,
)

health-permᴰ :
    {xs ys : List Member} → Permᴰ xs ys → aggregate_health_status xs ≡ aggregate_health_status ys
unfolding aggregate_health_status
health-permᴰ r = rw (
  empty-perm r,
  any-perm (on_health health_unknown) r,
  any-perm (on_health health_bad) r,
  any-perm (on_health health_starting) r,
  all-perm (on_health health_none) r,
)

-- Both aggregates are the same for the members in any order.
pub aggregates-perm :
    (xs ys : List Member)
    → Perm xs ys
    → (aggregate_compose_state xs ≡ aggregate_compose_state ys)
      × (aggregate_health_status xs ≡ aggregate_health_status ys)
aggregates-perm xs ys r =
    (∥∥₁_elim r (State-set _ _) state-permᴰ, ∥∥₁_elim r (Health-set _ _) health-permᴰ)

-- The health of a project is `healthy` exactly if it has members, no member's health is unknown,
-- bad or starting, and at least one member has a health check.
pub healthy_iff :
    (ms : List Member)
    → (aggregate_health_status ms ≡ Health.healthy) ↔ (
        (is_empty ms ≡ false)
        × (any_member (on_health health_unknown) ms ≡ false)
        × (any_member (on_health health_bad) ms ≡ false)
        × (any_member (on_health health_starting) ms ≡ false)
        × (all_members (on_health health_none) ms ≡ false))
unfolding aggregate_health_status
healthy_iff ms = (λ h. ground arith, λ h. ground arith)
