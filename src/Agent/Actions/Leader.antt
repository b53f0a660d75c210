-- ===== src/Agent/Actions/Leader.antt =====
-- One execution by the leader of an operation id (`_execute_leader` of action_service.py), step
-- by step. Every way out calls `finish` of the journal once.
use node_conductor.Base.{ℕ, Text, Bool, Option, none, some, ◌&&◌, not, if◌then◌else◌}
use node_conductor.Agent.Schema.{
  TargetKind, compose_project, standalone_container, ResourceAction, Resource, same_kind,
}
use node_conductor.Agent.Journal.{
  Status, completed, rejected, failed, indeterminate, ResultCode, resource_busy, resource_not_found,
  already_in_desired_state, compose_runner_unavailable, post_dispatch_state_unknown,
  action_completed, requested_state_not_observed, pre_dispatch_failed,
  unexpected_post_dispatch_failure, ObservedResource, Operation, Journal, Fingerprint, Begin,
  started, replay, busy, already_open, id_conflict, begin, mark_dispatched, finish,
}
use node_conductor.Agent.Actions.{
  not_found, broken, Fetched, value, failure, Look, current_target, preflight_rejection, Registry,
  compose_preflight, desired_state_observed, filtered, try_filtered_target, Call, call_for, Sent,
  performed, action_error, raised,
}

-- What one execution meets: whether the resource's lock is free, the registry and the runner, the
-- engine before the call, after it, and after a failed call, and what becomes of the call.
pub record World : Type 0 where
  pub lock_free : Bool
  pub registry : Registry
  pub runner_available : Bool
  pub stop_timeout : ℕ
  pub before : Look
  pub sent : Sent
  pub after : Look
  pub recheck : Look
  pub started_at : ℕ
  pub finished_at : ℕ

-- How an execution ends: the arguments of the one call of `finish`, and the call that was sent.
pub record Verdict : Type 0 where
  pub status : Status
  pub code : ResultCode
  pub resource : Option ObservedResource
  pub call : Option Call

abbrev pub unsent : Status → ResultCode → Option ObservedResource → Verdict
unsent st code r = record { status = st; code = code; resource = r; call = none }

abbrev pub sent_off : Call → Status → ResultCode → Option ObservedResource → Verdict
sent_off c st code r = record { status = st; code = code; resource = r; call = some c }

-- The state after a call that returned.
abbrev pub after_call : Call → ResourceAction → Fetched Resource → Verdict
after_call c a (failure broken) = sent_off c indeterminate unexpected_post_dispatch_failure none
after_call c a (failure _) = sent_off c indeterminate post_dispatch_state_unknown none
after_call c a (value r) =
    if desired_state_observed r a
    then sent_off c completed action_completed (filtered r)
    else sent_off c failed requested_state_not_observed (filtered r)

-- `except ActionExecutionError`, with the handlers of the other exceptions, after the dispatch.
unfoldable pub dispatch : World → TargetKind → Text → ResourceAction → Verdict
dispatch w k t a =
    let c = call_for k t a w.stop_timeout in
    elim w.sent [
      | performed ↦ after_call c a (current_target k t w.after)
      | action_error e ↦
          sent_off c (if e.uncertain then indeterminate else failed) e.result_code
            (try_filtered_target k t w.recheck)
      | raised f ↦ elim f [
        | broken ↦ sent_off c indeterminate unexpected_post_dispatch_failure none
        | _ ↦ sent_off c indeterminate post_dispatch_state_unknown none
      ]
    ]

-- From the test of the desired state to the dispatch.
unfoldable pub pursue : World → TargetKind → Text → ResourceAction → Resource → Verdict
pursue w k t a r =
    if desired_state_observed r a
    then unsent completed already_in_desired_state (filtered r)
    else if same_kind k compose_project && not w.runner_available
    then unsent failed compose_runner_unavailable (filtered r)
    else dispatch w k t a

abbrev pub registry_failure : World → TargetKind → Text → Option (Status × ResultCode)
registry_failure w compose_project t = compose_preflight w.registry t
registry_failure w standalone_container t = none

unfoldable pub with_resource : World → TargetKind → Text → ResourceAction → Resource → Verdict
with_resource w k t a r = elim (preflight_rejection r) [
  | some code ↦ unsent rejected code (filtered r)
  | none ↦ elim (registry_failure w k t) [
    | some (st, code) ↦ unsent st code (filtered r)
    | none ↦ pursue w k t a r
  ]
]

-- The body of the outer `try`, with the handlers of what the first look raises.
unfoldable pub locked : World → TargetKind → Text → ResourceAction → Verdict
locked w k t a = elim (current_target k t w.before) [
  | failure f ↦ elim f [
    | not_found ↦ unsent rejected resource_not_found none
    | _ ↦ unsent failed pre_dispatch_failed none
  ]
  | value r ↦ with_resource w k t a r
]

unfoldable pub verdict : World → TargetKind → Text → ResourceAction → Verdict
verdict w k t a = if w.lock_free then locked w k t a else unsent rejected resource_busy none

pub data Answer : Type 0 where
  response : Operation → Answer
  conflict : Answer
  unavailable : Answer

-- The response of a finished operation; a missing row cannot be rendered.
abbrev pub answer_row : Option Operation → Answer
answer_row (some o) = response o
answer_row none = unavailable

-- `mark_dispatched` comes right before the call.
abbrev pub mark_if_sent : Option Call → Text → Journal → Journal
mark_if_sent none u j = j
mark_if_sent (some _) u j = mark_dispatched u j

unfoldable pub close : Text → Verdict → ℕ → Journal → Journal × Answer
close u v now j =
    let (j', row) = finish u v.status v.code v.resource now (mark_if_sent v.call u j) in
    (j', answer_row row)

-- The journal, the answer, and the call that was sent out.
unfoldable pub lead : Text → Fingerprint → World → Journal → Begin → Journal × Answer × Option Call
lead u f w j started =
    let v = verdict w f.target_kind f.target f.action in
    let (j', answer) = close u v w.finished_at j in (j', answer, v.call)
lead u f w j (replay o) = (j, response o, none)
lead u f w j (busy o) = (j, response o, none)
lead u f w j already_open = (j, unavailable, none)
lead u f w j id_conflict = (j, conflict, none)

unfoldable pub execute_leader :
    Text → Fingerprint → World → Journal → Journal × Answer × Option Call
execute_leader u f w j = let (j1, b) = begin u f w.started_at j in lead u f w j1 b
