-- ===== src/Agent/Tests/Journal.antt =====
-- The journal on concrete operations.
use node_conductor.Base.{some, ◌≡◌, refl, [], arith}
use node_conductor.Table.{count_where, find_where}
use node_conductor.Agent.Schema.{standalone_container, start}
use node_conductor.Agent.Journal.{
  indeterminate, recovered_incomplete_operation, Journal, Fingerprint, new_operation, begin,
  recover, replay, fetch,
}
use node_conductor.Agent.Journal.Valid.{IsValid, begin-IsValid}
use node_conductor.Agent.Journal.Replay.{recover_then_replay}

abbrev pub start_web : Fingerprint
start_web = record { target_kind = standalone_container; target = 41; actor = 9; action = start }

pub empty-IsValid : IsValid []
unfolding count_where
empty-IsValid = record {
  ids_unique = λ u. omega arith;
  one_open_per_resource = λ k t. omega arith;
  outcomes = tt;
}

-- The journal after a first request, and after a second one under another id, which finds the
-- resource busy.
abbrev pub opened : Journal
opened = (begin 70 start_web 5 []).0

abbrev contested : Journal
contested = (begin 71 start_web 6 opened).0

contested-IsValid : IsValid contested
contested-IsValid =
    begin-IsValid 71 start_web 6 opened (begin-IsValid 70 start_web 5 [] empty-IsValid)

recover_then_replay_example :
    (begin 70 start_web 9 (recover 8 contested) ≡ (
      recover 8 contested,
      replay (record (new_operation 70 start_web 5) {
        status = indeterminate;
        result_code = some recovered_incomplete_operation;
        finished_at = some 8;
      }),
    ))
    × (fetch 70 (recover 8 contested)
        ≡ some (record (new_operation 70 start_web 5) {
          status = indeterminate;
          result_code = some recovered_incomplete_operation;
          finished_at = some 8;
        }))
unfolding begin fetch find_where
recover_then_replay_example =
    recover_then_replay 70 start_web 8 9 contested (new_operation 70 start_web 5) refl refl refl
