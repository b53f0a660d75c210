-- ===== src/Agent/Journal/Replay.antt =====
-- What a repeated operation id gets back (`begin`, `finish` and the recovery of
-- action_repository.py).
use node_conductor.Base.{ℕ, ◌≡◌, refl, Text, true, false, ◌&&◌, Option, some, arith, ◌==◌, ◌∙◌}
use node_conductor.Table.{find_where, update_where}
use node_conductor.Table.Count.{find-excludes}
use node_conductor.Table.Rows.{find-update, find_passes, update_where_nothing}
use node_conductor.Agent.Schema.{
  TargetKind, compose_project, standalone_container, ResourceAction, start, stop, same_kind,
  same_action,
}
use node_conductor.Agent.Journal.{
  Status, indeterminate, ResultCode, recovered_incomplete_operation, ObservedResource, Operation,
  Journal, Fingerprint, is_in_progress, has_operation_id, open_operation, matches, recover,
  recover_row, fetch, replay, id_conflict, begin, finish, finish_row,
}
use node_conductor.Agent.Journal.Valid.{IsValid}

-- The row of a new operation matches the request that it was made for.
pub new_operation-matches :
    (f : Fingerprint) (o : Operation)
    → o.target_kind ≡ f.target_kind
    → o.target ≡ f.target
    → o.actor ≡ f.actor
    → o.action ≡ f.action
    → matches o f ≡ true
new_operation-matches f o k t a c = rw (k, t, a, c) (go f.target_kind f.action)
  where
    go :
        (k : TargetKind) (c : ResourceAction)
        → (same_kind k k && (f.target == f.target && (f.actor == f.actor && same_action c c)))
          ≡ true
    go compose_project start = ground arith
    go compose_project stop = ground arith
    go standalone_container start = ground arith
    go standalone_container stop = ground arith

-- An operation that is open ends with the outcome that it is finished with, and every later
-- request with its id and its fingerprint is answered from that row and changes nothing.
pub finish_then_replay :
    (u : Text) (f : Fingerprint) (status : Status) (code : ResultCode) (r : Option ObservedResource)
    (now later : ℕ) (j : Journal) (o : Operation)
    → fetch u j ≡ some o
    → is_in_progress o.status ≡ true
    → matches o f ≡ true
    → is_in_progress status ≡ false
    → let (j', row) = finish u status code r now j in
      (row ≡ some (finish_row status code r now o))
      × (begin u f later j' ≡ (j', replay (finish_row status code r now o)))
unfolding finish fetch begin
finish_then_replay u f status code r now later j o found opened same ended =
    (written, rw (written, begin) (rw (same, ended)))
  where
    written :
        find_where
          (has_operation_id u)
          (update_where (open_operation u) (finish_row status code r now) j)
        ≡ some (finish_row status code r now o)
    written =
        find-update (has_operation_id u) (open_operation u) (finish_row status code r now) j o
          (λ x. refl) found
        ∙ rw (opened, find_passes (has_operation_id u) j o found)

-- In a valid journal, a row that has an outcome keeps it: a second finish returns that row and
-- changes nothing.
pub finish_once :
    (u : Text) (status : Status) (code : ResultCode) (r : Option ObservedResource) (now : ℕ)
    (j : Journal) (o : Operation)
    → IsValid j
    → fetch u j ≡ some o
    → is_in_progress o.status ≡ false
    → finish u status code r now j ≡ (j, some o)
unfolding finish fetch
finish_once u status code r now j o v found ended =
    rw
      (update_where_nothing (open_operation u) (finish_row status code r now) j (
        find-excludes (has_operation_id u) (λ x. is_in_progress x.status) j o (v.ids_unique u) found
          ended))
      (rw found)

-- An id that was used for another resource, actor or action is refused, and nothing is written.
pub begin_conflicts :
    (u : Text) (f : Fingerprint) (now : ℕ) (j : Journal) (o : Operation)
    → fetch u j ≡ some o
    → matches o f ≡ false
    → begin u f now j ≡ (j, id_conflict)
unfolding begin
begin_conflicts u f now j o found other = rw (found, begin) (rw other)

-- An operation that was open when the Agent stopped has, after the restart, the same row with the
-- status indeterminate, the code of a recovery and the time of the restart; a later request with its
-- id and its fingerprint is answered by that row and begins nothing.
pub recover_then_replay :
    (u : Text) (f : Fingerprint) (restart later : ℕ) (j : Journal) (o : Operation)
    → fetch u j ≡ some o
    → is_in_progress o.status ≡ true
    → matches o f ≡ true
    → begin u f later (recover restart j) ≡ (
      recover restart j,
      replay (record o {
        status = indeterminate;
        result_code = some recovered_incomplete_operation;
        finished_at = some restart;
      }),
    )
      × (fetch u (recover restart j)
          ≡ some (record o {
            status = indeterminate;
            result_code = some recovered_incomplete_operation;
            finished_at = some restart;
          }))
unfolding fetch begin recover
recover_then_replay u f restart later j o found opened same =
    (rw (written, begin) (rw same), written)
  where
    written :
        find_where
          (has_operation_id u)
          (update_where (λ (x : Operation). is_in_progress x.status) (recover_row restart) j)
        ≡ some (recover_row restart o)
    written =
        find-update (has_operation_id u) (λ x. is_in_progress x.status) (recover_row restart) j o
          (λ x. refl) found
        ∙ rw opened
