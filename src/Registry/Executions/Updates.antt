-- ===== src/Registry/Executions/Updates.antt =====
-- What the operations on a stored execution record write.
use by_framework_ts.Common.{
  ℕ, Text, text_eq_iff, is_empty_iff, ◌≡◌, ◌≢◌, ◌⊎◌, [], Option, some, ok, err, arith,
}
use by_framework_ts.Redis.Keys.{key_eq_iff, session_registry}
use by_framework_ts.Redis.Values.{execution, Execution}
use by_framework_ts.Redis.Env.{Env}
use by_framework_ts.Redis.Async.{Async}
use by_framework_ts.Registry.Executions.{
  StatusFields, exec_field, get_execution, parse_execution, update_record, write_record, piped,
  updated_record, finished_record, cancelling_record, cancel_requested_record,
  update_execution_status, mark_execution_finished, mark_execution_cancelling,
  mark_cancel_requested, default_session_ttl,
}
use by_framework_ts.Registry.Executions.Queries.{get_execution-view}

-- The operations that change the record of an execution.
pub data Operation : Type 0 where
  updates : (status : Text) (extra : Option StatusFields) → Operation
  finishes : (status : Text) → Operation
  cancels : (reason : Text) → Operation
  asks_cancel : (reason : Text) → Operation

-- The record that an operation writes at a time.
abbrev pub changed : Operation → Execution → ℕ → Execution
changed (updates status extra) e now = updated_record e status extra now
changed (finishes status) e now = finished_record e status now
changed (cancels reason) e now = cancelling_record e reason now
changed (asks_cancel reason) e now = cancel_requested_record e reason now

module _ (env : Env) where
  open env use {Store, view, now, hget, hget_lem, hset, hset_lem, expire, expire_lem}

  abbrev pub run : Operation → Text → Text → Async Store (Unit {0})
  run (updates status extra) id session_id = update_execution_status env id session_id status extra
  run (finishes status) id session_id = mark_execution_finished env id session_id status
  run (cancels reason) id session_id = mark_execution_cancelling env id session_id reason
  run (asks_cancel reason) id session_id = mark_cancel_requested env id session_id reason

  -- The time at which an operation reads the clock: after it has read the record.
  abbrev pub write_time : Text → Text → Store → ℕ
  write_time id session_id s = now (get_execution env id session_id s).1

  get_execution-found :
      (id session_id : Text) (e : Execution) (s : Store)
      → session_id ≢ []
      → (view s).hash (session_registry session_id) (exec_field id) ≡ some (execution e)
      → ((get_execution env id session_id s).0 ≡ ok (some e))
        ⊎ ((get_execution env id session_id s).0 ≡ err tt)
  unfolding get_execution parse_execution
  get_execution-found id session_id e s ne found =
      ground
        (arith, hget_lem (session_registry session_id) (exec_field id) s, is_empty_iff session_id)

  write_record_lem :
      (id session_id : Text) (e : Execution) (s : Store)
      → ((view (write_record env id session_id e s).1).hash
            (session_registry session_id)
            (exec_field id)
          ≡ some (execution e))
        ⊎ ((view (write_record env id session_id e s).1 ≡ view s)
            × ((hset (session_registry session_id) (exec_field id) (execution e) s).0 ≡ err tt))
  unfolding write_record piped
  write_record_lem id session_id e s =
      let k = session_registry session_id in
      let s1 = (hset k (exec_field id) (execution e) s).1 in
      ground (
        arith,
        hset_lem k (exec_field id) (execution e) s,
        expire_lem k default_session_ttl s1,
        key_eq_iff k k,
        text_eq_iff (exec_field id) (exec_field id),
      )

  -- Redis failed on the reading of a record, or on writing the changed one.
  abbrev pub HasFailed : Text → Text → Execution → Store → Type 0
  HasFailed id session_id e s =
      ((get_execution env id session_id s).0 ≡ err tt)
      ⊎ ((hset (session_registry session_id) (exec_field id) (execution e)
            (get_execution env id session_id s).1).0
          ≡ err tt)

  update_record_lem :
      (id session_id : Text) (change : Execution → ℕ → Execution) (e : Execution) (s : Store)
      → session_id ≢ []
      → (view s).hash (session_registry session_id) (exec_field id) ≡ some (execution e)
      → ((view (update_record env id session_id change s).1).hash
            (session_registry session_id)
            (exec_field id)
          ≡ some (execution (change e (write_time id session_id s))))
        ⊎ (((view (update_record env id session_id change s).1).hash
                (session_registry session_id)
                (exec_field id)
              ≡ some (execution e))
            × HasFailed id session_id (change e (write_time id session_id s)) s)
  unfolding update_record
  update_record_lem id session_id change e s ne found =
      let s1 = (get_execution env id session_id s).1 in
      ground (
        arith,
        get_execution-found id session_id e s ne found,
        get_execution-view env id session_id s,
        write_record_lem id session_id (change e (now s1)) s1,
      )

  -- An operation on the record of an execution, of a session whose id is not empty, writes the record
  -- that is changed at the time of the write; or it leaves the record as it was, and then Redis threw
  -- on reading the record or on writing the changed one.
  pub run_lem :
      (op : Operation) (id session_id : Text) (e : Execution) (s : Store)
      → session_id ≢ []
      → (view s).hash (session_registry session_id) (exec_field id) ≡ some (execution e)
      → ((view (run op id session_id s).1).hash (session_registry session_id) (exec_field id)
          ≡ some (execution (changed op e (write_time id session_id s))))
        ⊎ (((view (run op id session_id s).1).hash (session_registry session_id) (exec_field id)
              ≡ some (execution e))
            × HasFailed id session_id (changed op e (write_time id session_id s)) s)
  unfolding update_execution_status mark_execution_finished mark_execution_cancelling
      mark_cancel_requested
  run_lem (updates status extra) id session_id e s ne found =
      update_record_lem id session_id (λ e now. updated_record e status extra now) e s ne found
  run_lem (finishes status) id session_id e s ne found =
      update_record_lem id session_id (λ e now. finished_record e status now) e s ne found
  run_lem (cancels reason) id session_id e s ne found =
      update_record_lem id session_id (λ e now. cancelling_record e reason now) e s ne found
  run_lem (asks_cancel reason) id session_id e s ne found =
      update_record_lem id session_id (λ e now. cancel_requested_record e reason now) e s ne found
