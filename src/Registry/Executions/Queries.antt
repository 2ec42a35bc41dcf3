-- ===== src/Registry/Executions/Queries.antt =====
-- Reading execution records: nothing is changed, and a message leads to the record of its execution.
use by_framework_ts.Common.{
  Text, is_empty_iff, ◌≡◌, refl, ◌≢◌, ◌⊎◌, inl, inr, [], Option, none, some, ok, err, arith,
}
use by_framework_ts.Redis.Keys.{session_registry}
use by_framework_ts.Redis.Values.{Value, plain, execution, Execution}
use by_framework_ts.Redis.Env.{Env}
use by_framework_ts.Redis.Async.{Reply-cases}
use by_framework_ts.Registry.Executions.{
  exec_field, msg_map_field, parse_execution, get_execution, execution_named,
  get_execution_by_message_id,
}

module _ (env : Env) where
  open env use {Store, view, hget, hget_lem}

  parse_execution-view : (v : Option Value) (s : Store) → view (parse_execution env v s).1 ≡ view s
  unfolding parse_execution
  parse_execution-view none s = refl
  parse_execution-view (some (execution e)) s = refl
  parse_execution-view (some _) s = refl

  pub get_execution-view :
      (execution_id session_id : Text) (s : Store)
      → view (get_execution env execution_id session_id s).1 ≡ view s
  unfolding get_execution
  get_execution-view execution_id session_id s =
      let k = session_registry session_id in
      let f = exec_field execution_id in
      elim (Reply-cases (hget k f s).0) [
        | inl (v, e) ↦ ground (arith, e, hget_lem k f s, parse_execution-view v (hget k f s).1)
        | inr e ↦ ground (arith, e, hget_lem k f s)
      ]

  execution_named-view :
      (session_id : Text) (v : Option Value) (s : Store)
      → view (execution_named env session_id v s).1 ≡ view s
  unfolding execution_named
  execution_named-view session_id (some (plain execution_id)) s =
      ground (arith, get_execution-view execution_id session_id s)
  execution_named-view session_id (some _) s = refl
  execution_named-view session_id none s = refl

  -- Looking an execution up changes nothing.
  pub get_execution_by_message_id-view :
      (message_id session_id : Text) (s : Store)
      → view (get_execution_by_message_id env message_id session_id s).1 ≡ view s
  unfolding get_execution_by_message_id
  get_execution_by_message_id-view message_id session_id s =
      let k = session_registry session_id in
      let f = msg_map_field message_id in
      elim (Reply-cases (hget k f s).0) [
        | inl (v, e) ↦
            ground (arith, e, hget_lem k f s, execution_named-view session_id v (hget k f s).1)
        | inr e ↦ ground (arith, e, hget_lem k f s)
      ]

  -- A message whose id is mapped to an execution of its session, the ids of both not empty, leads to that execution's record,
  -- unless Redis fails.
  pub get_execution_by_message_id_lem :
      (message_id session_id execution_id : Text) (e : Execution) (s : Store)
      → session_id ≢ []
      → execution_id ≢ []
      → (view s).hash (session_registry session_id) (msg_map_field message_id)
        ≡ some (plain execution_id)
      → (view s).hash (session_registry session_id) (exec_field execution_id) ≡ some (execution e)
      → ((get_execution_by_message_id env message_id session_id s).0 ≡ ok (some e))
        ⊎ ((get_execution_by_message_id env message_id session_id s).0 ≡ err tt)
  unfolding get_execution_by_message_id execution_named get_execution parse_execution
  get_execution_by_message_id_lem message_id session_id execution_id e s h i named found =
      let k = session_registry session_id in
      let s1 = (hget k (msg_map_field message_id) s).1 in
      ground (
        arith,
        hget_lem k (msg_map_field message_id) s,
        hget_lem k (exec_field execution_id) s1,
        is_empty_iff session_id,
        is_empty_iff execution_id,
      )
