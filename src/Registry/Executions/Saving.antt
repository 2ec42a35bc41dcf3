-- ===== src/Registry/Executions/Saving.antt =====
-- Writing an execution record for the first time touches the session's hash only.
use by_framework_ts.Common.{Text, ◌≡◌, ◌≢◌, ok, arith}
use mathlib.Core.Path.{fun_ext}
use by_framework_ts.Redis.Keys.{Key, session_registry, key_eq_iff}
use by_framework_ts.Redis.Values.{Execution, execution, plain}
use by_framework_ts.Redis.Data.{Data}
use by_framework_ts.Redis.Env.{Env}
use by_framework_ts.Registry.Executions.{
  initialize_execution, write_named, piped, initial_record, exec_field, msg_map_field,
  default_session_ttl,
}

module _ (env : Env) where
  open env use {Store, view, now, hset, hset_lem, expire, expire_lem}

  -- The contents but for the hashes.
  abbrev pub SameButHashes : Data → Data → Type 0
  SameButHashes d e =
      (e.zset ≡ d.zset) × (e.str ≡ d.str) × (e.members ≡ d.members) × (e.stream ≡ d.stream)

  -- The record of a new execution is written without an error, and nothing else changes than the hash of its session.
  pub initialize_execution_lem :
      (e : Execution) (s : Store)
      → ((initialize_execution env e s).0 ≡ ok tt)
        × SameButHashes (view s) (view (initialize_execution env e s).1)
  unfolding initialize_execution write_named piped initial_record
  initialize_execution_lem e s =
      let k = session_registry e.session_id in
      let r = initial_record e (now s) in
      let s1 = (hset k (exec_field e.execution_id) (execution r) s).1 in
      let s2 = (hset k (msg_map_field e.message_id) (plain e.execution_id) s1).1 in
      ground (
        arith,
        hset_lem k (exec_field e.execution_id) (execution r) s,
        hset_lem k (msg_map_field e.message_id) (plain e.execution_id) s1,
        expire_lem k default_session_ttl s2,
      )

  initialize_execution-field :
      (e : Execution) (s : Store) (k : Key) (f : Text)
      → session_registry e.session_id ≢ k
      → (view (initialize_execution env e s).1).hash k f ≡ (view s).hash k f
  unfolding initialize_execution write_named piped initial_record
  initialize_execution-field e s k f ne =
      let j = session_registry e.session_id in
      let r = initial_record e (now s) in
      let s1 = (hset j (exec_field e.execution_id) (execution r) s).1 in
      let s2 = (hset j (msg_map_field e.message_id) (plain e.execution_id) s1).1 in
      ground (
        arith,
        key_eq_iff j k,
        hset_lem j (exec_field e.execution_id) (execution r) s,
        hset_lem j (msg_map_field e.message_id) (plain e.execution_id) s1,
        expire_lem j default_session_ttl s2,
      )

  pub initialize_execution-hash :
      (e : Execution) (s : Store) (k : Key)
      → session_registry e.session_id ≢ k
      → (view (initialize_execution env e s).1).hash k ≡ (view s).hash k
  unfolding initialize_execution write_named piped initial_record
  initialize_execution-hash e s k ne = fun_ext (λ f. initialize_execution-field e s k f ne)
