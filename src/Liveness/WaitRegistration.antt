-- ===== src/Liveness/WaitRegistration.antt =====
-- src/liveness/wait_registration.ts: recording a suspended caller in the wait index.
pub mod Reopening
use by_framework_ts.Common.{ℕ, ◌+◌, Text, Option, none, some}
use by_framework_ts.Redis.Env.{Env}
use by_framework_ts.Redis.Async.{Async, ◌>>=◌, ◌>>◌, return, reads, try_catch}
use by_framework_ts.Liveness.WaitIndex.{encode_member, MemberParams, or_blank}
use by_framework_ts.Liveness.WaitGate.{wait_index_key, consumed_marker_key}

-- `RegisterWaitParams`; the timeout is a natural number, as `Math.max(0, …)` makes it.
pub record RegisterWaitParams : Type 0 where
  pub session_id : Text
  pub parent_message_id : Text
  pub child_message_id : Text
  pub task_group_id : Option Text
  pub timeout_ms : ℕ

abbrev pub member_params : RegisterWaitParams → MemberParams
member_params p = record {
  session_id = p.session_id;
  parent_message_id = p.parent_message_id;
  child_message_id = p.child_message_id;
  task_group_id = some (or_blank p.task_group_id);
}

unfoldable pub registered_member : RegisterWaitParams → Text
registered_member p = encode_member (member_params p)

module _ (env : Env) where
  open env use {Store, now, zadd, del}

  unfoldable pub register_wait : RegisterWaitParams → Async Store (Unit {0})
  unfolding registered_member
  register_wait p =
      try_catch
        (do
          clock ← reads now
          let member = encode_member (member_params p)
          zadd (wait_index_key p.session_id) (clock + p.timeout_ms) member
          try_catch (del (consumed_marker_key env p.session_id member)) (return tt))
        (return tt)
