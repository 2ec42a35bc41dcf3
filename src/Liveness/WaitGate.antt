-- ===== src/Liveness/WaitGate.antt =====
-- src/liveness/wait_gate.ts: which of several replies to one wait is let through.
pub mod Claims
pub mod Decisions
pub mod History
use by_framework_ts.Common.{
  ℕ, ◌*◌, Text, text_eq, is_empty, Bool, true, false, List, [], ◌∷◌, none, some, Result, ok, err,
  ltb, if◌then◌else◌, includes, codes,
}
use by_framework_ts.Protocol.Header.{MessageHeader}
use by_framework_ts.Redis.Keys.{Key, wait_index, wait_consumed}
use by_framework_ts.Redis.Values.{Value, plain}
use by_framework_ts.Redis.Env.{Env, Reply}
use by_framework_ts.Redis.Async.{Async, ◌>>=◌, ◌>>◌, return, try_catch}
use by_framework_ts.Liveness.WaitIndex.{encode_member, member_from_resume}
use by_framework_ts.Liveness.WaitIndex.Shards.{wait_index_shard}

-- The `ALLOW_` and `DENY_` constants.
pub data Reason : Type 0 where
  claimed unregistered gate_error already_consumed : Reason

pub record WaitGateDecision : Type 0 where
  pub allow : Bool
  pub reason : Reason
  pub member : Text

abbrev pub wait_consumed_ttl_seconds : ℕ
wait_consumed_ttl_seconds = 7 * 24 * 3600

unfoldable pub wait_index_key : Text → Key
wait_index_key session_id = wait_index (wait_index_shard session_id)

-- The member under which `askUser` registers: it has no sub-task.
unfoldable pub ask_user_member : MessageHeader → Text
ask_user_member header = encode_member (record {
  session_id = header.session_id;
  parent_message_id = header.message_id;
  child_message_id = [];
  task_group_id = some [];
})

unfoldable pub candidate_members : MessageHeader → List Text
candidate_members header =
    let members = member_from_resume header ∷ [] in
    let ask_user = ask_user_member header in
    if is_empty header.task_group_id
    then if includes text_eq members ask_user
      then members
      else member_from_resume header ∷ ask_user ∷ []
    else members

module _ (env : Env) where
  open env use {Store, zrem, exists, set, sha1}

  unfoldable pub consumed_marker_key : Text → Text → Key
  consumed_marker_key session_id member = wait_consumed session_id (sha1 member)

  unfoldable pub mark_consumed : Text → Text → Async Store (Unit {0})
  mark_consumed session_id member =
      try_catch
        (set (consumed_marker_key session_id member) (plain (codes "1")) wait_consumed_ttl_seconds)
        (return tt)

  -- The loop over the candidates, and what follows it.
  unfoldable pub claim : Text → List Text → Async Store WaitGateDecision
  claim session_id [] = return (record { allow = true; reason = unregistered; member = [] })
  claim session_id (member ∷ members) = do
    removed ← zrem (wait_index_key session_id) member
    elim (ltb 0 removed) [
      | true ↦ do
        mark_consumed session_id member
        return (record { allow = true; reason = claimed; member = member })
      | false ↦ do
        consumed ← exists (consumed_marker_key session_id member)
        elim consumed [
          | true ↦ return (record { allow = false; reason = already_consumed; member = member })
          | false ↦ claim session_id members
        ]
    ]

  unfoldable pub consume_wait_entry : MessageHeader → Async Store WaitGateDecision
  unfolding claim mark_consumed
  consume_wait_entry header =
      try_catch (claim header.session_id (candidate_members header))
        (return (record { allow = true; reason = gate_error; member = [] }))
