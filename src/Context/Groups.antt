-- ===== src/Context/Groups.antt =====
-- src/context.ts: `dispatchGroup` and what it calls.
mod Members
unfoldable pub use Members.*
use by_framework_ts.Common.{
  ℕ, Text, codes, is_empty, or_text, Bool, true, false, List, [], ◌∷◌, ◌++◌, Option, none, some,
  if◌then◌else◌, length,
}
use by_framework_ts.Protocol.Json.{JsonRecord, text}
use by_framework_ts.Protocol.AgentState
use by_framework_ts.Protocol.Header.{MessageHeader}
use by_framework_ts.Protocol.Commands.{AskAgentCommand, ask_agent, ResumeCommand}
use by_framework_ts.Protocol.Codec.{ask_agent_command}
use by_framework_ts.Redis.Keys.{Key, ctrl_stream, task_group}
use by_framework_ts.Redis.Values.{plain, number, command, Execution}
use by_framework_ts.Redis.Env.{Env}
use by_framework_ts.Redis.Async.{Async, ◌>>=◌, ◌>>◌, return, throw, reads, try_catch}
use by_framework_ts.Registry.Executions.{initialize_execution}
use by_framework_ts.Registry.Members.{has_online_agent_type}
use by_framework_ts.Liveness.WaitRegistration.{RegisterWaitParams, register_wait}
use by_framework_ts.Liveness.WaitReply.{StandInReplyParams, stand_in_reply, failure_reply_data}
use by_framework_ts.Liveness.WaitSweeper.Triage.{task_group_field_total, task_group_field_aborted}
use by_framework_ts.Worker.Returns.{first_chars, task_group_ttl_seconds}
use by_framework_ts.Worker.Groups.{task_group_field_completed}
use by_framework_ts.Dispatch.{
  generate_ask_agent_message_id, generate_execution_id, without_key, given,
  default_reply_timeout_ms,
}
use by_framework_ts.Context.{
  Context, Flags, Ports, suspended_in, transferred, traced_metadata, World, lift, sets,
  trace_dispatch,
}

module _ (env : Env) (ctx : Context) (ports : Ports env) (spell : Key → Text) where
  open env use {Store, uuid, hset, expire, xadd}

  -- `_probeGroupMemberOnline`: a probe that fails counts as an answer.
  unfoldable pub probe_group_member_online : Text → Async Store Bool
  probe_group_member_online agent_type =
      try_catch (has_online_agent_type env agent_type >>= (λ found. return found.0)) (return true)

  -- `_pendingGroupReplies.push(standInReply(…))`
  unfoldable pub push_stand_in : Option ResumeCommand → Async (World env) (Unit {0})
  unfolding with_pending
  push_stand_in none = throw
  push_stand_in (some reply) = sets env (with_pending reply)

  unfoldable pub queue_undispatched_member_failure :
      Group → GroupTask → Text → JsonRecord → Async (World env) (Unit {0})
  unfolding member_wait stand_in_reply undispatched_params push_stand_in
  queue_undispatched_member_failure g task message_id metadata = do
    lift env (register_wait env (member_wait ctx g message_id))
    fresh ← lift env (reads uuid)
    if is_empty ctx.current_agent_type
        then return tt
        else push_stand_in
            (stand_in_reply (undispatched_params ctx g task message_id metadata) fresh)

  unfoldable pub refused_record : Group → GroupTask → Text → Text → Execution
  unfolding member_record member_metadata generate_execution_id
  refused_record g task message_id fresh =
      member_record ctx g task message_id (generate_execution_id fresh)
        (member_metadata ports.span_id_hex task message_id) ctx.current_agent_type AgentState.failed
        ((codes "stream_name", text (spell (ctrl_stream task.target_agent_type)))
          ∷ (codes "availability_error", text (not_found_error task.target_agent_type))
          ∷ (codes "availability_error_code", text not_found_code)
          ∷ [])

  unfoldable pub sent_record : Group → GroupTask → Text → Text → Execution
  unfolding member_record member_metadata generate_execution_id
  sent_record g task message_id fresh =
      member_record ctx g task message_id (generate_execution_id fresh)
        (member_metadata ports.span_id_hex task message_id)
        (if g.wait then ctx.current_agent_type else []) AgentState.queued
        ((codes "stream_name", text (spell (ctrl_stream task.target_agent_type))) ∷ [])

  -- The branch for a member that nobody can take.
  unfoldable pub refuse_member : Group → GroupTask → Text → Async (World env) (Unit {0})
  unfolding member_metadata
  refuse_member g task message_id = do
    fresh ← lift env (reads uuid)
    let metadata = member_metadata ports.span_id_hex task message_id
    lift env (initialize_execution env (refused_record g task message_id fresh))
    queue_undispatched_member_failure g task message_id metadata
    lift env ports.call_error

  -- The catch of the send: the plug-ins are told, and the group is marked aborted where it has an account.
  unfoldable pub abort_group : Group → Async Store (Unit {0})
  abort_group g = do
    ports.call_error
    (if g.wait
        then try_catch (hset (task_group g.id) task_group_field_aborted (number 1)) (return tt)
        else return tt)
    throw

  unfoldable pub deliver_member : Group → Key → AskAgentCommand → Async Store (Unit {0})
  unfolding trace_dispatch
  deliver_member g stream c = do
    try_catch (xadd stream (command (ask_agent c))) (abort_group g)
    trace_dispatch env ctx ports
    ports.call_complete

  unfoldable pub await_member : Group → Text → Async Store (Unit {0})
  unfolding member_wait
  await_member g message_id =
      if g.wait then register_wait env (member_wait ctx g message_id) else return tt

  -- The branch for a member that is sent.
  unfoldable pub send_member : Group → GroupTask → Text → AskAgentCommand → Async Store (Unit {0})
  unfolding await_member
  send_member g task message_id c = do
    fresh ← reads uuid
    initialize_execution env (sent_record g task message_id fresh)
    await_member g message_id
    deliver_member g (ctrl_stream task.target_agent_type) c

  -- Only a member of a group with an account is probed.
  unfoldable pub probe_member : Group → Text → Async Store Bool
  probe_member g agent_type = if g.wait then probe_group_member_online agent_type else return true

  -- The probe, and the branch that it leads to.
  unfoldable pub place_member :
      Group → GroupTask → Text → AskAgentCommand → Async (World env) (Unit {0})
  place_member g task message_id c = do
    online ← lift env (probe_member g task.target_agent_type)
    elim online [
      | true ↦ lift env (send_member g task message_id c)
      | false ↦ refuse_member g task message_id
    ]

  -- The body of the loop.
  unfoldable pub dispatch_member : Group → GroupTask → Async (World env) DispatchedTask
  unfolding member_command generate_ask_agent_message_id
  dispatch_member g task = do
    fresh ← lift env (reads uuid)
    let message_id = generate_ask_agent_message_id fresh
    elim (member_command ctx ports.span_id_hex g task message_id) [
      | none ↦ throw
      | some c ↦ do
        lift env ports.call_start
        place_member g task message_id c
        return (record { message_id = message_id; target_agent_type = task.target_agent_type })
    ]

  unfoldable pub dispatch_members : Group → List GroupTask → Async (World env) (List DispatchedTask)
  dispatch_members g [] = return []
  dispatch_members g (task ∷ tasks) = do
    first ← dispatch_member g task
    rest ← dispatch_members g tasks
    return (first ∷ rest)

  -- The account of the group. An HSET of several fields is one of each.
  unfoldable pub open_account : Group → ℕ → Async Store (Unit {0})
  open_account g total = do
    hset (task_group g.id) task_group_field_total (number total)
    hset (task_group g.id) task_group_field_completed (number 0)
    hset (task_group g.id) (codes "source_agent_type") (plain ctx.current_agent_type)
    expire (task_group g.id) task_group_ttl_seconds

  unfoldable pub begin_group : Group → ℕ → Async (World env) (Unit {0})
  unfolding suspended_in transferred
  begin_group g total =
      if g.wait
      then lift env (open_account g total) >> sets env (suspended_in AgentState.waiting_agent)
      else sets env transferred

  unfoldable pub dispatch_group :
      List GroupTask → Bool → Text → Option ℕ → Async (World env) DispatchGroupResult
  unfolding first_chars
  dispatch_group [] wait parent_message_id timeout =
      return (record { status = codes "EMPTY"; task_group_id = []; dispatched_tasks = [] })
  dispatch_group (task ∷ tasks) wait parent_message_id timeout = do
    fresh ← lift env (reads uuid)
    let g : Group = record {
      id = codes "tg-" ++ first_chars 8 fresh;
      wait = wait;
      parent_message_id = or_text parent_message_id ctx.current_message_id;
      reply_timeout_ms = timeout;
    }
    begin_group g (length (task ∷ tasks))
    dispatched ← dispatch_members g (task ∷ tasks)
    lift env (trace_dispatch env ctx ports)
    return (record {
      status = codes "GROUP_QUEUED";
      task_group_id = g.id;
      dispatched_tasks = dispatched;
    })
