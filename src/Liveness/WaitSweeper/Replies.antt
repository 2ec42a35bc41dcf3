-- ===== src/Liveness/WaitSweeper/Replies.antt =====
-- src/liveness/wait_sweeper.ts, `emitReply`, `synthesizeFailure` and `recoverFinishedChild`.
use by_framework_ts.Common.{
  Text, codes, text_eq, is_empty, or_text, Bool, true, false, ◌||◌, ◌++◌, [], Option, none, some,
  if◌then◌else◌, insert,
}
use by_framework_ts.Protocol.Json.{JsonValue, JsonRecord, text, null}
use by_framework_ts.Protocol.AgentState
use by_framework_ts.Protocol.State.{base_status}
use by_framework_ts.Protocol.Commands.{ResumeCommand, resume}
use by_framework_ts.Redis.Keys.{ctrl_stream, task_group_results}
use by_framework_ts.Redis.Values.{Value, command, result, StoredResult, Execution}
use by_framework_ts.Redis.Env.{Env}
use by_framework_ts.Redis.Async.{Async, ◌>>=◌, ◌>>◌, return, throw, reads}
use by_framework_ts.Liveness.WaitReply.{
  StandInReplyParams, stand_in_reply, failure_reply_data, synthesized_by_sweeper,
}
use by_framework_ts.Liveness.WaitSweeper.Deadlines.{DueEntry, extend_deadline}

-- The `OUTCOME_` constants.
pub data Outcome : Type 0 where
  malformed caller_missing caller_terminal caller_lost caller_not_suspended : Outcome
  ask_user_skipped group_gone group_aborted group_already_joined : Outcome
  child_waiting child_alive recovered worker_lost never_started timed_out : Outcome
  unroutable error pruned : Outcome

-- `LivenessErrorCode`
abbrev pub child_worker_lost : Text
child_worker_lost = codes "CHILD_WORKER_LOST"

abbrev pub child_timeout : Text
child_timeout = codes "CHILD_TIMEOUT"

abbrev pub child_never_started : Text
child_never_started = codes "CHILD_NEVER_STARTED"

abbrev pub reply_lost_recovered : Text
reply_lost_recovered = codes "REPLY_LOST_RECOVERED"

-- `singleCallTaskGroupId`
unfoldable pub single_call_task_group_id : Text → Text
single_call_task_group_id child_message_id = codes "tg-single-" ++ child_message_id

-- The parameter of `emitReply`. The child is missing where no execution was recorded.
pub record ReplyParams : Type 0 where
  pub child : Option Execution
  pub status : Text
  pub content : JsonValue
  pub reply_data : JsonValue
  pub extra_payload : JsonRecord
  pub error_code : Text
  pub metadata : JsonRecord

abbrev pub child_field : (Execution → Text) → Option Execution → Text
child_field f none = []
child_field f (some e) = f e

-- `params.child.source_agent_type || caller.target_agent_type`
unfoldable pub caller_agent_type : Option Execution → Execution → Text
caller_agent_type child caller =
    or_text (child_field (λ e. e.source_agent_type) child) caller.target_agent_type

unfoldable pub stand_in_params : Text → DueEntry → Execution → ReplyParams → StandInReplyParams
stand_in_params worker_id due caller p = record {
  session_id = due.entry.session_id;
  caller_message_id = due.entry.parent_message_id;
  caller_agent_type = caller_agent_type p.child caller;
  child_message_id = due.entry.child_message_id;
  child_agent_type = child_field (λ e. e.target_agent_type) p.child;
  task_group_id = due.entry.task_group_id;
  trace_id = or_text (child_field (λ e. e.trace_id) p.child) caller.trace_id;
  status = p.status;
  content = p.content;
  reply_data = p.reply_data;
  extra_payload = p.extra_payload;
  metadata = insert (codes "sweeper_worker_id") (text worker_id) p.metadata;
  error_code = p.error_code;
  synthesized_by = synthesized_by_sweeper;
  user_code = [];
  user_name = [];
}

pub result_lost_message : DueEntry → Execution → Text
result_lost_message due child =
    codes "Sub-task "
    ++ (due.entry.child_message_id
        ++ (codes " finished with "
            ++ (base_status child.status
                ++ codes " but neither its reply nor its stored result is available")))

module _ (env : Env) (worker_id : Text) where
  open env use {Store, uuid, xadd, hget}

  -- The command that was built goes out, and the entry stays in the index with a new deadline.
  unfoldable pub send_reply : DueEntry → Text → Option ResumeCommand → Async Store Bool
  send_reply due agent_type none = throw
  send_reply due agent_type (some reply) = do
    xadd (ctrl_stream agent_type) (command (resume reply))
    extend_deadline env due
    return true

  unfoldable pub emit_reply : DueEntry → Execution → ReplyParams → Async Store Bool
  emit_reply due caller p = elim (is_empty (caller_agent_type p.child caller)) [
    | true ↦ extend_deadline env due >> return false
    | false ↦ do
      fresh ← reads uuid
      send_reply due (caller_agent_type p.child caller)
          (stand_in_reply (stand_in_params worker_id due caller p) fresh)
  ]

  abbrev pub child_metadata : Option Execution → JsonRecord
  child_metadata none = []
  child_metadata (some e) = e.metadata

  unfoldable pub synthesize_failure :
      DueEntry → Execution → Option Execution → Text → Text → Outcome → Text → Async Store Outcome
  synthesize_failure due caller child error_code message outcome status = do
    emitted ← emit_reply due caller (record {
      child = child;
      status = status;
      content = text [];
      reply_data = failure_reply_data message error_code due.entry.child_message_id;
      extra_payload = [];
      error_code = error_code;
      metadata = child_metadata child;
    })
    return (if emitted then outcome else unroutable)

  abbrev pub stored_result : Option Value → Option StoredResult
  stored_result (some (result r)) = some r
  stored_result _ = none

  unfoldable pub load_stored_result : Text → Async Store (Option StoredResult)
  load_stored_result child_message_id = do
    raw ← hget (task_group_results (single_call_task_group_id child_message_id)) child_message_id
    return (stored_result raw)

  -- The status of the failure that stands in for a result that is lost.
  abbrev pub lost_status : Text → Text
  lost_status status =
      if text_eq status AgentState.failed || text_eq status AgentState.cancelled
      then status
      else AgentState.failed

  -- `stored.content || ''`
  abbrev pub or_blank_content : JsonValue → JsonValue
  or_blank_content null = text []
  or_blank_content c = c

  -- With the result that was stored, or without one.
  unfoldable pub recover_from :
      DueEntry → Execution → Execution → Option StoredResult → Async Store Outcome
  recover_from due caller child none =
      synthesize_failure due caller (some child) reply_lost_recovered
        (result_lost_message due child) recovered (lost_status (base_status child.status))
  recover_from due caller child (some r) = do
    emit_reply due caller (record {
      child = some child;
      status = or_text r.status (base_status child.status);
      content = or_blank_content r.content;
      reply_data = r.reply_data;
      extra_payload = r.extra_payload;
      error_code = reply_lost_recovered;
      metadata = r.metadata;
    })
    return recovered

  unfoldable pub recover_finished_child : DueEntry → Execution → Execution → Async Store Outcome
  recover_finished_child due caller child = do
    stored ← load_stored_result due.entry.child_message_id
    recover_from due caller child stored
