-- ===== src/Context/Groups/Members.antt =====
-- src/context.ts: what `dispatchGroup` makes for a member of a group.
use by_framework_ts.Common.{
  ℕ, Text, codes, Bool, false, List, [], ◌∷◌, ◌++◌, Option, some, if◌then◌else◌,
}
use by_framework_ts.Protocol.Json.{JsonRecord, text}
use by_framework_ts.Protocol.AgentState
use by_framework_ts.Protocol.Header.{MessageHeader}
use by_framework_ts.Protocol.Commands.{AskAgentCommand, ResumeCommand}
use by_framework_ts.Protocol.Codec.{ask_agent_command}
use by_framework_ts.Redis.Values.{Execution}
use by_framework_ts.Liveness.WaitRegistration.{RegisterWaitParams}
use by_framework_ts.Liveness.WaitReply.{StandInReplyParams, failure_reply_data}
use by_framework_ts.Dispatch.{without_key, given, default_reply_timeout_ms}
use by_framework_ts.Context.{Context, Flags, traced_metadata}

pub record GroupTask : Type 0 where
  pub target_agent_type : Text
  pub content : Text
  pub payload : JsonRecord
  pub metadata : JsonRecord

-- What the members of a group share.
pub record Group : Type 0 where
  pub id : Text
  pub wait : Bool
  pub parent_message_id : Text
  pub reply_timeout_ms : Option ℕ

pub record DispatchedTask : Type 0 where
  pub message_id : Text
  pub target_agent_type : Text

pub record DispatchGroupResult : Type 0 where
  pub status : Text
  pub task_group_id : Text
  pub dispatched_tasks : List DispatchedTask

abbrev pub synthesized_by_dispatch : Text
synthesized_by_dispatch = codes "dispatch"

unfoldable pub member_metadata : (Text → Text) → GroupTask → Text → JsonRecord
unfolding traced_metadata
member_metadata span_id_hex task message_id = traced_metadata span_id_hex task.metadata message_id

unfoldable pub member_header : Context → (Text → Text) → Group → GroupTask → Text → MessageHeader
unfolding member_metadata
member_header ctx span_id_hex g task message_id = record {
  message_id = message_id;
  session_id = ctx.session_id;
  trace_id = ctx.trace_id;
  source_agent_type = if g.wait then ctx.current_agent_type else [];
  target_agent_type = task.target_agent_type;
  parent_message_id = g.parent_message_id;
  task_group_id = g.id;
  user_code = [];
  user_name = [];
  metadata = member_metadata span_id_hex task message_id;
  trace_parent_span_id = span_id_hex (message_id ++ codes ":client.dispatch");
  langfuse_parent_observation_id = ctx.trace_parent_observation_id;
}

unfoldable pub member_command :
    Context → (Text → Text) → Group → GroupTask → Text → Option AskAgentCommand
unfolding member_header ask_agent_command without_key
member_command ctx span_id_hex g task message_id =
    ask_agent_command (member_header ctx span_id_hex g task message_id) (text task.content) g.wait
      (without_key (codes "wait_for_reply") task.payload)

-- The record of a member, with its source and status and its further fields.
unfoldable pub member_record :
    Context → Group → GroupTask → Text → Text → JsonRecord → Text → Text → JsonRecord → Execution
member_record ctx g task message_id execution_id metadata source status extra = record {
  execution_id = execution_id;
  message_id = message_id;
  session_id = ctx.session_id;
  parent_message_id = g.parent_message_id;
  task_group_id = g.id;
  trace_id = ctx.trace_id;
  source_agent_type = source;
  target_agent_type = task.target_agent_type;
  worker_id = [];
  status = status;
  metadata = metadata;
  cancel_requested = false;
  cancel_reason = [];
  created_at = 0;
  updated_at = 0;
  started_at = 0;
  finished_at = 0;
  timeline = [];
  extra = extra;
}

unfoldable pub member_wait : Context → Group → Text → RegisterWaitParams
member_wait ctx g message_id = record {
  session_id = ctx.session_id;
  parent_message_id = g.parent_message_id;
  child_message_id = message_id;
  task_group_id = some g.id;
  timeout_ms = given g.reply_timeout_ms default_reply_timeout_ms;
}

abbrev pub not_found_error : Text → Text
not_found_error agent_type =
    codes "No alive worker found with agent type '" ++ agent_type ++ codes "'"

abbrev pub not_found_code : Text
not_found_code = codes "AGENT_TYPE_NOT_FOUND"

-- The reply that stands in for that of a member whose agent type nobody serves.
unfoldable pub undispatched_params :
    Context → Group → GroupTask → Text → JsonRecord → StandInReplyParams
unfolding failure_reply_data
undispatched_params ctx g task message_id metadata = record {
  session_id = ctx.session_id;
  caller_message_id = g.parent_message_id;
  caller_agent_type = ctx.current_agent_type;
  child_message_id = message_id;
  child_agent_type = task.target_agent_type;
  task_group_id = g.id;
  trace_id = ctx.trace_id;
  status = AgentState.failed;
  content = text [];
  reply_data =
      failure_reply_data (not_found_error task.target_agent_type) not_found_code message_id;
  extra_payload = [];
  metadata = metadata;
  error_code = not_found_code;
  synthesized_by = synthesized_by_dispatch;
  user_code = ctx.user_code;
  user_name = ctx.user_name;
}

unfoldable pub with_pending : ResumeCommand → Flags → Flags
with_pending reply f = record f { pending_group_replies = f.pending_group_replies ++ reply ∷ [] }
