-- ===== src/Liveness/WaitReply.antt =====
-- src/liveness/wait_reply.ts: the reply that stands in for one that will not come.
pub mod Addressing
use by_framework_ts.Common.{Text, codes, or_text, List, [], ◌∷◌, Option, none, some, spread}
use by_framework_ts.Protocol.Json.{JsonValue, JsonRecord, text, obj, fields}
use by_framework_ts.Protocol.Header.{MessageHeader}
use by_framework_ts.Protocol.Commands.{ResumeCommand, resume_command, GatewayCommand, resume}
use by_framework_ts.Redis.Keys.{ctrl_stream}
use by_framework_ts.Redis.Values.{command}
use by_framework_ts.Redis.Env.{Env}
use by_framework_ts.Redis.Async.{Async, ◌>>=◌, ◌>>◌, return, try_catch}

abbrev pub synthesized_by_sweeper : Text
synthesized_by_sweeper = codes "wait_sweeper"

unfoldable pub failure_reply_data : Text → Text → Text → JsonValue
failure_reply_data error error_code child_message_id = obj (
    fields (
      (codes "error", text error)
      ∷ (codes "error_code", text error_code)
      ∷ (codes "child_message_id", text child_message_id)
      ∷ []))

-- `StandInReplyParams`; an optional text that is missing is ''.
pub record StandInReplyParams : Type 0 where
  pub session_id : Text
  pub caller_message_id : Text
  pub caller_agent_type : Text
  pub child_message_id : Text
  pub child_agent_type : Text
  pub task_group_id : Text
  pub trace_id : Text
  pub status : Text
  pub content : JsonValue
  pub reply_data : JsonValue
  pub extra_payload : JsonRecord
  pub metadata : JsonRecord
  pub error_code : Text
  pub synthesized_by : Text
  pub user_code : Text
  pub user_name : Text

-- The header of the stand-in; `fresh` is the new uuid that takes the place of a missing trace id.
unfoldable pub stand_in_header : StandInReplyParams → Text → MessageHeader
stand_in_header p fresh = record {
  message_id = p.caller_message_id;
  session_id = p.session_id;
  trace_id = or_text p.trace_id fresh;
  source_agent_type = p.child_agent_type;
  target_agent_type = p.caller_agent_type;
  parent_message_id = p.child_message_id;
  task_group_id = p.task_group_id;
  user_code = p.user_code;
  user_name = p.user_name;
  metadata = spread p.metadata (
      (codes "synthesized_by", text p.synthesized_by)
      ∷ (codes "liveness_error_code", text p.error_code)
      ∷ (codes "child_message_id", text p.child_message_id)
      ∷ []);
  trace_parent_span_id = [];
  langfuse_parent_observation_id = [];
}

unfoldable pub stand_in_reply : StandInReplyParams → Text → Option ResumeCommand
unfolding stand_in_header
stand_in_reply p fresh =
    resume_command (stand_in_header p fresh) p.content p.status p.reply_data p.extra_payload

module _ (env : Env) where
  open env use {Store, xadd}

  -- `flushPendingGroupReplies` on the replies that the context hands over: one that cannot be
  -- delivered does not stop the others.
  pub flush_pending_group_replies : List ResumeCommand → Async Store (Unit {0})
  flush_pending_group_replies [] = return tt
  flush_pending_group_replies (reply ∷ replies) = do
    try_catch (xadd (ctrl_stream reply.header.target_agent_type) (command (resume reply)))
        (return tt)
    flush_pending_group_replies replies
