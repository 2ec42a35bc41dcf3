-- ===== src/Protocol/Header.antt =====
-- src/protocol/message_header.ts. The constructor turns each missing optional field into '' or {}.
use by_framework_ts.Common.{Text}
use by_framework_ts.Protocol.Json.{JsonRecord}

pub record MessageHeader : Type 0 where
  pub message_id : Text
  pub session_id : Text
  pub trace_id : Text
  pub source_agent_type : Text
  pub target_agent_type : Text
  pub parent_message_id : Text
  pub task_group_id : Text
  pub user_code : Text
  pub user_name : Text
  pub metadata : JsonRecord
  pub trace_parent_span_id : Text
  pub langfuse_parent_observation_id : Text
