-- ===== src/Redis/Values.antt =====
-- What the modelled code stores in Redis, decoded: execution records (src/registry.ts), stored results
-- (src/worker.ts), worker presence, commands, and plain values.
use by_framework_ts.Common.{ℕ, Text, Bool, List, Option}
use by_framework_ts.Protocol.Json.{JsonValue, JsonRecord}
use by_framework_ts.Protocol.Commands.{GatewayCommand}

pub record TimelineEntry : Type 0 where
  pub status : Text
  pub timestamp : ℕ

-- The fields of an execution record that the modelled code reads or writes. A missing one is '',
-- 0, false or {}, which is how the code reads it.
pub record Execution : Type 0 where
  pub execution_id : Text
  pub message_id : Text
  pub session_id : Text
  pub parent_message_id : Text
  pub task_group_id : Text
  pub trace_id : Text
  pub source_agent_type : Text
  pub target_agent_type : Text
  pub worker_id : Text
  pub status : Text
  pub metadata : JsonRecord
  pub cancel_requested : Bool
  pub cancel_reason : Text
  pub created_at : ℕ
  pub updated_at : ℕ
  pub started_at : ℕ
  pub finished_at : ℕ
  pub timeline : List TimelineEntry
  -- The fields that no modelled code reads.
  pub extra : JsonRecord

-- `resultData` of src/worker.ts.
pub record StoredResult : Type 0 where
  pub status : Text
  pub reply_data : JsonValue
  pub content : JsonValue
  pub target_agent_type : Text
  pub metadata : JsonRecord
  pub extra_payload : JsonRecord

-- `DecodedPresence` of src/registry.ts.
pub record Presence : Type 0 where
  pub token : Option Text
  pub last_seen : ℕ
  pub is_legacy : Bool
  pub ip_address : Text

pub data Value : Type 0 where
  plain : Text → Value
  number : ℕ → Value
  execution : Execution → Value
  result : StoredResult → Value
  presence : Presence → Value
  lock : Text → Value
  command : GatewayCommand → Value
  -- An object that the control plane or an offline delivery exchanges.
  json : JsonRecord → Value
  -- A text that `JSON.parse` refuses.
  unreadable : Value
