-- ===== src/Dispatch/Build.antt =====
-- src/dispatch/ask_agent_build.ts and src/dispatch/types.ts: what a call is made of. The records and the
-- results of a call stand here too.
use by_framework_ts.Common.{
  ℕ, leb, Text, codes, text_eq, is_empty, or_text, Bool, true, false, [], ◌∷◌, ◌++◌, Option, none,
  some, if◌then◌else◌,
}
use by_framework_ts.Protocol.Json.{JsonValue, JsonRecord, text}
use by_framework_ts.Protocol.AgentState
use by_framework_ts.Protocol.Header.{MessageHeader}
use by_framework_ts.Protocol.Commands.{AskAgentCommand}
use by_framework_ts.Protocol.Codec.{ask_agent_command, ask_agent_to_dict}
use by_framework_ts.Redis.Keys.{Key, ctrl_stream}
use by_framework_ts.Redis.Values.{Execution}
use by_framework_ts.Liveness.WaitRegistration.{RegisterWaitParams}
use by_framework_ts.Availability.{
  DeliveryIntent, AvailabilityResult, AvailabilityStatus, deliver_now, wait_and_deliver,
  queue_pending, reject, fallback_to_other_agent_type, fail_fast,
}
use by_framework_ts.Worker.Returns.{first_chars, client_source_agent_type}

abbrev pub agent_type_not_found : Text
agent_type_not_found = codes "AGENT_TYPE_NOT_FOUND"

abbrev pub default_reply_timeout_ms : ℕ
default_reply_timeout_ms = 3_600_000

-- A missing text is '', and a missing object {}.
pub record CallAgentPublishInput : Type 0 where
  pub session_id : Text
  pub trace_id : Text
  pub source_agent_type : Text
  pub default_parent_message_id : Text
  pub target_agent_type : Text
  pub content : JsonValue
  pub extra_payload : JsonRecord
  pub wait_for_reply : Option Bool
  pub user_code : Text
  pub user_name : Text
  pub task_group_id : Text
  pub metadata : JsonRecord
  pub message_id : Text
  pub parent_message_id : Text
  pub route_policy : Option Text
  pub availability_timeout_ms : Option ℕ
  pub region : Text
  pub priority : ℕ
  pub reply_timeout_ms : Option ℕ
  pub langfuse_parent_observation_id : Text

pub data RuntimeHint : Type 0 where
  suspend transfer no_hint : RuntimeHint

pub record CallAgentPublishResult : Type 0 where
  pub status : Text
  pub message_id : Text
  pub parent_message_id : Text
  pub target_agent_type : Text
  pub error : Text
  pub error_code : Text
  pub runtime_hint : RuntimeHint
  pub route_status : AvailabilityStatus

pub record PublishIds : Type 0 where
  pub message_id : Text
  pub parent_message_id : Text
  pub wait_for_reply : Bool

-- `value ?? other`
abbrev pub given {ℓ} : {A : Type ℓ} → Option A → A → A
given none other = other
given (some v) other = v

unfoldable pub generate_ask_agent_message_id : Text → Text
unfolding first_chars
generate_ask_agent_message_id fresh = codes "msg-" ++ first_chars 8 fresh

unfoldable pub generate_execution_id : Text → Text
unfolding first_chars
generate_execution_id fresh = codes "exec-" ++ first_chars 8 fresh

unfoldable pub resolve_call_agent_publish_ids : CallAgentPublishInput → Text → PublishIds
resolve_call_agent_publish_ids input fresh = record {
  message_id = or_text input.message_id (generate_ask_agent_message_id fresh);
  parent_message_id = or_text input.parent_message_id input.default_parent_message_id;
  wait_for_reply = given input.wait_for_reply true;
}

unfoldable pub retarget_ask_agent_command : AskAgentCommand → Text → AskAgentCommand
retarget_ask_agent_command c target = record c {
  header = record c.header { target_agent_type = target };
}

-- The entries of an object but those of a key.
unfoldable pub without_key : Text → JsonRecord → JsonRecord
without_key k [] = []
without_key k ((j, v) ∷ o) =
    let rest = without_key k o in if text_eq j k then rest else (j, v) ∷ rest

-- The header of a dispatched command: only a caller that waits is named as its source.
unfoldable pub dispatch_header : CallAgentPublishInput → PublishIds → MessageHeader
dispatch_header input ids = record {
  message_id = ids.message_id;
  session_id = input.session_id;
  trace_id = input.trace_id;
  source_agent_type = if ids.wait_for_reply then input.source_agent_type else [];
  target_agent_type = input.target_agent_type;
  parent_message_id = ids.parent_message_id;
  task_group_id = input.task_group_id;
  user_code = input.user_code;
  user_name = input.user_name;
  metadata = input.metadata;
  trace_parent_span_id = [];
  langfuse_parent_observation_id = input.langfuse_parent_observation_id;
}

-- The command of `buildAskAgentPublishArtifacts`. The constructor throws where there is no content.
unfoldable pub build_command : CallAgentPublishInput → PublishIds → Option AskAgentCommand
unfolding ask_agent_command without_key dispatch_header
build_command input ids =
    ask_agent_command (dispatch_header input ids) input.content ids.wait_for_reply
      (without_key (codes "wait_for_reply") input.extra_payload)

-- `ExecutionSourceAgentFallback`
pub data SourceFallback : Type 0 where
  client_fallback no_fallback : SourceFallback

unfoldable pub source_of : SourceFallback → MessageHeader → Text
source_of client_fallback h = or_text h.source_agent_type client_source_agent_type
source_of no_fallback h = h.source_agent_type

unfoldable pub build_execution_record_for_ask_agent_command :
    AskAgentCommand → Text → Text → SourceFallback → Execution
unfolding source_of
build_execution_record_for_ask_agent_command c stream_name execution_id fallback = record {
  execution_id = execution_id;
  message_id = c.header.message_id;
  session_id = c.header.session_id;
  parent_message_id = c.header.parent_message_id;
  task_group_id = c.header.task_group_id;
  trace_id = c.header.trace_id;
  source_agent_type = source_of fallback c.header;
  target_agent_type = c.header.target_agent_type;
  worker_id = [];
  status = AgentState.queued;
  metadata = c.header.metadata;
  cancel_requested = false;
  cancel_reason = [];
  created_at = 0;
  updated_at = 0;
  started_at = 0;
  finished_at = 0;
  timeline = [];
  extra = (codes "stream_name", text stream_name) ∷ [];
}

unfoldable pub clamp_inline_wait : ℕ → Option ℕ → Option ℕ
clamp_inline_wait bound none = none
clamp_inline_wait bound (some requested) =
    if leb requested bound then some requested else some bound

-- The spelling of a verdict.
unfoldable pub status_text : AvailabilityStatus → Text
status_text deliver_now = codes "DELIVER_NOW"
status_text wait_and_deliver = codes "WAIT_AND_DELIVER"
status_text queue_pending = codes "QUEUE_PENDING"
status_text reject = codes "REJECT"
status_text fallback_to_other_agent_type = codes "FALLBACK_TO_OTHER_AGENT_TYPE"

unfoldable pub policy_of : CallAgentPublishInput → Text
policy_of input = given input.route_policy fail_fast

-- The intent that the availability port hands to the router.
unfoldable pub intent_of :
    ℕ → CallAgentPublishInput → AskAgentCommand → Text → Text → DeliveryIntent
unfolding clamp_inline_wait ask_agent_to_dict policy_of
intent_of max_inline_wait input c execution_id message_id = record {
  execution_id = execution_id;
  message_id = message_id;
  session_id = input.session_id;
  trace_id = input.trace_id;
  source = input.source_agent_type;
  target_agent_type = input.target_agent_type;
  user_code = input.user_code;
  region = input.region;
  priority = input.priority;
  policy = or_text (policy_of input) fail_fast;
  timeout_ms = clamp_inline_wait max_inline_wait input.availability_timeout_ms;
  command_payload = ask_agent_to_dict c;
  metadata = input.metadata;
}

-- The wait of a caller for a dispatched command.
unfoldable pub dispatch_wait : CallAgentPublishInput → PublishIds → RegisterWaitParams
dispatch_wait input ids = record {
  session_id = input.session_id;
  parent_message_id = ids.parent_message_id;
  child_message_id = ids.message_id;
  task_group_id = some input.task_group_id;
  timeout_ms = given input.reply_timeout_ms default_reply_timeout_ms;
}

-- `availability.selectedAgentType || other`, and the command that is sent.
unfoldable pub selected_command : AskAgentCommand → AvailabilityResult → AskAgentCommand
unfolding retarget_ask_agent_command
selected_command c v =
    if is_empty v.selected_agent_type then c else retarget_ask_agent_command c v.selected_agent_type

-- `availability.streamName || artifacts.ctrlStreamName`
unfoldable pub stream_of : AskAgentCommand → AvailabilityResult → Key
stream_of c v = given v.stream_name (ctrl_stream c.header.target_agent_type)

unfoldable pub rejected_record : Execution → Text → AvailabilityResult → Execution
unfolding status_text
rejected_record e policy v = record e {
  status = AgentState.failed;
  extra =
      e.extra
      ++ (codes "route_policy", text policy)
        ∷ (codes "route_status", text (status_text v.status))
        ∷ (codes "availability_error", text v.error)
        ∷ (codes "availability_error_code", text (or_text v.error_code agent_type_not_found))
        ∷ [];
}

unfoldable pub dispatched_record :
    (spell : Key → Text) → AskAgentCommand → Execution → Text → AvailabilityResult → Execution
unfolding status_text stream_of
dispatched_record spell c e policy v = record e {
  target_agent_type = or_text v.selected_agent_type e.target_agent_type;
  extra =
      (codes "stream_name", text (spell (stream_of c v)))
      ∷ (codes "route_policy", text policy)
      ∷ (codes "route_status", text (status_text v.status))
      ∷ (codes "selected_agent_type", text v.selected_agent_type)
      ∷ [];
}

unfoldable pub rejected_call :
    CallAgentPublishInput → PublishIds → AvailabilityResult → CallAgentPublishResult
rejected_call input ids v = record {
  status = AgentState.failed;
  message_id = ids.message_id;
  parent_message_id = ids.parent_message_id;
  target_agent_type = input.target_agent_type;
  error = v.error;
  error_code = or_text v.error_code agent_type_not_found;
  runtime_hint = no_hint;
  route_status = v.status;
}

unfoldable pub queued_call :
    CallAgentPublishInput → PublishIds → AvailabilityResult → CallAgentPublishResult
queued_call input ids v = record {
  status = AgentState.queued;
  message_id = ids.message_id;
  parent_message_id = ids.parent_message_id;
  target_agent_type = or_text v.selected_agent_type input.target_agent_type;
  error = [];
  error_code = [];
  runtime_hint = if ids.wait_for_reply then suspend else transfer;
  route_status = v.status;
}

abbrev pub is_reject : AvailabilityStatus → Bool
is_reject reject = true
is_reject _ = false

abbrev pub is_queue_pending : AvailabilityStatus → Bool
is_queue_pending queue_pending = true
is_queue_pending _ = false
