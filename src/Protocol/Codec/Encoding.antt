-- ===== src/Protocol/Codec/Encoding.antt =====
-- The commands and their constructors, and the objects that are sent for them.
use by_framework_ts.Common.{
  Text, codes, text_eq, is_empty, Bool, List, [], ◌∷◌, ◌++◌, Option, none, some, if◌then◌else◌,
  includes,
}
use by_framework_ts.Protocol.Json.{JsonValue, JsonRecord, text, bool, obj, fields}
use by_framework_ts.Protocol.Header.{MessageHeader}
use by_framework_ts.Protocol.Commands.{AskAgentCommand, ResumeCommand, has_content}

-- `ActionType`
abbrev pub ask_agent_action : Text
ask_agent_action = codes "ASK_AGENT"

abbrev pub resume_action : Text
resume_action = codes "RESUME"

abbrev pub cancel_task_action : Text
cancel_task_action = codes "CANCEL_TASK"

abbrev pub suspend_worker_action : Text
suspend_worker_action = codes "SUSPEND_WORKER"

abbrev pub resume_worker_action : Text
resume_worker_action = codes "RESUME_WORKER"

abbrev pub evict_worker_action : Text
evict_worker_action = codes "EVICT_WORKER"

pub record CancelTaskCommand : Type 0 where
  pub header : MessageHeader
  pub target_message_id : Text
  pub target_execution_id : Text
  pub target_worker_id : Text
  pub reason : Text
  pub requested_by : Text
  pub cancel_mode : Text

pub record SuspendWorkerCommand : Type 0 where
  pub header : MessageHeader
  pub reason : Text

pub record ResumeWorkerCommand : Type 0 where
  pub header : MessageHeader

pub record EvictWorkerCommand : Type 0 where
  pub header : MessageHeader
  pub reason : Text
  pub force : Bool

-- The commands that are registered.
pub data BaseCommand : Type 0 where
  asks : AskAgentCommand → BaseCommand
  resumes : ResumeCommand → BaseCommand
  cancels : CancelTaskCommand → BaseCommand
  suspends : SuspendWorkerCommand → BaseCommand
  resumes_worker : ResumeWorkerCommand → BaseCommand
  evicts : EvictWorkerCommand → BaseCommand

-- The constructors that throw, as functions that give none.
unfoldable pub ask_agent_command :
    MessageHeader → JsonValue → Bool → JsonRecord → Option AskAgentCommand
unfolding has_content
ask_agent_command header content wait_for_reply extra_payload =
    if has_content content
    then some (record {
      header = header;
      content = content;
      wait_for_reply = wait_for_reply;
      extra_payload = extra_payload;
    })
    else none

abbrev pub cancel_modes : List Text
cancel_modes = codes "graceful" ∷ codes "force" ∷ []

unfoldable pub cancel_task_command : CancelTaskCommand → Option CancelTaskCommand
cancel_task_command c =
    if is_empty c.target_message_id
    then none
    else if includes text_eq cancel_modes c.cancel_mode
    then some c
    else none

unfoldable pub header_to_dict : MessageHeader → JsonRecord
header_to_dict h =
    (codes "message_id", text h.message_id)
    ∷ (codes "session_id", text h.session_id)
    ∷ (codes "trace_id", text h.trace_id)
    ∷ (codes "source_agent_type", text h.source_agent_type)
    ∷ (codes "target_agent_type", text h.target_agent_type)
    ∷ (codes "parent_message_id", text h.parent_message_id)
    ∷ (codes "task_group_id", text h.task_group_id)
    ∷ (codes "user_code", text h.user_code)
    ∷ (codes "user_name", text h.user_name)
    ∷ (codes "metadata", obj (fields h.metadata))
    ∷ (codes "trace_parent_span_id", text h.trace_parent_span_id)
    ∷ (codes "langfuse_parent_observation_id", text h.langfuse_parent_observation_id)
    ∷ []

-- The object of an action, its header and its body.
unfoldable pub envelope : Text → MessageHeader → JsonRecord → JsonRecord
unfolding header_to_dict
envelope action header body =
    (codes "action_type", text action)
    ∷ (codes "header", obj (fields (header_to_dict header)))
    ∷ (codes "body", obj (fields body))
    ∷ []

-- The extra payload stands in the body where it has any entry.
unfoldable pub with_extra : JsonRecord → JsonRecord → JsonRecord
with_extra body [] = body
with_extra body (e ∷ extra) = body ++ (codes "extra_payload", obj (fields (e ∷ extra))) ∷ []

unfoldable pub ask_agent_to_dict : AskAgentCommand → JsonRecord
unfolding envelope with_extra
ask_agent_to_dict c = envelope ask_agent_action c.header (
    with_extra ((codes "content", c.content) ∷ (codes "wait_for_reply", bool c.wait_for_reply) ∷ [])
      c.extra_payload)

unfoldable pub resume_to_dict : ResumeCommand → JsonRecord
unfolding envelope with_extra
resume_to_dict c = envelope resume_action c.header (
    with_extra
      ((codes "content", c.content)
        ∷ (codes "status", text c.status)
        ∷ (codes "reply_data", c.reply_data)
        ∷ [])
      c.extra_payload)

unfoldable pub cancel_task_to_dict : CancelTaskCommand → JsonRecord
unfolding envelope
cancel_task_to_dict c = envelope cancel_task_action c.header (
    (codes "target_message_id", text c.target_message_id)
    ∷ (codes "target_execution_id", text c.target_execution_id)
    ∷ (codes "target_worker_id", text c.target_worker_id)
    ∷ (codes "reason", text c.reason)
    ∷ (codes "requested_by", text c.requested_by)
    ∷ (codes "cancel_mode", text c.cancel_mode)
    ∷ [])

unfoldable pub suspend_worker_to_dict : SuspendWorkerCommand → JsonRecord
unfolding envelope
suspend_worker_to_dict c =
    envelope suspend_worker_action c.header ((codes "reason", text c.reason) ∷ [])

unfoldable pub resume_worker_to_dict : ResumeWorkerCommand → JsonRecord
unfolding envelope
resume_worker_to_dict c = envelope resume_worker_action c.header []

unfoldable pub evict_worker_to_dict : EvictWorkerCommand → JsonRecord
unfolding envelope
evict_worker_to_dict c =
    envelope evict_worker_action c.header
      ((codes "reason", text c.reason) ∷ (codes "force", bool c.force) ∷ [])

unfoldable pub to_dict : BaseCommand → JsonRecord
to_dict (asks c) = ask_agent_to_dict c
to_dict (resumes c) = resume_to_dict c
to_dict (cancels c) = cancel_task_to_dict c
to_dict (suspends c) = suspend_worker_to_dict c
to_dict (resumes_worker c) = resume_worker_to_dict c
to_dict (evicts c) = evict_worker_to_dict c
