-- ===== src/Protocol/Codec.antt =====
-- src/protocol/message_header.ts and src/protocol/commands.ts: the commands as the objects that are sent, and
-- back. A text is read from a field that holds one; in a field of another type, which no writer
-- sends, '' is read, and in place of an object {}.
mod Encoding
pub mod RoundTrip
unfoldable pub use Encoding.*
use by_framework_ts.Common.{
  Text, codes, text_eq, is_empty, or_text, Bool, true, false, not, ◌&&◌, ◌||◌, List, [], ◌∷◌, ◌++◌,
  Option, none, some, if◌then◌else◌, lookup, includes,
}
use by_framework_ts.Protocol.Json.{
  JsonValue, JsonRecord, Fields, null, text, num, bool, arr, obj, end, field, fields,
}
use by_framework_ts.Protocol.Strings.{string_of, is_truthy_json}
use by_framework_ts.Protocol.Header.{MessageHeader}
use by_framework_ts.Protocol.Commands.{AskAgentCommand, ResumeCommand, has_content, resume_command}

-- The entries of an object.
unfoldable pub entries_of : Fields → JsonRecord
entries_of end = []
entries_of (field k v o) = (k, v) ∷ entries_of o

-- `{ ...(value || {}) }`
unfoldable pub object_or_empty : Option JsonValue → JsonRecord
unfolding entries_of
object_or_empty (some (obj o)) = entries_of o
object_or_empty _ = []

-- `data[key] || ''`
unfoldable pub text_or_empty : Option JsonValue → Text
text_or_empty (some (text s)) = s
text_or_empty _ = []

unfoldable pub header_from_dict : JsonRecord → MessageHeader
unfolding lookup text_or_empty object_or_empty
header_from_dict dict = record {
  message_id = text_or_empty (lookup (codes "message_id") dict);
  session_id = text_or_empty (lookup (codes "session_id") dict);
  trace_id = text_or_empty (lookup (codes "trace_id") dict);
  source_agent_type =
      or_text (text_or_empty (lookup (codes "source_agent_type") dict))
        (text_or_empty (lookup (codes "source_agent_id") dict));
  target_agent_type = text_or_empty (lookup (codes "target_agent_type") dict);
  parent_message_id = text_or_empty (lookup (codes "parent_message_id") dict);
  task_group_id = text_or_empty (lookup (codes "task_group_id") dict);
  user_code = text_or_empty (lookup (codes "user_code") dict);
  user_name = text_or_empty (lookup (codes "user_name") dict);
  metadata = object_or_empty (lookup (codes "metadata") dict);
  trace_parent_span_id = text_or_empty (lookup (codes "trace_parent_span_id") dict);
  langfuse_parent_observation_id =
      text_or_empty (lookup (codes "langfuse_parent_observation_id") dict);
}

-- The header of `data.header`; reading a field of what is missing or null throws.
unfoldable pub header_field : JsonRecord → Option MessageHeader
unfolding lookup header_from_dict object_or_empty
header_field dict = elim (lookup (codes "header") dict) [
  | none ↦ none
  | some null ↦ none
  | some v ↦ some (header_from_dict (object_or_empty (some v)))
]

-- `value !== undefined ? value : ''`, and `value ?? null`.
unfoldable pub value_or : JsonValue → Option JsonValue → JsonValue
value_or other none = other
value_or other (some v) = v

unfoldable pub body_of : JsonRecord → JsonRecord
unfolding lookup object_or_empty
body_of dict = object_or_empty (lookup (codes "body") dict)

unfoldable pub ask_agent_from_dict : JsonRecord → MessageHeader → Option BaseCommand
unfolding ask_agent_command lookup value_or object_or_empty is_truthy_json
ask_agent_from_dict body header =
    elim (ask_agent_command header (value_or (text []) (lookup (codes "content") body))
      (is_truthy_json (lookup (codes "wait_for_reply") body))
      (object_or_empty (lookup (codes "extra_payload") body))) [
        | none ↦ none
        | some c ↦ some (asks c)
      ]

unfoldable pub resume_from_dict : JsonRecord → MessageHeader → Option BaseCommand
unfolding resume_command lookup value_or object_or_empty text_or_empty
resume_from_dict body header =
    elim (resume_command header (value_or (text []) (lookup (codes "content") body))
      (text_or_empty (lookup (codes "status") body))
      (value_or null (lookup (codes "reply_data") body))
      (object_or_empty (lookup (codes "extra_payload") body))) [
        | none ↦ none
        | some c ↦ some (resumes c)
      ]

unfoldable pub cancel_task_from_dict : JsonRecord → MessageHeader → Option BaseCommand
unfolding cancel_task_command lookup text_or_empty
cancel_task_from_dict body header =
    elim (cancel_task_command (record {
      header = header;
      target_message_id = text_or_empty (lookup (codes "target_message_id") body);
      target_execution_id = text_or_empty (lookup (codes "target_execution_id") body);
      target_worker_id = text_or_empty (lookup (codes "target_worker_id") body);
      reason = text_or_empty (lookup (codes "reason") body);
      requested_by = text_or_empty (lookup (codes "requested_by") body);
      cancel_mode = or_text (text_or_empty (lookup (codes "cancel_mode") body)) (codes "graceful");
    })) [ none ↦ none | some c ↦ some (cancels c) ]

unfoldable pub suspend_worker_from_dict : JsonRecord → MessageHeader → Option BaseCommand
unfolding lookup text_or_empty
suspend_worker_from_dict body header =
    some
      (suspends (record { header = header; reason = text_or_empty (lookup (codes "reason") body) }))

unfoldable pub evict_worker_from_dict : JsonRecord → MessageHeader → Option BaseCommand
unfolding lookup text_or_empty is_truthy_json
evict_worker_from_dict body header = some (
    evicts (record {
      header = header;
      reason = text_or_empty (lookup (codes "reason") body);
      force = is_truthy_json (lookup (codes "force") body);
    }))

-- The registered constructor of an action, as its `fromDict` on the body and the header.
unfoldable pub constructor_of : Text → Option (JsonRecord → MessageHeader → Option BaseCommand)
unfolding text_eq
constructor_of action =
    if text_eq action ask_agent_action
    then some ask_agent_from_dict
    else if text_eq action resume_action
    then some resume_from_dict
    else if text_eq action cancel_task_action
    then some cancel_task_from_dict
    else if text_eq action suspend_worker_action
    then some suspend_worker_from_dict
    else if text_eq action resume_worker_action
    then some (λ body header. some (resumes_worker (record { header = header })))
    else if text_eq action evict_worker_action
    then some evict_worker_from_dict
    else none

-- `String(data.action_type)`
unfoldable pub action_of : JsonRecord → Text
unfolding lookup string_of
action_of dict = elim (lookup (codes "action_type") dict) [
  | none ↦ codes "undefined"
  | some v ↦ string_of v
]

-- What `commandFromDict` makes of an action, a header and a body.
unfoldable pub read_command : Text → Option MessageHeader → JsonRecord → Option BaseCommand
read_command action none body = none
read_command action (some header) body = elim (constructor_of action) [
  | none ↦ none
  | some from_dict ↦ from_dict body header
]

-- `commandFromDict`, with the constructors that the module registers; none where it throws.
unfoldable pub command_from_dict : JsonRecord → Option BaseCommand
unfolding read_command action_of header_field body_of
command_from_dict dict = read_command (action_of dict) (header_field dict) (body_of dict)
