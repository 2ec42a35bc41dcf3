-- ===== src/Protocol/Codec/RoundTrip.antt =====
-- A command that was built survives being sent.
use by_framework_ts.Common.{
  Text, codes, text_eq, is_empty, is_empty_iff, or_text, ◌≡◌, refl, ap, ◌∙◌, ◌≢◌, true, false, not,
  ◌&&◌, [], ◌∷◌, Option, some, arith, lookup, includes,
}
use by_framework_ts.Protocol.Json.{JsonRecord, fields, text, bool}
use by_framework_ts.Protocol.Strings.{string_of, is_truthy_json}
use by_framework_ts.Protocol.Header.{MessageHeader}
use by_framework_ts.Protocol.Commands.{AskAgentCommand, ResumeCommand, has_content, resume_command}
use by_framework_ts.Protocol.Codec.{
  ask_agent_action, resume_action, cancel_task_action, suspend_worker_action, resume_worker_action,
  evict_worker_action, BaseCommand, asks, resumes, cancels, suspends, resumes_worker, evicts,
  CancelTaskCommand, SuspendWorkerCommand, ResumeWorkerCommand, EvictWorkerCommand,
  ask_agent_command, cancel_task_command, cancel_modes, header_to_dict, envelope, with_extra,
  ask_agent_to_dict, resume_to_dict, cancel_task_to_dict, suspend_worker_to_dict,
  resume_worker_to_dict, evict_worker_to_dict, to_dict, entries_of, object_or_empty, text_or_empty,
  header_from_dict, header_field, body_of, value_or, ask_agent_from_dict, resume_from_dict,
  cancel_task_from_dict, suspend_worker_from_dict, evict_worker_from_dict, constructor_of,
  action_of, read_command, command_from_dict,
}

-- The constructor of the command does not throw.
abbrev pub IsBuilt : BaseCommand → Type 0
IsBuilt (asks c) = has_content c.content ≡ true
IsBuilt (resumes c) = is_empty c.status && not (has_content c.content) ≡ false
IsBuilt (cancels c) =
    (c.target_message_id ≢ []) × (includes text_eq cancel_modes c.cancel_mode ≡ true)
IsBuilt (suspends c) = Unit
IsBuilt (resumes_worker c) = Unit
IsBuilt (evicts c) = Unit

entries_of-fields : (o : JsonRecord) → entries_of (fields o) ≡ o
unfolding entries_of
entries_of-fields [] = refl
entries_of-fields ((k, v) ∷ o) = rw (entries_of-fields o) refl

or_text-nil : (s : Text) → or_text s [] ≡ s
unfolding or_text
or_text-nil [] = refl
or_text-nil (c ∷ s) = refl

pub header_from_dict-header_to_dict : (h : MessageHeader) → header_from_dict (header_to_dict h) ≡ h
unfolding header_from_dict header_to_dict lookup text_eq text_or_empty object_or_empty
header_from_dict-header_to_dict h =
    rw (entries_of-fields h.metadata, or_text-nil h.source_agent_type) refl

-- What the parts of a sent object are read as.
envelope_parts :
    (action : Text) (h : MessageHeader) (body : JsonRecord)
    → (action_of (envelope action h body) ≡ action)
      × (header_field (envelope action h body) ≡ some h)
      × (body_of (envelope action h body) ≡ body)
unfolding action_of header_field body_of envelope lookup text_eq object_or_empty string_of
envelope_parts action h body = (
  refl,
  ap (λ o. some (header_from_dict o)) (entries_of-fields (header_to_dict h))
      ∙ ap (λ x. some x) (header_from_dict-header_to_dict h),
  entries_of-fields body,
)

abbrev ask_body : AskAgentCommand → JsonRecord
ask_body c = (codes "content", c.content) ∷ (codes "wait_for_reply", bool c.wait_for_reply) ∷ []

abbrev resume_body : ResumeCommand → JsonRecord
resume_body c =
    (codes "content", c.content)
    ∷ (codes "status", text c.status)
    ∷ (codes "reply_data", c.reply_data)
    ∷ []

abbrev cancel_body : CancelTaskCommand → JsonRecord
cancel_body c =
    (codes "target_message_id", text c.target_message_id)
    ∷ (codes "target_execution_id", text c.target_execution_id)
    ∷ (codes "target_worker_id", text c.target_worker_id)
    ∷ (codes "reason", text c.reason)
    ∷ (codes "requested_by", text c.requested_by)
    ∷ (codes "cancel_mode", text c.cancel_mode)
    ∷ []

ask_body_parts :
    (c : AskAgentCommand) (extra : JsonRecord)
    → let body = with_extra (ask_body c) extra in
      (lookup (codes "content") body ≡ some c.content)
      × (lookup (codes "wait_for_reply") body ≡ some (bool c.wait_for_reply))
      × (object_or_empty (lookup (codes "extra_payload") body) ≡ extra)
unfolding with_extra lookup text_eq object_or_empty
ask_body_parts c [] = (refl, refl, refl)
ask_body_parts c (e ∷ extra) = (refl, refl, entries_of-fields (e ∷ extra))

resume_body_parts :
    (c : ResumeCommand) (extra : JsonRecord)
    → let body = with_extra (resume_body c) extra in
      (lookup (codes "content") body ≡ some c.content)
      × (lookup (codes "status") body ≡ some (text c.status))
      × (lookup (codes "reply_data") body ≡ some c.reply_data)
      × (object_or_empty (lookup (codes "extra_payload") body) ≡ extra)
unfolding with_extra lookup text_eq object_or_empty
resume_body_parts c [] = (refl, refl, refl, refl)
resume_body_parts c (e ∷ extra) = (refl, refl, refl, entries_of-fields (e ∷ extra))

read_command_lem :
    (action : Text) (h : MessageHeader) (body : JsonRecord)
    (from_dict : JsonRecord → MessageHeader → Option BaseCommand)
    → constructor_of action ≡ some from_dict
    → read_command action (some h) body ≡ from_dict body h
unfolding read_command
read_command_lem action h body from_dict e = ground (arith, e)

-- A command of an action is read by its constructor from its body and its header.
command_from_dict-envelope :
    (action : Text) (h : MessageHeader) (body : JsonRecord)
    (from_dict : JsonRecord → MessageHeader → Option BaseCommand)
    → constructor_of action ≡ some from_dict
    → command_from_dict (envelope action h body) ≡ from_dict body h
unfolding command_from_dict
command_from_dict-envelope action h body from_dict e =
    let (a, b, c) = envelope_parts action h body in
    rw (a, b, c) (read_command_lem action h body from_dict e)

or_text-built :
    (mode : Text)
    → includes text_eq cancel_modes mode ≡ true
    → or_text mode (codes "graceful") ≡ mode
unfolding or_text text_eq
or_text-built [] e = absurd (ground (arith, e))
or_text-built (c ∷ s) e = refl

asks_lem :
    (c : AskAgentCommand)
    → has_content c.content ≡ true
    → command_from_dict (ask_agent_to_dict c) ≡ some (asks c)
unfolding ask_agent_to_dict constructor_of text_eq ask_agent_from_dict ask_agent_command value_or
    is_truthy_json
asks_lem c h =
    let (content, wait, extra) = ask_body_parts c c.extra_payload in
    let sent =
      command_from_dict-envelope ask_agent_action c.header (with_extra (ask_body c) c.extra_payload)
        ask_agent_from_dict refl in
    ground (arith, sent, content, wait, extra, h)

resumes_lem :
    (c : ResumeCommand)
    → is_empty c.status && not (has_content c.content) ≡ false
    → command_from_dict (resume_to_dict c) ≡ some (resumes c)
unfolding resume_to_dict constructor_of text_eq resume_from_dict resume_command value_or
    text_or_empty
resumes_lem c h =
    let (content, status, reply, extra) = resume_body_parts c c.extra_payload in
    let sent =
      command_from_dict-envelope resume_action c.header (with_extra (resume_body c) c.extra_payload)
        resume_from_dict refl in
    ground (arith, sent, content, status, reply, extra, h)

cancels_lem :
    (c : CancelTaskCommand)
    → c.target_message_id ≢ []
    → includes text_eq cancel_modes c.cancel_mode ≡ true
    → command_from_dict (cancel_task_to_dict c) ≡ some (cancels c)
unfolding cancel_task_to_dict constructor_of text_eq cancel_task_from_dict cancel_task_command
    lookup text_or_empty
cancels_lem c h m =
    let sent =
      command_from_dict-envelope cancel_task_action c.header (cancel_body c) cancel_task_from_dict
        refl in
    ground (arith, sent, is_empty_iff c.target_message_id, or_text-built c.cancel_mode m)

suspends_lem :
    (c : SuspendWorkerCommand) → command_from_dict (suspend_worker_to_dict c) ≡ some (suspends c)
unfolding suspend_worker_to_dict constructor_of text_eq suspend_worker_from_dict lookup
    text_or_empty
suspends_lem c =
    command_from_dict-envelope suspend_worker_action c.header ((codes "reason", text c.reason) ∷ [])
      suspend_worker_from_dict refl

resumes_worker_lem :
    (c : ResumeWorkerCommand)
    → command_from_dict (resume_worker_to_dict c) ≡ some (resumes_worker c)
unfolding resume_worker_to_dict constructor_of text_eq
resumes_worker_lem c = command_from_dict-envelope resume_worker_action c.header [] _ refl

evicts_lem : (c : EvictWorkerCommand) → command_from_dict (evict_worker_to_dict c) ≡ some (evicts c)
unfolding evict_worker_to_dict constructor_of text_eq evict_worker_from_dict lookup text_or_empty
    is_truthy_json
evicts_lem c =
    command_from_dict-envelope evict_worker_action c.header
      ((codes "reason", text c.reason) ∷ (codes "force", bool c.force) ∷ []) evict_worker_from_dict
      refl

-- Every command whose constructor does not throw is read back from the object that is sent for it: all six
-- kinds, their headers included.
pub command_from_dict-to_dict :
    (c : BaseCommand) → IsBuilt c → command_from_dict (to_dict c) ≡ some c
unfolding to_dict
command_from_dict-to_dict (asks c) h = asks_lem c h
command_from_dict-to_dict (resumes c) h = resumes_lem c h
command_from_dict-to_dict (cancels c) h = cancels_lem c h.0 h.1
command_from_dict-to_dict (suspends c) h = suspends_lem c
command_from_dict-to_dict (resumes_worker c) h = resumes_worker_lem c
command_from_dict-to_dict (evicts c) h = evicts_lem c
