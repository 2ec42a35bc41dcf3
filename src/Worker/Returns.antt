-- ===== src/Worker/Returns.antt =====
-- src/worker.ts: `resolveReplyCommand`, `restoreInboundMetadata`, `applySuspendedStatus` and
-- `enqueueAgentReturn` with what it calls.
use by_framework_ts.Common.{
  ℕ, zero, suc, ◌-◌, ◌*◌, Text, text_eq, is_empty, or_text, codes, Bool, not, ◌&&◌, ◌||◌, [], ◌∷◌,
  ◌++◌, Option, none, some, ok, err, if◌then◌else◌, spread,
}
use by_framework_ts.Protocol.Json.{JsonValue, JsonRecord}
use by_framework_ts.Protocol.State.{is_terminal_state}
use by_framework_ts.Protocol.Header.{MessageHeader}
use by_framework_ts.Protocol.Commands.{
  GatewayCommand, ask_agent, resume, ResumeCommand, resume_command, header_of,
}
use by_framework_ts.Redis.Keys.{Key, ctrl_stream, task_group_results}
use by_framework_ts.Redis.Values.{Value, command, result, Execution, StoredResult}
use by_framework_ts.Redis.Env.{Env, Reply}
use by_framework_ts.Redis.Async.{Async, ◌>>=◌, ◌>>◌, return, throw, reads, try_catch}
use by_framework_ts.ResumeMetadata.{merge_resume_metadata}
use by_framework_ts.Liveness.WaitSweeper.Replies.{single_call_task_group_id}

abbrev pub client_source_agent_type : Text
client_source_agent_type = codes "client"

abbrev pub max_retry_count : ℕ
max_retry_count = 3

abbrev pub first_retry_wait_seconds : ℕ
first_retry_wait_seconds = 1

abbrev pub task_group_ttl_seconds : ℕ
task_group_ttl_seconds = 86400

-- `AgentTaskResult`, without the final answer that is put in last.
pub record AgentTaskResult : Type 0 where
  pub status : Text
  pub content : JsonValue
  pub reply_data : JsonValue
  pub metadata : JsonRecord
  pub extra_payload : JsonRecord

-- `String(snapshot.field || '')`; the snapshot is missing where no execution is handed over.
abbrev pub snapshot_text : (Execution → Text) → Option Execution → Text
snapshot_text f none = []
snapshot_text f (some e) = f e

abbrev pub snapshot_metadata : Option Execution → Option JsonRecord
snapshot_metadata none = none
snapshot_metadata (some e) = some e.metadata

-- The command that a constructor built; where it throws, so does its caller.
abbrev pub built : Option ResumeCommand → Reply GatewayCommand
built none = err tt
built (some r) = ok (resume r)

abbrev pub some_reply : Reply GatewayCommand → Reply (Option GatewayCommand)
some_reply (ok c) = ok (some c)
some_reply (err e) = err e

-- The header against which a resumed execution replies: the one that its dispatch recorded.
unfoldable pub original_header : MessageHeader → Option Execution → MessageHeader
original_header header snapshot = record header {
  source_agent_type = snapshot_text (λ e. e.source_agent_type) snapshot;
  parent_message_id = snapshot_text (λ e. e.parent_message_id) snapshot;
  task_group_id = snapshot_text (λ e. e.task_group_id) snapshot;
  metadata = elim (snapshot_metadata snapshot) [ none ↦ [] | some o ↦ o ];
}

-- The command to reply against, or none where no agent waits for a reply.
unfoldable pub resolve_reply_command :
    GatewayCommand → Option Execution → Reply (Option GatewayCommand)
unfolding original_header
resolve_reply_command (ask_agent c) snapshot =
    ok (if is_empty c.header.source_agent_type then none else some (ask_agent c))
resolve_reply_command (resume c) snapshot =
    let caller = snapshot_text (λ e. e.source_agent_type) snapshot in
    if is_empty caller || text_eq caller client_source_agent_type
    then ok none
    else some_reply (
        built (
          resume_command (original_header c.header snapshot) c.content c.status c.reply_data
            c.extra_payload))

-- The command that the handler reads.
unfoldable pub restore_inbound_metadata : GatewayCommand → Option Execution → Reply GatewayCommand
restore_inbound_metadata (ask_agent c) snapshot = ok (ask_agent c)
restore_inbound_metadata (resume c) snapshot = built (
    resume_command
      (record c.header {
        metadata = merge_resume_metadata (snapshot_metadata snapshot) (some c.header.metadata);
      })
      c.content c.status c.reply_data c.extra_payload)

-- The parameter `suspended_state` is `context.suspendedState()`.
unfoldable pub apply_suspended_status : AgentTaskResult → Text → AgentTaskResult
apply_suspended_status r suspended_state =
    if is_empty suspended_state || is_terminal_state r.status
    then r
    else record r { status = suspended_state }

-- `isSuspended` of `handleMessage`, from the context's flag.
unfoldable pub is_suspended : Bool → AgentTaskResult → Bool
is_suspended context_is_suspended r = context_is_suspended && not (is_terminal_state r.status)

-- The first eight characters of the uuid in the id that stands in for a missing parent.
unfoldable pub first_chars : ℕ → Text → Text
first_chars zero s = []
first_chars (suc n) [] = []
first_chars (suc n) (c ∷ s) = c ∷ first_chars n s

-- The header of the reply to a command; `fresh` is a new uuid.
unfoldable pub return_header : Text → MessageHeader → JsonRecord → Text → MessageHeader
return_header worker_id header metadata fresh = record {
  message_id = or_text header.parent_message_id (codes "msg-" ++ first_chars 8 fresh);
  session_id = header.session_id;
  trace_id = header.trace_id;
  source_agent_type = or_text header.target_agent_type worker_id;
  target_agent_type = header.source_agent_type;
  parent_message_id = header.message_id;
  task_group_id = header.task_group_id;
  user_code = header.user_code;
  user_name = header.user_name;
  metadata = spread header.metadata metadata;
  trace_parent_span_id = [];
  langfuse_parent_observation_id = [];
}

-- `resultData`, for the group join and for a single call.
unfoldable pub result_data : ResumeCommand → StoredResult
result_data reply = record {
  status = reply.status;
  reply_data = reply.reply_data;
  content = reply.content;
  target_agent_type = reply.header.source_agent_type;
  metadata = reply.header.metadata;
  extra_payload = reply.extra_payload;
}

module _ (env : Env) (worker_id : Text) where
  open env use {Store, uuid, xadd, hset, expire, sleep}

  -- The pause after an attempt, by the number of attempts that are left; after the last there is none.
  unfoldable pub back_off : ℕ → Async Store (Unit {0})
  back_off zero s = (ok tt, s)
  back_off (suc n) s =
      (ok tt, sleep (first_retry_wait_seconds * 1000 * (max_retry_count - suc n)) s)

  -- The loop of `xaddWithRetry`, from the number of attempts that are left.
  unfoldable pub xadd_with_retry : ℕ → Key → Value → Async Store (Unit {0})
  xadd_with_retry zero stream payload = throw
  xadd_with_retry (suc n) stream payload =
      try_catch (xadd stream payload) (back_off n >> xadd_with_retry n stream payload)

  unfoldable pub persist_single_call_result : MessageHeader → ResumeCommand → Async Store (Unit {0})
  persist_single_call_result header reply =
      if not (is_empty header.task_group_id) || is_empty header.message_id
      then return tt
      else try_catch
          (hset (task_group_results (single_call_task_group_id header.message_id)) header.message_id
              (result (result_data reply))
            >> expire (task_group_results (single_call_task_group_id header.message_id))
                task_group_ttl_seconds)
          (return tt)

  -- The reply that was built is stored and sent; where it was not built, the constructor threw.
  unfoldable pub send_return : MessageHeader → Option ResumeCommand → Async Store (Unit {0})
  send_return header none = throw
  send_return header (some reply) = do
    persist_single_call_result header reply
    xadd_with_retry max_retry_count (ctrl_stream reply.header.target_agent_type)
        (command (resume reply))

  unfoldable pub enqueue_agent_return : GatewayCommand → AgentTaskResult → Async Store (Unit {0})
  enqueue_agent_return c r = if is_empty (header_of c).source_agent_type then return tt else do
    fresh ← reads uuid
    send_return (header_of c) (
        resume_command (return_header worker_id (header_of c) r.metadata fresh) r.content r.status
          r.reply_data r.extra_payload)
