-- ===== src/Context.antt =====
-- src/context.ts: what a handler does to other agents and to the user. The state is that of Redis and the flags of
-- the context; plug-ins, tracing and the prompt are ports.
pub mod Suspending
pub mod Groups
pub mod Accounting
pub mod Collecting
use by_framework_ts.Common.{
  ℕ, ◌*◌, Text, codes, is_empty, or_text, Bool, true, false, not, ◌||◌, List, [], ◌∷◌, ◌++◌, Option,
  none, some, ok, err, if◌then◌else◌, spread, text_eq,
}
use by_framework_ts.Protocol.Json.{JsonValue, JsonRecord, text}
use by_framework_ts.Protocol.AgentState
use by_framework_ts.Protocol.Commands.{ResumeCommand}
use by_framework_ts.Redis.Keys.{Key}
use by_framework_ts.Redis.Env.{Env, Reply}
use by_framework_ts.Redis.Async.{Async, ◌>>=◌, ◌>>◌, return, throw, reads, try_catch}
use by_framework_ts.Registry.Executions.{default_session_ttl}
use by_framework_ts.Liveness.WaitRegistration.{RegisterWaitParams, register_wait}
use by_framework_ts.Dispatch.{
  CallAgentPublishInput, CallAgentPublishResult, RuntimeHint, suspend, transfer, no_hint,
  generate_ask_agent_message_id, call_agent, given,
}

-- What does not change: the ids of the execution, and the user of the command that it handles and the group of
-- that command, where it is one that asks.
pub record Context : Type 0 where
  pub session_id : Text
  pub trace_id : Text
  pub current_agent_type : Text
  pub current_message_id : Text
  pub trace_parent_observation_id : Text
  pub user_code : Text
  pub user_name : Text
  pub task_group_id : Text

pub record Flags : Type 0 where
  pub is_suspended : Bool
  pub suspended_state : Text
  pub permission_transferred : Bool
  pub pending_group_replies : List ResumeCommand

-- `onCallAgentStart`, `onCallAgentComplete` and `onCallAgentError` of the plug-ins; the tracing of a
-- dispatch, the id of a span, and the prompt to the user.
pub record Ports (env : Env) : Type 0 where
  pub call_start : Async env.Store (Unit {0})
  pub call_complete : Async env.Store (Unit {0})
  pub call_error : Async env.Store (Unit {0})
  pub record_span : Async env.Store (Unit {0})
  pub span_id_hex : Text → Text
  pub emit_ask_user : Async env.Store (Unit {0})

pub record CallAgentParams : Type 0 where
  pub target_agent_type : Text
  pub content : JsonValue
  pub extra_payload : JsonRecord
  pub wait_for_reply : Option Bool
  pub metadata : JsonRecord
  pub message_id : Text
  pub parent_message_id : Text
  pub route_policy : Option Text
  pub availability_timeout_ms : Option ℕ
  pub region : Text
  pub priority : ℕ
  pub reply_timeout_ms : Option ℕ

abbrev pub default_ask_user_timeout_ms : ℕ
default_ask_user_timeout_ms = default_session_ttl * 1000

unfoldable pub suspended_in : Text → Flags → Flags
suspended_in state f = record f { is_suspended = true; suspended_state = state }

unfoldable pub transferred : Flags → Flags
transferred f = record f { permission_transferred = true }

-- The metadata of a dispatch, with the spans that it is traced under.
unfoldable pub traced_metadata : (Text → Text) → JsonRecord → Text → JsonRecord
traced_metadata span_id_hex metadata message_id = spread metadata (
    (codes "trace_parent_span_id", text (span_id_hex (message_id ++ codes ":client.dispatch")))
    ∷ (codes "framework_parent_span_id", text (message_id ++ codes ":client.dispatch"))
    ∷ [])

unfoldable pub publish_input :
    Context → (Text → Text) → CallAgentParams → Text → CallAgentPublishInput
unfolding traced_metadata
publish_input ctx span_id_hex p message_id = record {
  session_id = ctx.session_id;
  trace_id = ctx.trace_id;
  source_agent_type = ctx.current_agent_type;
  default_parent_message_id = ctx.current_message_id;
  target_agent_type = p.target_agent_type;
  content = p.content;
  extra_payload = p.extra_payload;
  wait_for_reply = p.wait_for_reply;
  user_code = ctx.user_code;
  user_name = ctx.user_name;
  task_group_id = ctx.task_group_id;
  metadata = traced_metadata span_id_hex p.metadata message_id;
  message_id = message_id;
  parent_message_id = p.parent_message_id;
  route_policy = p.route_policy;
  availability_timeout_ms = p.availability_timeout_ms;
  region = p.region;
  priority = p.priority;
  reply_timeout_ms = p.reply_timeout_ms;
  langfuse_parent_observation_id = ctx.trace_parent_observation_id;
}

-- `runtimeHint === 'suspend' || params.waitForReply !== false`, and the transfer otherwise.
unfoldable pub flags_after_call : RuntimeHint → Option Bool → Flags → Flags
unfolding suspended_in transferred
flags_after_call suspend wait f = suspended_in AgentState.waiting_agent f
flags_after_call hint (some true) f = suspended_in AgentState.waiting_agent f
flags_after_call hint none f = suspended_in AgentState.waiting_agent f
flags_after_call transfer (some false) f = transferred f
flags_after_call no_hint (some false) f = f

module _ (env : Env) where
  open env use {Store, uuid}

  abbrev pub World : Type 0
  World = Store × Flags

  -- What is done to Redis alone, and to the flags alone.
  abbrev pub lift : {A : Type 0} → Async Store A → Async World A
  lift m (s, f) = ((m s).0, ((m s).1, f))

  abbrev pub sets : (Flags → Flags) → Async World (Unit {0})
  sets change (s, f) = (ok tt, (s, change f))

  module _ (ctx : Context) (ports : Ports env) where
    -- The wait for the user: its child is the empty text.
    unfoldable pub user_wait : Option ℕ → RegisterWaitParams
    user_wait timeout = record {
      session_id = ctx.session_id;
      parent_message_id = ctx.current_message_id;
      child_message_id = [];
      task_group_id = some [];
      timeout_ms = given timeout default_ask_user_timeout_ms;
    }

    unfoldable pub ask_user : Option ℕ → Async World Text
    unfolding user_wait suspended_in
    ask_user timeout = do
      lift (register_wait env (user_wait timeout))
      lift ports.emit_ask_user
      sets (suspended_in AgentState.waiting_user)
      return AgentState.waiting_user

    -- A tracing that fails is left out.
    unfoldable pub trace_dispatch : Async Store (Unit {0})
    trace_dispatch = try_catch ports.record_span (return tt)

    module _ (spell : Key → Text) (max_inline_wait : ℕ) where
      -- `publishCallAgent`, whose error is told to the plug-ins and thrown on.
      unfoldable pub publish_call :
          CallAgentPublishInput → Async Store (Option CallAgentPublishResult)
      publish_call input =
          try_catch (call_agent env spell max_inline_wait input) (ports.call_error >> throw)

      -- The end of `callAgent`, whose result is the dispatch's without its hint: the context is suspended only past the return for a failed dispatch.
      unfoldable pub conclude_call :
          Option Bool → CallAgentPublishResult → Async World CallAgentPublishResult
      unfolding flags_after_call
      conclude_call wait raw = elim (text_eq raw.status AgentState.failed) [
        | true ↦ do lift ports.call_error; return (record raw { runtime_hint = no_hint })
        | false ↦ do
          sets (flags_after_call raw.runtime_hint wait)
          lift ports.call_complete
          return (record raw { runtime_hint = no_hint })
      ]

      -- `AgentContext.callAgent`; it gives none exactly where the routing does.
      unfoldable pub context_call_agent :
          CallAgentParams → Async World (Option CallAgentPublishResult)
      unfolding publish_input generate_ask_agent_message_id
      context_call_agent p = do
        fresh ← lift (reads uuid)
        let message_id = or_text p.message_id (generate_ask_agent_message_id fresh)
        lift ports.call_start
        raw ← lift (publish_call (publish_input ctx ports.span_id_hex p message_id))
        lift trace_dispatch
        elim raw [
          | none ↦ return none
          | some r ↦ do result ← conclude_call p.wait_for_reply r; return (some result)
        ]
