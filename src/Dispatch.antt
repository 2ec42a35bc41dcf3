-- ===== src/Dispatch.antt =====
-- src/dispatch: how a command for another agent is built, recorded, waited for and sent, with the ports of
-- `createRedisCallAgentDeps`. Those always route by availability, so the probe for ports without it is left
-- out. An id is made from a fresh uuid.
mod Build
pub mod Waits
pub mod Resumed
pub mod Rejections
unfoldable pub use Build.*
use by_framework_ts.Common.{
  ℕ, leb, Text, codes, text_eq, is_empty, or_text, Bool, true, false, not, List, [], ◌∷◌, ◌++◌,
  Option, none, some, ok, err, if◌then◌else◌,
}
use by_framework_ts.Protocol.Json.{JsonValue, JsonRecord, text}
use by_framework_ts.Protocol.AgentState
use by_framework_ts.Protocol.Header.{MessageHeader}
use by_framework_ts.Protocol.Commands.{AskAgentCommand, ask_agent}
use by_framework_ts.Protocol.Codec.{ask_agent_command, ask_agent_to_dict}
use by_framework_ts.Redis.Keys.{Key, ctrl_stream}
use by_framework_ts.Redis.Values.{Value, command, Execution}
use by_framework_ts.Redis.Env.{Env}
use by_framework_ts.Redis.Async.{Async, ◌>>=◌, ◌>>◌, return, throw, reads, try_catch}
use by_framework_ts.Registry.Executions.{initialize_execution}
use by_framework_ts.Liveness.WaitRegistration.{RegisterWaitParams, register_wait}
use by_framework_ts.Availability.{
  DeliveryIntent, AvailabilityResult, AvailabilityStatus, deliver_now, wait_and_deliver,
  queue_pending, reject, fallback_to_other_agent_type, fail_fast, prepare_delivery,
}
use by_framework_ts.Worker.Returns.{first_chars, client_source_agent_type}

module _ (env : Env) (spell : Key → Text) (max_inline_wait : ℕ) where
  open env use {Store, uuid, xadd}

  unfoldable pub publish_with_execution_record :
      Execution → Key → AskAgentCommand → Async Store (Unit {0})
  publish_with_execution_record e stream c = do
    initialize_execution env e
    xadd stream (command (ask_agent c))

  -- `publishAskAgentCommand`: a record that could not be written does not keep the command back.
  pub publish_ask_agent_command : AskAgentCommand → Key → SourceFallback → Async Store (Unit {0})
  unfolding build_execution_record_for_ask_agent_command generate_execution_id
  publish_ask_agent_command c stream fallback = do
    fresh ← reads uuid
    try_catch
        (initialize_execution env (
          build_execution_record_for_ask_agent_command c (spell stream)
            (generate_execution_id fresh) fallback))
        (return tt)
    xadd stream (command (ask_agent c))

  unfoldable pub register_dispatch : CallAgentPublishInput → PublishIds → Async Store (Unit {0})
  unfolding dispatch_wait
  register_dispatch input ids =
      if ids.wait_for_reply then register_wait env (dispatch_wait input ids) else return tt

  -- The record, and the command unless the router holds it.
  unfoldable pub publish_dispatch :
      AskAgentCommand → Execution → Text → AvailabilityResult → Async Store (Unit {0})
  unfolding dispatched_record selected_command stream_of
  publish_dispatch c e policy v = elim (is_queue_pending v.status) [
    | true ↦ initialize_execution env (dispatched_record spell c e policy v)
    | false ↦
        publish_with_execution_record (dispatched_record spell c e policy v) (stream_of c v)
          (selected_command c v)
  ]

  -- `callAgent` from the router's verdict on.
  unfoldable pub settle_call :
      CallAgentPublishInput
      → PublishIds
      → AskAgentCommand
      → Execution
      → AvailabilityResult
      → Async Store CallAgentPublishResult
  settle_call input ids c e v = elim (is_reject v.status) [
    | true ↦ do
      initialize_execution env (rejected_record e (policy_of input) v)
      return (rejected_call input ids v)
    | false ↦ do
      register_dispatch input ids
      publish_dispatch c e (policy_of input) v
      return (queued_call input ids v)
  ]

  unfoldable pub route_call :
      CallAgentPublishInput
      → PublishIds
      → AskAgentCommand
      → Text
      → Async Store (Option CallAgentPublishResult)
  route_call input ids c execution_id = do
    verdict ←
        prepare_delivery env spell (intent_of max_inline_wait input c execution_id ids.message_id)
    elim verdict [
      | none ↦ return none
      | some v ↦ do
        r ←
            settle_call input ids c
              (build_execution_record_for_ask_agent_command c
                (spell (ctrl_stream input.target_agent_type)) execution_id no_fallback)
              v
        return (some r)
    ]

  -- `callAgent`; it gives none exactly where the router does.
  unfoldable pub call_agent : CallAgentPublishInput → Async Store (Option CallAgentPublishResult)
  call_agent input = do
    fresh ← reads uuid
    let ids = resolve_call_agent_publish_ids input fresh
    elim (build_command input ids) [
      | none ↦ throw
      | some c ↦ route_call input ids c (generate_execution_id fresh)
    ]
