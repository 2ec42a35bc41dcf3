-- ===== src/Dispatch/Waits.antt =====
-- A dispatched command is waited for before it is sent, under the name that its reply bears.
use by_framework_ts.Common.{
  ℕ, ◌+◌, Text, codes, is_empty, or_text-eq_of_ne, ◌≡◌, ◌≢◌, ◌⊎◌, true, false, [], ◌++◌, some, ok,
  err, arith, Bool-cases,
}
use by_framework_ts.Protocol.Json.{JsonRecord}
use by_framework_ts.Protocol.AgentState
use by_framework_ts.Protocol.Header.{MessageHeader}
use by_framework_ts.Protocol.Commands.{AskAgentCommand, ask_agent, has_content}
use by_framework_ts.Protocol.Codec.{ask_agent_command}
use by_framework_ts.Redis.Keys.{Key}
use by_framework_ts.Redis.Values.{command, Execution}
use by_framework_ts.Redis.Data.{Data, add_stream}
use by_framework_ts.Redis.Env.{Env}
use by_framework_ts.Redis.Async.{Reply-cases}
use by_framework_ts.Registry.Executions.{initialize_execution}
use by_framework_ts.Registry.Executions.Saving.{initialize_execution_lem}
use by_framework_ts.Liveness.WaitIndex.{member_from_resume}
use by_framework_ts.Liveness.WaitGate.{wait_index_key}
use by_framework_ts.Liveness.WaitGate.Claims.{entry_of}
use by_framework_ts.Liveness.WaitRegistration.{registered_member, register_wait}
use by_framework_ts.Liveness.WaitRegistration.Reopening.{register_wait_lem, register_wait-stream}
use by_framework_ts.Worker.Returns.{return_header, first_chars}
use by_framework_ts.Availability.{AvailabilityResult}
use by_framework_ts.Dispatch.{
  CallAgentPublishInput, CallAgentPublishResult, PublishIds, build_command, dispatch_header,
  dispatch_wait, selected_command, retarget_ask_agent_command, stream_of, dispatched_record,
  is_reject, is_queue_pending, publish_with_execution_record, register_dispatch, publish_dispatch,
  settle_call, queued_call, policy_of,
}

-- Sending a command to another agent type keeps what names its wait.
selected_command-header :
    (input : CallAgentPublishInput) (ids : PublishIds) (c : AskAgentCommand)
    (v : AvailabilityResult)
    → build_command input ids ≡ some c
    → ((selected_command c v).header.session_id ≡ input.session_id)
      × ((selected_command c v).header.parent_message_id ≡ ids.parent_message_id)
      × ((selected_command c v).header.message_id ≡ ids.message_id)
      × ((selected_command c v).header.task_group_id ≡ input.task_group_id)
unfolding build_command ask_agent_command dispatch_header selected_command
    retarget_ask_agent_command
selected_command-header input ids c v e =
    ground
      (arith, Bool-cases (is_empty v.selected_agent_type), Bool-cases (has_content input.content))

pub return_header-member :
    (worker_id fresh : Text) (metadata : JsonRecord) (h : MessageHeader)
    (input : CallAgentPublishInput) (ids : PublishIds)
    → ids.parent_message_id ≢ []
    → h.session_id ≡ input.session_id
    → h.parent_message_id ≡ ids.parent_message_id
    → h.message_id ≡ ids.message_id
    → h.task_group_id ≡ input.task_group_id
    → member_from_resume (return_header worker_id h metadata fresh)
      ≡ registered_member (dispatch_wait input ids)
unfolding return_header member_from_resume registered_member dispatch_wait
return_header-member worker_id fresh metadata h input ids ne a b c d =
    ground (arith, or_text-eq_of_ne ids.parent_message_id (codes "msg-" ++ first_chars 8 fresh) ne)

-- The reply of whichever worker answers the command that is sent for a call clears exactly the wait
-- that the call registers, where the call has an id to be answered at; also where the router chose another agent type.
pub dispatch_wait-member :
    (worker_id fresh : Text) (metadata : JsonRecord) (input : CallAgentPublishInput)
    (ids : PublishIds) (c : AskAgentCommand) (v : AvailabilityResult)
    → build_command input ids ≡ some c
    → ids.parent_message_id ≢ []
    → member_from_resume (return_header worker_id (selected_command c v).header metadata fresh)
      ≡ registered_member (dispatch_wait input ids)
dispatch_wait-member worker_id fresh metadata input ids c v e ne =
    let (a, b, m, g) = selected_command-header input ids c v e in
    return_header-member worker_id fresh metadata (selected_command c v).header input ids ne a b m g

module _ (env : Env) (spell : Key → Text) (max_inline_wait : ℕ) where
  open env use {Store, view, now, xadd, xadd_lem, zadd}

  -- What a dispatch does to the streams: the command goes out once, or is held by the router.
  abbrev pub Sent : AskAgentCommand → AvailabilityResult → Data → Data → Type 0
  Sent c v d e = e.stream ≡ (elim (is_queue_pending v.status) [
    | true ↦ d.stream
    | false ↦ (add_stream (stream_of c v) (command (ask_agent (selected_command c v))) d).stream
  ])

  publish_dispatch_lem :
      (c : AskAgentCommand) (e : Execution) (policy : Text) (v : AvailabilityResult) (s : Store)
      → (publish_dispatch env spell max_inline_wait c e policy v s).0 ≡ ok tt
      → Sent c v (view s) (view (publish_dispatch env spell max_inline_wait c e policy v s).1)
        × ((view (publish_dispatch env spell max_inline_wait c e policy v s).1).zset
            ≡ (view s).zset)
  unfolding publish_dispatch publish_with_execution_record
  publish_dispatch_lem c e policy v s h =
      let r = dispatched_record spell c e policy v in
      let k = stream_of c v in
      let payload = command (ask_agent (selected_command c v)) in
      let s1 = (initialize_execution env r s).1 in
      ground (
        arith,
        Bool-cases (is_queue_pending v.status),
        initialize_execution_lem env r s,
        xadd_lem k payload s1,
      )

  -- The wait is in the index with the deadline that the caller of a call asked for, or Redis threw when
  -- it was to be entered.
  abbrev pub Registered : CallAgentPublishInput → PublishIds → Store → Store → Type 0
  Registered input ids s t =
      (entry_of env input.session_id (registered_member (dispatch_wait input ids)) t
        ≡ some (now s + (dispatch_wait input ids).timeout_ms))
      ⊎ ((zadd (wait_index_key input.session_id) (now s + (dispatch_wait input ids).timeout_ms)
            (registered_member (dispatch_wait input ids)) s).0
          ≡ err tt)

  -- A call that is queued has sent its command once, or left it to the router, and has touched no other entry of a stream;
  -- before that, while no stream had changed, where it waits for a reply, the wait was entered with the
  -- deadline that the caller asked for, unless Redis threw on entering it; and it is there when the call
  -- is over.
  pub settle_call-waits :
      (input : CallAgentPublishInput) (ids : PublishIds) (c : AskAgentCommand) (e : Execution)
      (v : AvailabilityResult) (s : Store) (r : CallAgentPublishResult)
      → is_reject v.status ≡ false
      → ids.wait_for_reply ≡ true
      → (settle_call env spell max_inline_wait input ids c e v s).0 ≡ ok r
      → (r.status ≡ AgentState.queued)
        × Sent c v (view s) (view (settle_call env spell max_inline_wait input ids c e v s).1)
        × (t : Store) × ((settle_call env spell max_inline_wait input ids c e v s).1
            ≡ (publish_dispatch env spell max_inline_wait c e (policy_of input) v t).1)
        × ((view t).stream ≡ (view s).stream)
        × Registered input ids s t
        × Registered input ids s (settle_call env spell max_inline_wait input ids c e v s).1
  unfolding settle_call register_dispatch queued_call dispatch_wait
  settle_call-waits input ids c e v s r a w h =
      let w1 = dispatch_wait input ids in
      let s1 = (register_wait env w1 s).1 in
      let m = registered_member w1 in
      let wait = register_wait_lem env w1 s in
      let streams = register_wait-stream env w1 s in
      let published = publish_dispatch_lem c e (policy_of input) v s1 in
      let cases =
        Reply-cases (publish_dispatch env spell max_inline_wait c e (policy_of input) v s1).0 in
      let pending = Bool-cases (is_queue_pending v.status) in
      let last : (settle_call env spell max_inline_wait input ids c e v s).1
          ≡ (publish_dispatch env spell max_inline_wait c e (policy_of input) v s1).1 =
        ground (arith, a, w, wait, cases) in
      (
        ground (arith, a, w, wait, cases),
        ground (arith, a, w, wait, streams, published, pending, cases),
        s1,
        last,
        ground (arith, streams),
        ground (arith, wait),
        ground (arith, a, w, wait, published, cases),
      )
