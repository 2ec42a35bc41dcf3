-- ===== src/Dispatch/Rejections.antt =====
-- A call that the router refuses leaves nothing behind but its record.
use by_framework_ts.Common.{
  ℕ, Text, or_text, ◌≡◌, subst, ◌≢◌, ◌⊎◌, inl, inr, true, none, some, ok, arith, Bool-cases,
  Option-cases,
}
use by_framework_ts.Protocol.AgentState
use by_framework_ts.Protocol.Commands.{AskAgentCommand}
use by_framework_ts.Redis.Keys.{Key, ctrl_stream}
use by_framework_ts.Redis.Values.{Execution}
use by_framework_ts.Redis.Data.{Data}
use by_framework_ts.Redis.Env.{Env}
use by_framework_ts.Redis.Async.{Reply-cases}
use by_framework_ts.Registry.Executions.Saving.{initialize_execution_lem}
use by_framework_ts.Availability.{
  AvailabilityResult, AvailabilityStatus, reject, prepare_delivery, wake_and_wait_policy, fail_fast,
  DeliveryIntent,
}
use by_framework_ts.Availability.Policies.{Promise}
use by_framework_ts.Availability.Policies.Verdicts.{prepare_delivery_lem}
use by_framework_ts.Availability.Waiting.{IsSteady, prepare_delivery-ends}
use by_framework_ts.Dispatch.{
  CallAgentPublishInput, CallAgentPublishResult, PublishIds, no_hint, build_command,
  generate_execution_id, intent_of, resolve_call_agent_publish_ids,
  build_execution_record_for_ask_agent_command, no_fallback, is_reject, settle_call,
  register_dispatch, publish_dispatch, route_call, call_agent, queued_call, rejected_call,
  rejected_record, policy_of,
}

is_reject_lem : (x : AvailabilityStatus) → is_reject x ≡ true → x ≡ reject
is_reject_lem x h = ground arith

rejected-Promise :
    (spell : Key → Text) (i : DeliveryIntent) (d e : Data) (v : AvailabilityResult)
    → v.status ≡ reject
    → Promise spell i d e v v.status
    → (e ≡ d) ⊎ (i.policy ≡ wake_and_wait_policy)
rejected-Promise spell i d e v h p = elim (subst (Promise spell i d e v) h p) [
  | inl q ↦ inl q
  | inr (q, _) ↦ inr q
]

module _ (env : Env) (spell : Key → Text) (max_inline_wait : ℕ) where
  open env use {Store, view, uuid}

  -- A call that failed was refused by the router; the record apart, nothing has changed.
  settle_call-failed :
      (input : CallAgentPublishInput) (ids : PublishIds) (c : AskAgentCommand) (e : Execution)
      (v : AvailabilityResult) (s : Store) (r : CallAgentPublishResult)
      → (settle_call env spell max_inline_wait input ids c e v s).0 ≡ ok r
      → r.status ≡ AgentState.failed
      → (v.status ≡ reject)
        × (r.runtime_hint ≡ no_hint)
        × ((view (settle_call env spell max_inline_wait input ids c e v s).1).stream
            ≡ (view s).stream)
        × ((view (settle_call env spell max_inline_wait input ids c e v s).1).zset ≡ (view s).zset)
  unfolding settle_call queued_call rejected_call
  settle_call-failed input ids c e v s r h f =
      let s1 = (register_dispatch env spell max_inline_wait input ids s).1 in
      ground (
        arith,
        is_reject_lem v.status,
        Bool-cases (is_reject v.status),
        Reply-cases (register_dispatch env spell max_inline_wait input ids s).0,
        Reply-cases (publish_dispatch env spell max_inline_wait c e (policy_of input) v s1).0,
        initialize_execution_lem env (rejected_record e (policy_of input) v) s,
      )

  -- What a call is made of that came to a result.
  call_agent-runs :
      (input : CallAgentPublishInput) (s : Store) (r : CallAgentPublishResult)
      → (call_agent env spell max_inline_wait input s).0 ≡ ok (some r)
      → let ids = resolve_call_agent_publish_ids input (uuid s) in
        let id = generate_execution_id (uuid s) in
        (c : AskAgentCommand) × (v : AvailabilityResult) × (let i =
            intent_of max_inline_wait input c id ids.message_id in
          let e =
            build_execution_record_for_ask_agent_command c
              (spell (ctrl_stream input.target_agent_type))
              id
              no_fallback in
          let s1 = (prepare_delivery env spell i s).1 in
          ((prepare_delivery env spell i s).0 ≡ ok (some v))
          × ((settle_call env spell max_inline_wait input ids c e v s1).0 ≡ ok r)
          × ((call_agent env spell max_inline_wait input s).1
              ≡ (settle_call env spell max_inline_wait input ids c e v s1).1))
  unfolding call_agent route_call
  call_agent-runs input s r h =
      let ids = resolve_call_agent_publish_ids input (uuid s) in
      let id = generate_execution_id (uuid s) in
      elim (Option-cases (build_command input ids)) [
        | inl b ↦ absurd (ground (arith, b))
        | inr (c, b) ↦
            let i = intent_of max_inline_wait input c id ids.message_id in
            let e =
              build_execution_record_for_ask_agent_command c
                (spell (ctrl_stream input.target_agent_type)) id no_fallback in
            let s1 = (prepare_delivery env spell i s).1 in
            elim (Reply-cases (prepare_delivery env spell i s).0) [
              | inl (none, p) ↦ absurd (ground (arith, b, p))
              | inl (some v, p) ↦
                  elim (Reply-cases (settle_call env spell max_inline_wait input ids c e v s1).0) [
                    | inl (q, w) ↦ (c, v, (p, ground (arith, b, p, w), ground (arith, b, p, w)))
                    | inr w ↦ absurd (ground (arith, b, p, w))
                  ]
              | inr p ↦ absurd (ground (arith, b, p))
            ]
      ]

  -- A call that failed, unless it was allowed to wait for a worker, has sent nothing, neither to a worker nor to
  -- the control plane, and nobody is noted as waiting for it; the caller is not told to suspend.
  pub call_agent-failed :
      (input : CallAgentPublishInput) (s : Store) (r : CallAgentPublishResult)
      → (call_agent env spell max_inline_wait input s).0 ≡ ok (some r)
      → r.status ≡ AgentState.failed
      → or_text (policy_of input) fail_fast ≢ wake_and_wait_policy
      → (r.runtime_hint ≡ no_hint)
        × ((view (call_agent env spell max_inline_wait input s).1).stream ≡ (view s).stream)
        × ((view (call_agent env spell max_inline_wait input s).1).zset ≡ (view s).zset)
  unfolding intent_of
  call_agent-failed input s r h f np =
      let ids = resolve_call_agent_publish_ids input (uuid s) in
      let id = generate_execution_id (uuid s) in
      let (c, v, (p, w, last)) = call_agent-runs input s r h in
      let i = intent_of max_inline_wait input c id ids.message_id in
      let e =
        build_execution_record_for_ask_agent_command c (spell (ctrl_stream input.target_agent_type))
          id no_fallback in
      let s1 = (prepare_delivery env spell i s).1 in
      let (rejected, hint, streams, waits) = settle_call-failed input ids c e v s1 r w f in
      let promised =
        rejected-Promise spell i (view s) (view s1) v rejected
          (prepare_delivery_lem env spell i s v p) in
      (hint, ground (arith, last, streams, promised, np), ground (arith, last, waits, promised, np))

  -- A call comes to a result or throws, since routing does.
  pub call_agent-ends :
      IsSteady env spell
      → (input : CallAgentPublishInput) (s : Store)
      → (call_agent env spell max_inline_wait input s).0 ≢ ok none
  unfolding call_agent route_call
  call_agent-ends steady input s =
      let ids = resolve_call_agent_publish_ids input (uuid s) in
      let id = generate_execution_id (uuid s) in
      elim (Option-cases (build_command input ids)) [
        | inl b ↦ ground (arith, b)
        | inr (c, b) ↦
            let i = intent_of max_inline_wait input c id ids.message_id in
            let e =
              build_execution_record_for_ask_agent_command c
                (spell (ctrl_stream input.target_agent_type)) id no_fallback in
            let s1 = (prepare_delivery env spell i s).1 in
            elim (Reply-cases (prepare_delivery env spell i s).0) [
              | inl (none, p) ↦
                  absurd (ground (arith, p, prepare_delivery-ends env spell steady i s))
              | inl (some v, p) ↦ ground (
                arith,
                b,
                p,
                Reply-cases (settle_call env spell max_inline_wait input ids c e v s1).0,
              )
              | inr p ↦ ground (arith, b, p)
            ]
      ]
