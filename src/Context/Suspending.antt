-- ===== src/Context/Suspending.antt =====
-- When a context is left suspended.
use by_framework_ts.Common.{
  ℕ, Text, text_eq, text_eq_iff, or_text, ◌≡◌, refl, ◌≢◌, ◌⊎◌, inl, inr, Bool, true, false, Option,
  none, some, ok, arith, Bool-cases,
}
use by_framework_ts.Protocol.AgentState
use by_framework_ts.Redis.Keys.{Key}
use by_framework_ts.Redis.Env.{Env}
use by_framework_ts.Redis.Async.{Reply-cases}
use by_framework_ts.Dispatch.{
  CallAgentPublishResult, RuntimeHint, suspend, transfer, no_hint, generate_ask_agent_message_id,
}
use by_framework_ts.Context.{
  Context, Flags, Ports, CallAgentParams, suspended_in, flags_after_call, publish_input,
  trace_dispatch, publish_call, conclude_call, context_call_agent,
}

flags_after_call-waits :
    (hint : RuntimeHint) (wait : Option Bool) (f : Flags)
    → (wait ≡ some false) ⊎ (flags_after_call hint wait f ≡ suspended_in AgentState.waiting_agent f)
unfolding flags_after_call
flags_after_call-waits suspend wait f = inr refl
flags_after_call-waits transfer (some true) f = inr refl
flags_after_call-waits no_hint (some true) f = inr refl
flags_after_call-waits transfer none f = inr refl
flags_after_call-waits no_hint none f = inr refl
flags_after_call-waits transfer (some false) f = inl refl
flags_after_call-waits no_hint (some false) f = inl refl

module _ (env : Env) (ctx : Context) (ports : Ports env) (spell : Key → Text)
    (max_inline_wait : ℕ) where
  open env use {Store, view, uuid}

  conclude_call-flags :
      (wait : Option Bool) (raw : CallAgentPublishResult) (s : Store) (f : Flags)
      (r : CallAgentPublishResult)
      → (conclude_call env ctx ports spell max_inline_wait wait raw (s, f)).0 ≡ ok r
      → ((r.status ≡ AgentState.failed)
          × ((conclude_call env ctx ports spell max_inline_wait wait raw (s, f)).1.1 ≡ f))
        ⊎ ((r.status ≢ AgentState.failed)
            × ((wait ≡ some false)
                ⊎ ((conclude_call env ctx ports spell max_inline_wait wait raw (s, f)).1.1
                    ≡ suspended_in AgentState.waiting_agent f)))
  unfolding conclude_call
  conclude_call-flags wait raw s f r h = ground (
    arith,
    text_eq_iff raw.status AgentState.failed,
    Bool-cases (text_eq raw.status AgentState.failed),
    Reply-cases (ports.call_error s).0,
    Reply-cases (ports.call_complete s).0,
    flags_after_call-waits raw.runtime_hint wait f,
  )

  -- A call that ends with a failed dispatch leaves the flags of the context as they were; every other
  -- call that comes to a result suspends the context, unless it was made without waiting for a reply.
  pub context_call_agent-flags :
      (p : CallAgentParams) (s : Store) (f : Flags) (r : CallAgentPublishResult)
      → (context_call_agent env ctx ports spell max_inline_wait p (s, f)).0 ≡ ok (some r)
      → ((r.status ≡ AgentState.failed)
          × ((context_call_agent env ctx ports spell max_inline_wait p (s, f)).1.1 ≡ f))
        ⊎ ((r.status ≢ AgentState.failed)
            × ((p.wait_for_reply ≡ some false)
                ⊎ ((context_call_agent env ctx ports spell max_inline_wait p (s, f)).1.1
                    ≡ suspended_in AgentState.waiting_agent f)))
  unfolding context_call_agent
  context_call_agent-flags p s f r h =
      let fresh = uuid s in
      let id = or_text p.message_id (generate_ask_agent_message_id fresh) in
      let input = publish_input ctx ports.span_id_hex p id in
      let s1 = (ports.call_start s).1 in
      let s2 = (publish_call env ctx ports spell max_inline_wait input s1).1 in
      let s3 = (trace_dispatch env ctx ports s2).1 in
      elim (Reply-cases (publish_call env ctx ports spell max_inline_wait input s1).0) [
        | inl (none, e) ↦ ground (arith, e)
        | inl (some raw, e) ↦ ground (
          arith,
          e,
          Reply-cases
              (conclude_call env ctx ports spell max_inline_wait p.wait_for_reply raw (s3, f)).0,
          conclude_call-flags p.wait_for_reply raw s3 f r,
        )
        | inr e ↦ ground (arith, e)
      ]
