-- ===== src/Worker/Delivery.antt =====
-- A worker's reply reaches the caller that waits for it.
use by_framework_ts.Common.{
  ℕ, zero, suc, ◌+◌, ◌≤◌, Text, is_empty_iff, or_text-eq_of_ne, codes, ◌≡◌, refl, ◌≢◌, inl, inr, [],
  ◌∷◌, ◌++◌, Option, none, some, ok, err, arith,
}
use by_framework_ts.Protocol.Header.{MessageHeader}
use by_framework_ts.Protocol.Commands.{
  GatewayCommand, resume, ResumeCommand, resume_command, header_of,
}
use by_framework_ts.Redis.Keys.{Key, key_eq_iff, ctrl_stream, task_group_results}
use by_framework_ts.Redis.Values.{Value, command}
use by_framework_ts.Redis.Env.{Env}
use by_framework_ts.Redis.Async.{Reply-cases}
use by_framework_ts.Liveness.WaitIndex.{member_from_resume}
use by_framework_ts.Liveness.WaitRegistration.{RegisterWaitParams, registered_member}
use by_framework_ts.Liveness.WaitSweeper.Replies.{single_call_task_group_id}
use by_framework_ts.Worker.Returns.{
  AgentTaskResult, return_header, back_off, xadd_with_retry, persist_single_call_result,
  send_return, enqueue_agent_return, max_retry_count, first_chars,
}

-- The wait of a caller for the execution of a dispatched command.
abbrev pub wait_for : MessageHeader → RegisterWaitParams
wait_for header = record {
  session_id = header.session_id;
  parent_message_id = header.parent_message_id;
  child_message_id = header.message_id;
  task_group_id = some header.task_group_id;
  timeout_ms = 0;
}

module _ (env : Env) (worker_id : Text) where
  open env use {
    Store, view, now, sleep, sleep_lem, uuid, xadd, xadd_lem, hset, hset_lem, expire, expire_lem,
  }

  back_off-ok : (n : ℕ) (s : Store) → (back_off env worker_id n s).0 ≡ ok tt
  unfolding back_off
  back_off-ok zero s = refl
  back_off-ok (suc n) s = refl

  -- The state after a run is that after adding an entry to a stream, from some state on.
  abbrev pub Ends : Key → Value → Store → Store → Type 0
  Ends k v t after =
      ((xadd k v t).0 ≡ ok tt)
      × (after ≡ (xadd k v t).1)
      × ((view after).stream k ≡ (view t).stream k ++ v ∷ [])

  -- Retrying that succeeds ends with an attempt that succeeded.
  pub xadd_with_retry_lem :
      (attempts : ℕ) (k : Key) (v : Value) (s : Store)
      → (xadd_with_retry env worker_id attempts k v s).0 ≡ ok tt
      → (t : Store) × Ends k v t (xadd_with_retry env worker_id attempts k v s).1
  unfolding xadd_with_retry
  xadd_with_retry_lem zero k v s h = absurd (ground (arith, h))
  xadd_with_retry_lem (suc m) k v s h =
      let s1 = (xadd k v s).1 in
      let s2 = (back_off env worker_id m s1).1 in
      elim (Reply-cases (xadd k v s).0) [
        | inl (tt, e) ↦ (s, ground (arith, e, xadd_lem k v s, key_eq_iff k k))
        | inr e ↦
            let go : xadd_with_retry env worker_id (suc m) k v s
                ≡ xadd_with_retry env worker_id m k v s2 =
              ground (arith, e, back_off-ok m s1) in
            rw go (xadd_with_retry_lem m k v s2 (rw (← go) h))
      ]

  -- A server whose clock is not set back while an entry is added to a stream.
  abbrev pub IsSteady : Type 0
  IsSteady = (k : Key) (v : Value) (s : Store) → now s ≤ now (xadd k v s).1

  -- Where sending gives up, every attempt has thrown; the second came at least one second after the first
  -- and the third at least two after the second, on a clock that is not set back while a command runs.
  pub xadd_with_retry-patient :
      (k : Key) (v : Value) (s : Store)
      → IsSteady
      → (xadd_with_retry env worker_id max_retry_count k v s).0 ≡ err tt
      → (s1 s2 : Store) × ((xadd k v s).0 ≡ err tt)
        × ((xadd k v s1).0 ≡ err tt)
        × ((xadd k v s2).0 ≡ err tt)
        × (now s + 1000 ≤ now s1)
        × (now s1 + 2000 ≤ now s2)
        × ((xadd_with_retry env worker_id max_retry_count k v s).1 ≡ (xadd k v s2).1)
  unfolding xadd_with_retry back_off
  xadd_with_retry-patient k v s steady e =
      let s1 = sleep 1000 (xadd k v s).1 in
      let s2 = sleep 2000 (xadd k v s1).1 in
      let first = Reply-cases (xadd k v s).0 in
      let second = Reply-cases (xadd k v s1).0 in
      let third = Reply-cases (xadd k v s2).0 in
      (
        s1,
        s2,
        ground (arith, e, first),
        ground (arith, e, first, second),
        ground (arith, e, first, second, third),
        omega (arith, steady k v s, sleep_lem 1000 (xadd k v s).1),
        omega (arith, steady k v s1, sleep_lem 2000 (xadd k v s1).1),
        ground (arith, e, first, second, third),
      )

  -- Storing the result of a single call never throws.
  persist_single_call_result-ok :
      (header : MessageHeader) (reply : ResumeCommand) (s : Store)
      → (persist_single_call_result env worker_id header reply s).0 ≡ ok tt
  unfolding persist_single_call_result
  persist_single_call_result-ok header reply s =
      let k = task_group_results (single_call_task_group_id header.message_id) in ground arith

  send_return-some :
      (header : MessageHeader) (o : Option ResumeCommand) (s : Store)
      → (send_return env worker_id header o s).0 ≡ ok tt
      → (reply : ResumeCommand) × (t : Store) × (o ≡ some reply)
        × Ends
            (ctrl_stream reply.header.target_agent_type)
            (command (resume reply))
            t
            (send_return env worker_id header o s).1
  unfolding send_return
  send_return-some header none s e = absurd (ground (arith, e))
  send_return-some header (some reply) s e =
      let s1 = (persist_single_call_result env worker_id header reply s).1 in
      let k = ctrl_stream reply.header.target_agent_type in
      let v = command (resume reply) in
      let go : send_return env worker_id header (some reply) s
          ≡ xadd_with_retry env worker_id max_retry_count k v s1 =
        ground (arith, persist_single_call_result-ok header reply s) in
      let (t, q) = xadd_with_retry_lem max_retry_count k v s1 (rw (← go) e) in
      (reply, t, refl, rw go q)

  return_addressed :
      (header : MessageHeader) (r : AgentTaskResult) (fresh : Text) (reply : ResumeCommand)
      → header.parent_message_id ≢ []
      → resume_command
          (return_header worker_id header r.metadata fresh)
          r.content
          r.status
          r.reply_data
          r.extra_payload
        ≡ some reply
      → (member_from_resume reply.header ≡ registered_member (wait_for header))
        × (reply.header.target_agent_type ≡ header.source_agent_type)
        × (reply.status ≡ r.status)
        × (reply.content ≡ r.content)
        × (reply.reply_data ≡ r.reply_data)
  unfolding resume_command return_header member_from_resume registered_member
  return_addressed header r fresh reply ne e =
      ground
        (arith, or_text-eq_of_ne header.parent_message_id (codes "msg-" ++ first_chars 8 fresh))

  -- If answering a command succeeds, whose header names an agent that sent it and a message of that
  -- agent, its last step is to add one reply to the stream of the agent type that dispatched it, and
  -- that was done. The reply carries the
  -- result, and the gate rebuilds from it the member of the very wait that its caller registered for
  -- this command.
  pub enqueue_agent_return-delivers :
      (c : GatewayCommand) (r : AgentTaskResult) (s : Store)
      → (header_of c).source_agent_type ≢ []
      → (header_of c).parent_message_id ≢ []
      → (enqueue_agent_return env worker_id c r s).0 ≡ ok tt
      → (reply : ResumeCommand) × (t : Store) × Ends
          (ctrl_stream (header_of c).source_agent_type)
          (command (resume reply))
          t
          (enqueue_agent_return env worker_id c r s).1
        × (member_from_resume reply.header ≡ registered_member (wait_for (header_of c)))
        × (reply.status ≡ r.status)
        × (reply.content ≡ r.content)
        × (reply.reply_data ≡ r.reply_data)
  unfolding enqueue_agent_return
  enqueue_agent_return-delivers c r s named parent e =
      let h = header_of c in
      let o =
        resume_command (return_header worker_id h r.metadata (uuid s)) r.content r.status
          r.reply_data r.extra_payload in
      let sent : enqueue_agent_return env worker_id c r s ≡ send_return env worker_id h o s =
        ground (arith, named, is_empty_iff h.source_agent_type) in
      let (reply, t, b, q) = send_return-some h o s (cc (sent, e)) in
      let (m, to, st, co, da) = return_addressed h r (uuid s) reply parent b in
      (reply, t, rw (sent, ← to) q, m, st, co, da)
