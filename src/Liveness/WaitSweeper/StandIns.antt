-- ===== src/Liveness/WaitSweeper/StandIns.antt =====
-- The replies that a sweep sends reach the wait that they stand in for.
use by_framework_ts.Common.{Text, ◌≡◌, refl, true, [], ◌∷◌, ◌++◌, Option, none, some, ok, arith}
use by_framework_ts.Protocol.Commands.{ResumeCommand, resume}
use by_framework_ts.Redis.Keys.{key_eq_iff, ctrl_stream}
use by_framework_ts.Redis.Values.{command, Execution}
use by_framework_ts.Redis.Env.{Env}
use by_framework_ts.Liveness.WaitIndex.{WaitIndexMember, member_from_resume}
use by_framework_ts.Liveness.WaitRegistration.{RegisterWaitParams, registered_member}
use by_framework_ts.Liveness.WaitReply.{stand_in_reply}
use by_framework_ts.Liveness.WaitReply.Addressing.{stand_in_reply-member}
use by_framework_ts.Liveness.WaitSweeper.Deadlines.{DueEntry}
use by_framework_ts.Liveness.WaitSweeper.Effects.{extend_deadline_lem}
use by_framework_ts.Liveness.WaitSweeper.Replies.{
  ReplyParams, caller_agent_type, stand_in_params, send_reply, emit_reply,
}

-- The wait that an entry of the index stands for, with any timeout.
abbrev pub wait_of : WaitIndexMember → RegisterWaitParams
wait_of e = record {
  session_id = e.session_id;
  parent_message_id = e.parent_message_id;
  child_message_id = e.child_message_id;
  task_group_id = some e.task_group_id;
  timeout_ms = 0;
}

module _ (env : Env) (worker_id : Text) where
  open env use {Store, view, uuid, xadd, xadd_lem}

  send_reply-stream :
      (due : DueEntry) (agent : Text) (r : ResumeCommand) (s : Store)
      → (send_reply env worker_id due agent (some r) s).0 ≡ ok true
      → (view (send_reply env worker_id due agent (some r) s).1).stream (ctrl_stream agent)
        ≡ (view s).stream (ctrl_stream agent) ++ command (resume r) ∷ []
  unfolding send_reply
  send_reply-stream due agent r s e =
      let s1 = (xadd (ctrl_stream agent) (command (resume r)) s).1 in
      ground (
        arith,
        xadd_lem (ctrl_stream agent) (command (resume r)) s,
        extend_deadline_lem env due s1,
        key_eq_iff (ctrl_stream agent) (ctrl_stream agent),
      )

  send_reply-none :
      (due : DueEntry) (agent : Text) (o : Option ResumeCommand) (s : Store)
      → (send_reply env worker_id due agent o s).0 ≡ ok true
      → (r : ResumeCommand) × (o ≡ some r)
  unfolding send_reply
  send_reply-none due agent none s e = ground arith
  send_reply-none due agent (some r) s e = (r, refl)

  emit_reply-named :
      (due : DueEntry) (caller : Execution) (p : ReplyParams) (s : Store)
      → (emit_reply env worker_id due caller p s).0 ≡ ok true
      → emit_reply env worker_id due caller p s
        ≡ send_reply env worker_id due
            (caller_agent_type p.child caller)
            (stand_in_reply (stand_in_params worker_id due caller p) (uuid s))
            s
  unfolding emit_reply
  emit_reply-named due caller p s e = ground (arith, extend_deadline_lem env due s)

  addressed :
      (due : DueEntry) (caller : Execution) (p : ReplyParams) (fresh : Text) (r : ResumeCommand)
      → stand_in_reply (stand_in_params worker_id due caller p) fresh ≡ some r
      → (r.header.message_id ≡ due.entry.parent_message_id)
        × (member_from_resume r.header ≡ registered_member (wait_of due.entry))
  unfolding stand_in_params
  addressed due caller p fresh r b =
      let params = stand_in_params worker_id due caller p in
      let (m, id, agent) =
        stand_in_reply-member (wait_of due.entry) params fresh r refl refl refl refl b in
      (id, m)

  -- A stand-in that was sent is one new command on the stream of the caller's agent type. It is
  -- addressed to the caller's message, and the gate rebuilds from it the member of the very wait
  -- that the sweep found due.
  pub emit_reply-sends :
      (due : DueEntry) (caller : Execution) (p : ReplyParams) (s : Store)
      → (emit_reply env worker_id due caller p s).0 ≡ ok true
      → (r : ResumeCommand) × ((view (emit_reply env worker_id due caller p s).1).stream
            (ctrl_stream (caller_agent_type p.child caller))
          ≡ (view s).stream (ctrl_stream (caller_agent_type p.child caller))
            ++ command (resume r) ∷ [])
        × (r.header.message_id ≡ due.entry.parent_message_id)
        × (member_from_resume r.header ≡ registered_member (wait_of due.entry))
  emit_reply-sends due caller p s e =
      let agent = caller_agent_type p.child caller in
      let o = stand_in_reply (stand_in_params worker_id due caller p) (uuid s) in
      let named = emit_reply-named due caller p s e in
      let sent : (send_reply env worker_id due agent o s).0 ≡ ok true = cc (named, e) in
      let (r, b) = send_reply-none due agent o s sent in
      let (id, m) = addressed due caller p (uuid s) r b in
      (r, ground (arith, named, sent, b, send_reply-stream due agent r s), id, m)
