-- ===== src/Liveness/WaitSweeper/Verdicts.antt =====
-- Every verdict of the triage, with its effect: who is told, and what becomes of the entry.
use by_framework_ts.Common.{
  ℕ, Text, text_eq_iff, codes, ◌≡◌, refl, inl, inr, ◌++◌, [], Option, none, some, Result, ok, err,
  arith, subst,
}
use by_framework_ts.Protocol.AgentState
use by_framework_ts.Protocol.Json.{text}
use by_framework_ts.Redis.Keys.{Key, key_eq_iff, ctrl_stream}
use by_framework_ts.Redis.Values.{Execution}
use by_framework_ts.Redis.Env.{Env}
use by_framework_ts.Redis.Async.{◌>>=◌, ◌>>◌, return, Reply-cases}
use by_framework_ts.Registry.Executions.{get_execution_by_message_id}
use by_framework_ts.Registry.Executions.Queries.{get_execution_by_message_id-view}
use by_framework_ts.Registry.Leases.{is_worker_online}
use by_framework_ts.Registry.Leases.Ownership.{is_worker_online-view}
use by_framework_ts.Liveness.WaitIndex.{WaitIndexMember, MemberError, decode_member}
use by_framework_ts.Liveness.WaitReply.{failure_reply_data}
use by_framework_ts.Liveness.WaitSweeper.Deadlines.{DueEntry, renewal_ceiling_ms}
use by_framework_ts.Liveness.WaitSweeper.Replies.{
  Outcome, caller_missing, caller_terminal, caller_lost, caller_not_suspended, child_waiting,
  child_alive, worker_lost, never_started, timed_out, ReplyParams, emit_reply, synthesize_failure,
  child_metadata, child_timeout, child_never_started, child_worker_lost,
}
use by_framework_ts.Liveness.WaitSweeper.Triage.{
  Sweeper, group_blocks_compensation, is_lost, resolve_unsuspended_caller, cancel_timed_out_child,
  triage_running, triage_worker, triage_found, triage_child, triage_suspended, triage_caller,
  resolve_decoded, resolve_entry, timeout_message, not_picked_up_message, lost_message,
  not_recorded_message,
}
use by_framework_ts.Liveness.WaitSweeper.Effects.{
  class_of, Effect, Sound, renewal_ceiling_ms-view, emit_reply_lem, IsMoved-zset,
}
use by_framework_ts.Liveness.WaitSweeper.Steps.{
  IsSound, drop_entry-IsSound, synthesize_failure-IsSound, extended-IsSound,
  recover_finished_child-IsSound, group_blocks_compensation_lem,
}

module _ (env : Env) (w : Sweeper env) (a : Text) where
  open env use {Store, view, now, zrem, zrem_lem, hget, hget_lem}

  -- Cancellation is delivered elsewhere: it touches neither the wait index nor the control stream
  -- of an agent type, whatever else it does.
  abbrev pub IsQuiet : Type 0
  IsQuiet =
      (x y z : Text) (s : Store)
      → ((view (w.cancel_child x y z s).1).zset ≡ (view s).zset)
        × ((view (w.cancel_child x y z s).1).stream (ctrl_stream a)
            ≡ (view s).stream (ctrl_stream a))

  module _ (quiet : IsQuiet) where
    cancel_timed_out_child_lem :
        (due : DueEntry) (child : Execution) (s : Store)
        → ((view (cancel_timed_out_child env w due child s).1).zset ≡ (view s).zset)
          × ((view (cancel_timed_out_child env w due child s).1).stream (ctrl_stream a)
              ≡ (view s).stream (ctrl_stream a))
    unfolding cancel_timed_out_child
    cancel_timed_out_child_lem due child s = ground (
      arith,
      quiet due.entry.child_message_id due.entry.session_id
          (child_timeout ++ codes ": no reply before deadline") s,
    )

    timed_out-IsSound :
        (due : DueEntry) (caller child : Execution) (code message status : Text) (s : Store)
        → IsSound env w a due s (
            (synthesize_failure env w.worker_id due caller
                  (some child)
                  code
                  message
                  timed_out
                  status
                >>= λ o. cancel_timed_out_child env w due child >> return o)
              s)
    unfolding synthesize_failure
    timed_out-IsSound due caller child code message status s =
        let p : ReplyParams = record {
          child = some child;
          status = status;
          content = text [];
          reply_data = failure_reply_data message code due.entry.child_message_id;
          extra_payload = [];
          error_code = code;
          metadata = child_metadata env w.worker_id (some child);
        } in
        let s1 = (emit_reply env w.worker_id due caller p s).1 in
        let s2 = (cancel_timed_out_child env w due child s1).1 in
        ground (
          arith,
          emit_reply_lem env w.worker_id due caller p s,
          cancel_timed_out_child_lem due child s1,
          IsMoved-zset env due.index_key due.member (view s) (view s1) (view s) (view s2),
        )

    triage_running-IsSound :
        (due : DueEntry) (caller child : Execution) (s : Store)
        → IsSound env w a due s (triage_running env w due caller child s)
    unfolding triage_running
    triage_running-IsSound due caller child s =
        let n = w.renew_max_multiple in
        let s1 = (renewal_ceiling_ms env n due child s).1 in
        ground (
          arith,
          renewal_ceiling_ms-view env n due child s,
          extended-IsSound env w a due child_alive s1,
          timed_out-IsSound due caller child child_timeout (timeout_message due child (w.decimal n))
              AgentState.failed s1,
        )

    triage_worker-IsSound :
        (due : DueEntry) (caller child : Execution) (s : Store)
        → IsSound env w a due s (triage_worker env w due caller child s)
    unfolding triage_worker
    triage_worker-IsSound due caller child s =
        let s1 = (is_worker_online env child.worker_id s).1 in
        ground (
          arith,
          is_worker_online-view env child.worker_id s,
          synthesize_failure-IsSound env w a due caller (some child) child_never_started
              (not_picked_up_message due child) never_started AgentState.failed s,
          triage_running-IsSound due caller child s1,
          synthesize_failure-IsSound env w a due caller (some child) child_worker_lost
              (lost_message due child) worker_lost AgentState.failed s1,
        )

    triage_found-IsSound :
        (due : DueEntry) (caller : Execution) (child : Option Execution) (s : Store)
        → IsSound env w a due s (triage_found env w due caller child s)
    unfolding triage_found
    triage_found-IsSound due caller none s =
        synthesize_failure-IsSound env w a due caller none child_never_started
          (not_recorded_message due) never_started AgentState.failed s refl
    triage_found-IsSound due caller (some child) s = ground (
      arith,
      recover_finished_child-IsSound env w a due caller child s,
      extended-IsSound env w a due child_waiting s,
      triage_worker-IsSound due caller child s,
    )

    triage_child-IsSound :
        (due : DueEntry) (caller : Execution) (s : Store)
        → IsSound env w a due s (triage_child env w due caller s)
    unfolding triage_child
    triage_child-IsSound due caller s =
        let r = get_execution_by_message_id env due.entry.child_message_id due.entry.session_id s in
        elim (Reply-cases r.0) [
          | inl (child, e) ↦ ground (
            arith,
            e,
            get_execution_by_message_id-view env due.entry.child_message_id due.entry.session_id s,
            triage_found-IsSound due caller child r.1,
          )
          | inr e ↦ ground (arith, e)
        ]

    triage_suspended-IsSound :
        (due : DueEntry) (caller : Execution) (s : Store)
        → IsSound env w a due s (triage_suspended env w due caller s)
    unfolding triage_suspended
    triage_suspended-IsSound due caller s = ground (
      arith,
      triage_child-IsSound due caller s,
      group_blocks_compensation_lem env w a due s,
      triage_child-IsSound due caller (group_blocks_compensation env w due s).1,
    )

    is_lost-view : (id : Text) (s : Store) → view (is_lost env w id s).1 ≡ view s
    unfolding is_lost
    is_lost-view id s = ground (arith, is_worker_online-view env id s)

    resolve_unsuspended-IsSound :
        (due : DueEntry) (caller : Execution) (s : Store)
        → IsSound env w a due s (resolve_unsuspended_caller env w due caller s)
    unfolding resolve_unsuspended_caller
    resolve_unsuspended-IsSound due caller s =
        let s1 = (is_lost env w caller.worker_id s).1 in
        ground (
          arith,
          is_lost-view caller.worker_id s,
          drop_entry-IsSound env w a due caller_lost s1,
          extended-IsSound env w a due caller_not_suspended s1,
        )

    triage_caller-IsSound :
        (due : DueEntry) (caller : Option Execution) (s : Store)
        → IsSound env w a due s (triage_caller env w due caller s)
    unfolding triage_caller
    triage_caller-IsSound due none s = drop_entry-IsSound env w a due caller_missing s refl
    triage_caller-IsSound due (some caller) s = ground (
      arith,
      drop_entry-IsSound env w a due caller_terminal s,
      triage_suspended-IsSound due caller s,
      resolve_unsuspended-IsSound due caller s,
    )

    resolve_decoded-IsSound :
        (k : Key) (m : Text) (score : ℕ) (d : Result MemberError WaitIndexMember) (s : Store)
        → Sound env a k m
            (view s)
            (view (resolve_decoded env w k m score d s).1)
            (resolve_decoded env w k m score d s).0
    unfolding resolve_decoded
    resolve_decoded-IsSound k m score (err e) s =
        ground (arith, zrem_lem k m s, key_eq_iff k k, text_eq_iff m m)
    resolve_decoded-IsSound k m score (ok entry) s =
        let due : DueEntry = record {
          index_key = k;
          member = m;
          deadline_ms = score;
          entry = entry;
        } in
        let r = get_execution_by_message_id env entry.parent_message_id entry.session_id s in
        elim (Reply-cases r.0) [
          | inl (caller, e) ↦ ground (
            arith,
            e,
            get_execution_by_message_id-view env entry.parent_message_id entry.session_id s,
            triage_caller-IsSound due caller r.1,
          )
          | inr e ↦ ground (arith, e)
        ]

-- The triage of one due entry does one of these, and its outcome says which, for every agent type's
-- control stream: the entry is removed and no reply goes out; nothing is done (`askUser`); the entry
-- is renewed and no reply goes out; or the entry is renewed for the gate to claim, which is
-- so whenever a reply went out. A renewed entry has its deadline one increment after a reading of the
-- clock, and every other entry of every index is as before. A reply is thus never sent for an entry that the sweep removed.
-- Delivering a cancellation is taken to touch neither the index nor the agent types' streams.
pub resolve_entry-Effect :
    (env : Env) (w : Sweeper env) (a : Text) (k : Key) (m : Text) (score : ℕ) (s : env.Store)
    (o : Outcome)
    → IsQuiet env w a
    → (resolve_entry env w k m score s).0 ≡ ok o
    → Effect env a k m (env.view s) (env.view (resolve_entry env w k m score s).1) (class_of o)
unfolding resolve_entry
resolve_entry-Effect env w a k m score s o quiet e =
    subst (Sound env a k m (env.view s) (env.view (resolve_entry env w k m score s).1)) e
      (resolve_decoded-IsSound env w a quiet k m score (decode_member m) s)
