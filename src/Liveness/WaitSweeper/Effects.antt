-- ===== src/Liveness/WaitSweeper/Effects.antt =====
-- What a verdict of the triage does to the index and to the control streams.
use by_framework_ts.Common.{
  ℕ, ◌+◌, Text, ◌≡◌, refl, ◌⊎◌, inl, inr, true, false, Option, none, some, ok, err, arith,
}
use by_framework_ts.Protocol.Commands.{ResumeCommand, resume}
use by_framework_ts.Redis.Keys.{Key, ctrl_stream}
use by_framework_ts.Redis.Values.{number, command, Execution}
use by_framework_ts.Redis.Data.{Data, put_entry}
use by_framework_ts.Redis.Env.{Env, Reply}
use by_framework_ts.Redis.Async.{Reply-cases}
use by_framework_ts.Liveness.WaitReply.{stand_in_reply}
use by_framework_ts.Liveness.WaitSweeper.Deadlines.{
  DueEntry, extend_deadline, renew_origin_key, renewal_origin_ms, renewal_ceiling_ms,
  wait_renew_increment_ms, wait_renew_origin_ttl_seconds,
}
use by_framework_ts.Liveness.WaitSweeper.Replies.{
  Outcome, malformed, caller_missing, caller_terminal, caller_lost, caller_not_suspended,
  ask_user_skipped, group_gone, group_aborted, group_already_joined, child_waiting, child_alive,
  recovered, worker_lost, never_started, timed_out, unroutable, error, pruned, ReplyParams,
  caller_agent_type, stand_in_params, send_reply, emit_reply,
}

pub data Class : Type 0 where
  -- The entry is removed, and nobody is told.
  removed : Class
  -- Nothing is done.
  left : Class
  -- The entry stays with a new deadline, and nobody is told.
  renewed : Class
  -- The entry stays with a new deadline, for the gate to claim; a reply may have gone out.
  replied : Class
  -- The triage of one entry never comes to this.
  impossible : Class

abbrev pub class_of : Outcome → Class
class_of malformed = removed
class_of caller_missing = removed
class_of caller_terminal = removed
class_of caller_lost = removed
class_of group_gone = removed
class_of group_aborted = removed
class_of group_already_joined = removed
class_of ask_user_skipped = left
class_of caller_not_suspended = renewed
class_of child_waiting = renewed
class_of child_alive = renewed
class_of unroutable = renewed
class_of recovered = replied
class_of worker_lost = replied
class_of never_started = replied
class_of timed_out = replied
class_of error = impossible
class_of pruned = impossible

-- The entry of `m` has its deadline one increment after a reading of the clock, and every other entry
-- of every index is as before.
pub IsMoved : Env → Key → Text → Data → Data → Type 0
IsMoved env k m before after =
    (t : env.Store) × (after.zset
      ≡ (put_entry k m (some (env.now t + wait_renew_increment_ms)) before).zset)

-- The effect on the entry of `m` and on the control stream of the agent type `a`.
abbrev pub Effect : Env → Text → Key → Text → Data → Data → Class → Type 0
Effect env a k m before after removed =
    (after.zset k m ≡ none) × (after.stream (ctrl_stream a) ≡ before.stream (ctrl_stream a))
Effect env a k m before after left = after ≡ before
Effect env a k m before after renewed =
    IsMoved env k m before after × (after.stream (ctrl_stream a) ≡ before.stream (ctrl_stream a))
Effect env a k m before after replied = IsMoved env k m before after
Effect env a k m before after impossible = ⊥

-- The effect of a triage that did not throw.
abbrev pub Sound : Env → Text → Key → Text → Data → Data → Reply Outcome → Type 0
Sound env a k m before after (ok o) = Effect env a k m before after (class_of o)
Sound env a k m before after (err e) = Unit

module _ (env : Env) where
  open env use {
    Store, view, now, set_nx, set_nx_lem, zadd, zadd_lem, get, get_lem, hget, hget_lem, xadd,
    xadd_lem, uuid,
  }

  -- Indexes that agree have the same entries moved.
  pub IsMoved-zset :
      (k : Key) (m : Text) (d e before after : Data)
      → d.zset ≡ before.zset
      → after.zset ≡ e.zset
      → IsMoved env k m d e
      → IsMoved env k m before after
  unfolding IsMoved
  IsMoved-zset k m d e before after h i (t, q) = (t, ground (arith, h, i, q))

  -- Extending a deadline touches no stream, and if it succeeds the entry is in the index with the
  -- new deadline, whether or not it was there before.
  pub extend_deadline_lem :
      (due : DueEntry) (s : Store)
      → ((view (extend_deadline env due s).1).stream ≡ (view s).stream)
        × (((extend_deadline env due s).0 ≡ err tt)
            ⊎ IsMoved env due.index_key due.member (view s) (view (extend_deadline env due s).1))
  unfolding extend_deadline IsMoved
  extend_deadline_lem due s =
      let k = renew_origin_key env due in
      let r = set_nx k (number due.deadline_ms) wait_renew_origin_ttl_seconds s in
      let clock = now r.1 + wait_renew_increment_ms in
      let origin = set_nx_lem k (number due.deadline_ms) wait_renew_origin_ttl_seconds s in
      let written = zadd_lem due.index_key clock due.member r.1 in
      (
        ground (arith, origin, written),
        elim (Reply-cases (zadd due.index_key clock due.member r.1).0) [
          | inl (a, e) ↦ inr (r.1, ground (arith, e, origin, written))
          | inr e ↦ inl (ground (arith, e, origin))
        ],
      )

  pub renewal_ceiling_ms-view :
      (n : ℕ) (due : DueEntry) (child : Execution) (s : Store)
      → view (renewal_ceiling_ms env n due child s).1 ≡ view s
  unfolding renewal_ceiling_ms renewal_origin_ms
  renewal_ceiling_ms-view n due child s = ground (arith, get_lem (renew_origin_key env due) s)

  module _ (worker_id : Text) where
    send_reply_lem :
        (due : DueEntry) (agent : Text) (reply : Option ResumeCommand) (s : Store)
        → ((send_reply env worker_id due agent reply s).0 ≡ err tt)
          ⊎ (((send_reply env worker_id due agent reply s).0 ≡ ok true)
              × IsMoved env due.index_key due.member
                  (view s)
                  (view (send_reply env worker_id due agent reply s).1))
    unfolding send_reply
    send_reply_lem due agent none s = inl refl
    send_reply_lem due agent (some reply) s =
        let s1 = (xadd (ctrl_stream agent) (command (resume reply)) s).1 in
        ground (
          arith,
          xadd_lem (ctrl_stream agent) (command (resume reply)) s,
          extend_deadline_lem due s1,
          IsMoved-zset due.index_key due.member (view s1) (view (extend_deadline env due s1).1)
              (view s) (view (extend_deadline env due s1).1),
        )

    pub emit_reply_lem :
        (due : DueEntry) (caller : Execution) (p : ReplyParams) (s : Store)
        → ((emit_reply env worker_id due caller p s).0 ≡ err tt)
          ⊎ (IsMoved env due.index_key due.member
                (view s)
                (view (emit_reply env worker_id due caller p s).1)
              × (((emit_reply env worker_id due caller p s).0 ≡ ok true)
                  ⊎ (((emit_reply env worker_id due caller p s).0 ≡ ok false)
                      × ((view (emit_reply env worker_id due caller p s).1).stream
                          ≡ (view s).stream))))
    unfolding emit_reply
    emit_reply_lem due caller p s = ground (
      arith,
      extend_deadline_lem due s,
      send_reply_lem due (caller_agent_type p.child caller)
          (stand_in_reply (stand_in_params worker_id due caller p) (uuid s)) s,
    )
