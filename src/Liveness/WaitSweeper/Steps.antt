-- ===== src/Liveness/WaitSweeper/Steps.antt =====
-- The effects of the steps that the triage ends in: dropping, renewing, sending a stand-in, and what
-- a task group decides.
use by_framework_ts.Common.{
  Text, text_eq_iff, ◌≡◌, refl, inl, inr, [], Option, none, some, ok, err, arith, or_text,
}
use by_framework_ts.Protocol.State.{base_status}
use by_framework_ts.Protocol.Json.{text}
use by_framework_ts.Redis.Keys.{key_eq_iff, task_group, task_group_results}
use by_framework_ts.Redis.Values.{Execution, StoredResult}
use by_framework_ts.Redis.Env.{Env, Reply}
use by_framework_ts.Redis.Async.{◌>>◌, return, Reply-cases}
use by_framework_ts.Liveness.WaitReply.{failure_reply_data}
use by_framework_ts.Liveness.WaitSweeper.Deadlines.{DueEntry, extend_deadline}
use by_framework_ts.Liveness.WaitSweeper.Replies.{
  Outcome, recovered, ReplyParams, emit_reply, synthesize_failure, recover_finished_child,
  recover_from, load_stored_result, child_metadata, lost_status, result_lost_message,
  reply_lost_recovered, or_blank_content, single_call_task_group_id,
}
use by_framework_ts.Liveness.WaitSweeper.Triage.{
  Sweeper, drop_entry, group_blocks_compensation, task_group_field_total, task_group_field_aborted,
}
use by_framework_ts.Liveness.WaitSweeper.Effects.{
  removed, renewed, replied, class_of, Effect, Sound, extend_deadline_lem, emit_reply_lem,
}

module _ (env : Env) (w : Sweeper env) (a : Text) where
  open env use {Store, view, now, zrem, zrem_lem, hget, hget_lem}

  -- `Sound`, of a triage step on an entry.
  abbrev pub IsSound : DueEntry → Store → Reply Outcome × Store → Type 0
  IsSound due s r = Sound env a due.index_key due.member (view s) (view r.1) r.0

  pub drop_entry-IsSound :
      (due : DueEntry) (o : Outcome) (s : Store)
      → class_of o ≡ removed
      → IsSound due s (drop_entry env w due o s)
  unfolding drop_entry
  drop_entry-IsSound due o s c = ground (
    arith,
    zrem_lem due.index_key due.member s,
    key_eq_iff due.index_key due.index_key,
    text_eq_iff due.member due.member,
  )

  pub synthesize_failure-IsSound :
      (due : DueEntry) (caller : Execution) (child : Option Execution) (code message : Text)
      (o : Outcome) (status : Text) (s : Store)
      → class_of o ≡ replied
      → IsSound due s (synthesize_failure env w.worker_id due caller child code message o status s)
  unfolding synthesize_failure
  synthesize_failure-IsSound due caller child code message o status s c =
      let p : ReplyParams = record {
        child = child;
        status = status;
        content = text [];
        reply_data = failure_reply_data message code due.entry.child_message_id;
        extra_payload = [];
        error_code = code;
        metadata = child_metadata env w.worker_id child;
      } in
      ground (arith, emit_reply_lem env w.worker_id due caller p s)

  pub emitted-IsSound :
      (due : DueEntry) (caller : Execution) (p : ReplyParams) (s : Store)
      → IsSound due s ((emit_reply env w.worker_id due caller p >> return recovered) s)
  emitted-IsSound due caller p s = ground (arith, emit_reply_lem env w.worker_id due caller p s)

  pub extended-IsSound :
      (due : DueEntry) (o : Outcome) (s : Store)
      → class_of o ≡ renewed
      → IsSound due s ((extend_deadline env due >> return o) s)
  extended-IsSound due o s c = ground (arith, extend_deadline_lem env due s)

  pub load_stored_result-view :
      (child : Text) (s : Store) → view (load_stored_result env w.worker_id child s).1 ≡ view s
  unfolding load_stored_result
  load_stored_result-view child s =
      ground (arith, hget_lem (task_group_results (single_call_task_group_id child)) child s)

  pub recovered-IsSound :
      (due : DueEntry) (caller child : Execution) (stored : Option StoredResult) (s : Store)
      → IsSound due s (recover_from env w.worker_id due caller child stored s)
  unfolding recover_from
  recovered-IsSound due caller child none s =
      synthesize_failure-IsSound due caller (some child) reply_lost_recovered
        (result_lost_message due child) recovered
        (lost_status env w.worker_id (base_status child.status)) s refl
  recovered-IsSound due caller child (some r) s =
      let p : ReplyParams = record {
        child = some child;
        status = or_text r.status (base_status child.status);
        content = or_blank_content env w.worker_id r.content;
        reply_data = r.reply_data;
        extra_payload = r.extra_payload;
        error_code = reply_lost_recovered;
        metadata = r.metadata;
      } in
      emitted-IsSound due caller p s

  pub recover_finished_child-IsSound :
      (due : DueEntry) (caller child : Execution) (s : Store)
      → IsSound due s (recover_finished_child env w.worker_id due caller child s)
  unfolding recover_finished_child
  recover_finished_child-IsSound due caller child s =
      let r = load_stored_result env w.worker_id due.entry.child_message_id s in
      elim (Reply-cases r.0) [
        | inl (stored, e) ↦ ground (
          arith,
          e,
          load_stored_result-view due.entry.child_message_id s,
          recovered-IsSound due caller child stored r.1,
        )
        | inr e ↦ ground (arith, e)
      ]

  abbrev pub Blocks : DueEntry → Store → Store → Reply (Option Outcome) → Type 0
  Blocks due s s1 (ok none) = view s1 ≡ view s
  Blocks due s s1 (ok (some o)) =
      Effect env a due.index_key due.member (view s) (view s1) (class_of o)
  Blocks due s s1 (err e) = Unit

  pub group_blocks_compensation_lem :
      (due : DueEntry) (s : Store)
      → Blocks due s
          (group_blocks_compensation env w due s).1
          (group_blocks_compensation env w due s).0
  unfolding group_blocks_compensation drop_entry
  group_blocks_compensation_lem due s =
      let group = task_group due.entry.task_group_id in
      let results = task_group_results due.entry.task_group_id in
      let s1 = (hget group task_group_field_total s).1 in
      let s2 = (hget group task_group_field_aborted s1).1 in
      let s3 = (hget results due.entry.child_message_id s2).1 in
      ground (
        arith,
        hget_lem group task_group_field_total s,
        hget_lem group task_group_field_aborted s1,
        hget_lem results due.entry.child_message_id s2,
        zrem_lem due.index_key due.member s1,
        zrem_lem due.index_key due.member s2,
        zrem_lem due.index_key due.member s3,
        key_eq_iff due.index_key due.index_key,
        text_eq_iff due.member due.member,
      )
