-- ===== src/Context/Accounting.antt =====
-- Dispatching a group books no reply: the account of the group is left to the join.
pub mod Totals
use by_framework_ts.Common.{
  ℕ, Text, text_eq, text_eq_iff, codes, is_empty, or_text, ◌≡◌, refl, ◌∙◌, ◌≢◌, ◌⊎◌, inl, inr, Bool,
  true, false, List, [], ◌∷◌, ◌++◌, Option, none, some, ok, err, arith, Bool-cases, Option-cases,
  length, if◌then◌else◌,
}
use by_framework_ts.Protocol.Json.{JsonRecord}
use by_framework_ts.Protocol.AgentState
use by_framework_ts.Protocol.Commands.{AskAgentCommand, ask_agent, ResumeCommand}
use by_framework_ts.Redis.Keys.{Key, key_eq_iff, task_group, session_registry, ctrl_stream}
use by_framework_ts.Redis.Values.{Value, number, plain, command, Execution}
use by_framework_ts.Redis.Data.{Data}
use by_framework_ts.Redis.Env.{Env}
use by_framework_ts.Redis.Async.{Async, ◌>>=◌, ◌>>◌, return, throw, reads, try_catch, Reply-cases}
use by_framework_ts.Registry.Executions.{initialize_execution}
use by_framework_ts.Registry.Executions.Saving.{initialize_execution_lem, initialize_execution-hash}
use by_framework_ts.Registry.Members.{has_online_agent_type}
use by_framework_ts.Registry.Members.Online.{has_online_agent_type-view}
use by_framework_ts.Liveness.WaitRegistration.{RegisterWaitParams, register_wait}
use by_framework_ts.Liveness.WaitRegistration.Reopening.{register_wait_lem, register_wait-stream}
use by_framework_ts.Liveness.WaitReply.{stand_in_reply}
use by_framework_ts.Liveness.WaitSweeper.Triage.{task_group_field_total, task_group_field_aborted}
use by_framework_ts.Worker.Groups.{task_group_field_completed}
use by_framework_ts.Worker.Returns.{first_chars, task_group_ttl_seconds}
use by_framework_ts.Dispatch.{generate_ask_agent_message_id}
use by_framework_ts.Context.{
  Context, Flags, Ports, World, suspended_in, transferred, trace_dispatch,
}
use by_framework_ts.Context.Groups.{
  GroupTask, Group, DispatchedTask, DispatchGroupResult, member_record, member_wait,
  undispatched_params, probe_group_member_online, push_stand_in, queue_undispatched_member_failure,
  refuse_member, abort_group, deliver_member, await_member, sent_record, refused_record,
  probe_member, member_metadata, member_command, send_member, place_member, dispatch_member,
  dispatch_members, open_account, begin_group, dispatch_group,
}

-- The total of a group and the number of its replies are the same.
abbrev pub SameAccount : Text → Data → Data → Type 0
SameAccount g d e =
    (e.hash (task_group g) task_group_field_total ≡ d.hash (task_group g) task_group_field_total)
    × (e.hash (task_group g) task_group_field_completed
        ≡ d.hash (task_group g) task_group_field_completed)

SameAccount-trans :
    (g : Text) (c d e : Data) → SameAccount g c d → SameAccount g d e → SameAccount g c e
SameAccount-trans g c d e (a, b) (x, y) = (x ∙ a, y ∙ b)

-- Code that leaves the account of a group alone, whatever it replies.
abbrev pub Leaves : {S A : Type 0} → (S → Data) → Text → Async S A → Type 0
Leaves {S} look g m = (s : S) → SameAccount g (look s) (look (m s).1)

module _ (env : Env) (ctx : Context) (ports : Ports env) (spell : Key → Text) where
  open env use {Store, view, uuid, hset, hset_lem, expire, expire_lem, xadd, xadd_lem}

  -- The plug-ins and the tracing leave the accounts of the groups alone.
  pub record AreApart : Type 0 where
    pub call_start_apart :
        (g : Text) (s : Store) → SameAccount g (view s) (view (ports.call_start s).1)
    pub call_complete_apart :
        (g : Text) (s : Store) → SameAccount g (view s) (view (ports.call_complete s).1)
    pub call_error_apart :
        (g : Text) (s : Store) → SameAccount g (view s) (view (ports.call_error s).1)
    pub record_span_apart :
        (g : Text) (s : Store) → SameAccount g (view s) (view (ports.record_span s).1)

  initialize_execution-account :
      (g : Text) (e : Execution) → Leaves view g (initialize_execution env e)
  initialize_execution-account g e s =
      let h = initialize_execution-hash env e s (task_group g) (ground arith) in ground (arith, h)

  register_wait-account : (g : Text) (w : RegisterWaitParams) → Leaves view g (register_wait env w)
  register_wait-account g w s = ground (arith, register_wait-stream env w s)

  xadd-account : (g : Text) (k : Key) (v : Value) → Leaves view g (xadd k v)
  xadd-account g k v s = ground (arith, xadd_lem k v s)

  probe-account : (g a : Text) → Leaves view g (probe_group_member_online env ctx ports spell a)
  unfolding probe_group_member_online
  probe-account g a s =
      ground
        (arith, has_online_agent_type-view env a s, Reply-cases (has_online_agent_type env a s).0)

  mark-account :
      (g h : Text) → Leaves view g (hset (task_group h) task_group_field_aborted (number 1))
  mark-account g h s = ground (
    arith,
    hset_lem (task_group h) task_group_field_aborted (number 1) s,
    key_eq_iff (task_group h) (task_group g),
    text_eq_iff task_group_field_aborted task_group_field_total,
    text_eq_iff task_group_field_aborted task_group_field_completed,
  )

  -- The contents that the world of the context shows.
  abbrev pub shown : World env → Data
  shown w = view w.0

  module _ (apart : AreApart) (h : Text) where
    open apart use {call_start_apart, call_complete_apart, call_error_apart, record_span_apart}

    abort_group-account : (g : Group) → Leaves view h (abort_group env ctx ports spell g)
    unfolding abort_group
    abort_group-account g s =
        let s1 = (ports.call_error s).1 in
        ground (
          arith,
          call_error_apart h s,
          Reply-cases (ports.call_error s).0,
          mark-account h g.id s1,
          Reply-cases (hset (task_group g.id) task_group_field_aborted (number 1) s1).0,
        )

    trace_dispatch-account : Leaves view h (trace_dispatch env ctx ports)
    unfolding trace_dispatch
    trace_dispatch-account s =
        ground (arith, record_span_apart h s, Reply-cases (ports.record_span s).0)

    deliver_member-account :
        (g : Group) (k : Key) (c : AskAgentCommand)
        → Leaves view h (deliver_member env ctx ports spell g k c)
    unfolding deliver_member
    deliver_member-account g k c s =
        let v = command (ask_agent c) in
        let s1 = (try_catch (xadd k v) (abort_group env ctx ports spell g) s).1 in
        let s2 = (trace_dispatch env ctx ports s1).1 in
        ground (
          arith,
          xadd-account h k v s,
          Reply-cases (xadd k v s).0,
          abort_group-account g (xadd k v s).1,
          Reply-cases (abort_group env ctx ports spell g (xadd k v s).1).0,
          trace_dispatch-account s1,
          Reply-cases (trace_dispatch env ctx ports s1).0,
          call_complete_apart h s2,
        )

    await_member-account :
        (g : Group) (id : Text) → Leaves view h (await_member env ctx ports spell g id)
    unfolding await_member
    await_member-account g id s = ground (arith, register_wait-account h (member_wait ctx g id) s)

    send_member-account :
        (g : Group) (task : GroupTask) (id : Text) (c : AskAgentCommand)
        → Leaves view h (send_member env ctx ports spell g task id c)
    unfolding send_member
    send_member-account g task id c s =
        let e = sent_record env ctx ports spell g task id (uuid s) in
        let s1 = (initialize_execution env e s).1 in
        let s2 = (await_member env ctx ports spell g id s1).1 in
        ground (
          arith,
          initialize_execution-account h e s,
          Reply-cases (initialize_execution env e s).0,
          await_member-account g id s1,
          Reply-cases (await_member env ctx ports spell g id s1).0,
          deliver_member-account g (ctrl_stream task.target_agent_type) c s2,
        )

    queue_undispatched-account :
        (g : Group) (task : GroupTask) (id : Text) (metadata : JsonRecord)
        → Leaves shown h (queue_undispatched_member_failure env ctx ports spell g task id metadata)
    unfolding queue_undispatched_member_failure push_stand_in
    queue_undispatched-account g task id metadata (s, f) =
        let s1 = (register_wait env (member_wait ctx g id) s).1 in
        ground (
          arith,
          register_wait-account h (member_wait ctx g id) s,
          Reply-cases (register_wait env (member_wait ctx g id) s).0,
          Option-cases (stand_in_reply (undispatched_params ctx g task id metadata) (uuid s1)),
          Bool-cases (is_empty ctx.current_agent_type),
        )

    refuse_member-account :
        (g : Group) (task : GroupTask) (id : Text)
        → Leaves shown h (refuse_member env ctx ports spell g task id)
    unfolding refuse_member
    refuse_member-account g task id (s, f) =
        let e = refused_record env ctx ports spell g task id (uuid s) in
        let metadata = member_metadata ports.span_id_hex task id in
        let s1 = (initialize_execution env e s).1 in
        let w2 =
          (queue_undispatched_member_failure env ctx ports spell g task id metadata (s1, f)).1 in
        ground (
          arith,
          initialize_execution-account h e s,
          Reply-cases (initialize_execution env e s).0,
          queue_undispatched-account g task id metadata (s1, f),
          Reply-cases
              (queue_undispatched_member_failure env ctx ports spell g task id metadata (s1, f)).0,
          call_error_apart h w2.0,
        )
