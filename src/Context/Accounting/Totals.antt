-- ===== src/Context/Accounting/Totals.antt =====
-- Dispatching a whole group leaves its account as it opens it.
use by_framework_ts.Common.{
  ℕ, Text, text_eq, codes, or_text, ◌≡◌, refl, inl, inr, Bool, true, false, List, [], ◌∷◌, ◌++◌,
  Option, some, ok, arith, Option-cases, length,
}
use by_framework_ts.Protocol.AgentState
use by_framework_ts.Protocol.Commands.{AskAgentCommand}
use by_framework_ts.Redis.Keys.{Key, key_eq_iff, task_group}
use by_framework_ts.Redis.Values.{number, plain}
use by_framework_ts.Redis.Env.{Env}
use by_framework_ts.Redis.Async.{Reply-cases}
use by_framework_ts.Liveness.WaitSweeper.Triage.{task_group_field_total}
use by_framework_ts.Worker.Groups.{task_group_field_completed}
use by_framework_ts.Worker.Returns.{first_chars, task_group_ttl_seconds}
use by_framework_ts.Dispatch.{generate_ask_agent_message_id}
use by_framework_ts.Context.{Context, Flags, Ports, World, suspended_in, trace_dispatch}
use by_framework_ts.Context.Groups.{
  GroupTask, Group, DispatchedTask, DispatchGroupResult, probe_member, member_command, place_member,
  dispatch_member, dispatch_members, open_account, begin_group, dispatch_group,
}
use by_framework_ts.Context.Accounting.{
  probe-account, shown, Leaves, AreApart, trace_dispatch-account, send_member-account,
  refuse_member-account,
}

module _ (env : Env) (ctx : Context) (ports : Ports env) (spell : Key → Text) where
  open env use {Store, view, uuid, hset, hset_lem, expire, expire_lem}

  module _ (apart : AreApart env ctx ports spell) (h : Text) where
    probe_member-account :
        (g : Group) (a : Text) → Leaves view h (probe_member env ctx ports spell g a)
    unfolding probe_member
    probe_member-account g a s = ground (arith, probe-account env ctx ports spell h a s)

    place_member-account :
        (g : Group) (task : GroupTask) (id : Text) (c : AskAgentCommand)
        → Leaves (shown env ctx ports spell) h (place_member env ctx ports spell g task id c)
    unfolding place_member
    place_member-account g task id c (s, f) =
        let a = task.target_agent_type in
        let s1 = (probe_member env ctx ports spell g a s).1 in
        elim (Reply-cases (probe_member env ctx ports spell g a s).0) [
          | inl (true, e) ↦ ground (
            arith,
            e,
            probe_member-account g a s,
            send_member-account env ctx ports spell apart h g task id c s1,
          )
          | inl (false, e) ↦ ground (
            arith,
            e,
            probe_member-account g a s,
            refuse_member-account env ctx ports spell apart h g task id (s1, f),
          )
          | inr e ↦ ground (arith, e, probe_member-account g a s)
        ]

    dispatch_member-account :
        (g : Group) (task : GroupTask)
        → Leaves (shown env ctx ports spell) h (dispatch_member env ctx ports spell g task)
    unfolding dispatch_member
    dispatch_member-account g task (s, f) =
        let id = generate_ask_agent_message_id (uuid s) in
        let s1 = (ports.call_start s).1 in
        elim (Option-cases (member_command ctx ports.span_id_hex g task id)) [
          | inl b ↦ ground (arith, b)
          | inr (c, b) ↦ ground (
            arith,
            b,
            apart.call_start_apart h s,
            Reply-cases (ports.call_start s).0,
            place_member-account g task id c (s1, f),
            Reply-cases (place_member env ctx ports spell g task id c (s1, f)).0,
          )
        ]

    dispatch_members-account :
        (g : Group) (tasks : List GroupTask)
        → Leaves (shown env ctx ports spell) h (dispatch_members env ctx ports spell g tasks)
    unfolding dispatch_members
    dispatch_members-account g [] w = (refl, refl)
    dispatch_members-account g (task ∷ tasks) w =
        let w1 = (dispatch_member env ctx ports spell g task w).1 in
        ground (
          arith,
          dispatch_member-account g task w,
          Reply-cases (dispatch_member env ctx ports spell g task w).0,
          dispatch_members-account g tasks w1,
          Reply-cases (dispatch_members env ctx ports spell g tasks w1).0,
        )

  dispatch_members-length :
      (g : Group) (tasks : List GroupTask) (w : World env) (dispatched : List DispatchedTask)
      → (dispatch_members env ctx ports spell g tasks w).0 ≡ ok dispatched
      → length dispatched ≡ length tasks
  unfolding dispatch_members
  dispatch_members-length g [] w dispatched h = ground arith
  dispatch_members-length g (task ∷ tasks) w dispatched h =
      let w1 = (dispatch_member env ctx ports spell g task w).1 in
      elim (Reply-cases (dispatch_members env ctx ports spell g tasks w1).0) [
        | inl (rest, e) ↦ ground (arith, e, dispatch_members-length g tasks w1 rest e)
        | inr e ↦ ground (arith, e)
      ]

  open_account_lem :
      (g : Group) (total : ℕ) (s : Store)
      → (open_account env ctx ports spell g total s).0 ≡ ok tt
      → let d = view (open_account env ctx ports spell g total s).1 in
        (d.hash (task_group g.id) task_group_field_total ≡ some (number total))
        × (d.hash (task_group g.id) task_group_field_completed ≡ some (number 0))
  unfolding open_account text_eq
  open_account_lem g total s h =
      let k = task_group g.id in
      let s1 = (hset k task_group_field_total (number total) s).1 in
      let s2 = (hset k task_group_field_completed (number 0) s1).1 in
      let s3 = (hset k (codes "source_agent_type") (plain ctx.current_agent_type) s2).1 in
      ground (
        arith,
        hset_lem k task_group_field_total (number total) s,
        hset_lem k task_group_field_completed (number 0) s1,
        hset_lem k (codes "source_agent_type") (plain ctx.current_agent_type) s2,
        expire_lem k task_group_ttl_seconds s3,
        key_eq_iff k k,
      )

  -- The group of a dispatch.
  abbrev pub group_of : Bool → Text → Option ℕ → Store → Group
  group_of wait parent timeout s = record {
    id = codes "tg-" ++ first_chars 8 (uuid s);
    wait = wait;
    parent_message_id = or_text parent ctx.current_message_id;
    reply_timeout_ms = timeout;
  }

  -- Dispatching a group that waits, where it succeeds, counts every task as dispatched and leaves an account with
  -- that total and no reply booked, however many of the members nobody could take: each reply that the
  -- group lacks is still to be counted by the join.
  pub dispatch_group-account :
      AreApart env ctx ports spell
      → (task : GroupTask) (tasks : List GroupTask) (parent : Text) (timeout : Option ℕ) (s : Store)
        (f : Flags) (r : DispatchGroupResult)
      → (dispatch_group env ctx ports spell (task ∷ tasks) true parent timeout (s, f)).0 ≡ ok r
      → let d =
          shown env ctx ports spell
            (dispatch_group env ctx ports spell (task ∷ tasks) true parent timeout (s, f)).1 in
        (d.hash (task_group r.task_group_id) task_group_field_total
          ≡ some (number (length (task ∷ tasks))))
        × (d.hash (task_group r.task_group_id) task_group_field_completed ≡ some (number 0))
        × (length r.dispatched_tasks ≡ length (task ∷ tasks))
  unfolding dispatch_group begin_group
  dispatch_group-account apart task tasks parent timeout s f r h =
      let g = group_of true parent timeout s in
      let total = length (task ∷ tasks) in
      let s1 = (open_account env ctx ports spell g total s).1 in
      let w1 : World env = (s1, suspended_in AgentState.waiting_agent f) in
      let w2 = (dispatch_members env ctx ports spell g (task ∷ tasks) w1).1 in
      elim (Reply-cases (dispatch_members env ctx ports spell g (task ∷ tasks) w1).0) [
        | inl (dispatched, e) ↦ ground (
          arith,
          e,
          open_account_lem g total s,
          Reply-cases (open_account env ctx ports spell g total s).0,
          dispatch_members-account apart g.id g (task ∷ tasks) w1,
          dispatch_members-length g (task ∷ tasks) w1 dispatched e,
          trace_dispatch-account env ctx ports spell apart g.id w2.0,
          Reply-cases (trace_dispatch env ctx ports w2.0).0,
        )
        | inr e ↦ absurd (ground (arith, e))
      ]
