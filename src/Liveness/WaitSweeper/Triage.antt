-- ===== src/Liveness/WaitSweeper/Triage.antt =====
-- src/liveness/wait_sweeper.ts, `resolveEntry` and the steps of the triage.
use by_framework_ts.Common.{
  ℕ, Text, codes, is_empty, Bool, true, false, not, ◌||◌, ◌++◌, Option, none, some, ok, err, ltb,
  if◌then◌else◌, Result, is_some,
}
use by_framework_ts.Protocol.AgentState
use by_framework_ts.Protocol.State.{base_status, is_terminal_state, is_suspended_state}
use by_framework_ts.Redis.Keys.{Key, task_group, task_group_results}
use by_framework_ts.Redis.Values.{Value, plain, Execution}
use by_framework_ts.Redis.Env.{Env}
use by_framework_ts.Redis.Async.{Async, ◌>>=◌, ◌>>◌, return, reads, try_catch}
use by_framework_ts.Registry.Executions.{get_execution_by_message_id}
use by_framework_ts.Registry.Leases.{is_worker_online}
use by_framework_ts.Liveness.WaitIndex.{WaitIndexMember, MemberError, decode_member}
use by_framework_ts.Liveness.WaitSweeper.Deadlines.{DueEntry, extend_deadline, renewal_ceiling_ms}
use by_framework_ts.Liveness.WaitSweeper.Replies.{
  Outcome, malformed, caller_missing, caller_terminal, caller_lost, caller_not_suspended,
  ask_user_skipped, group_gone, group_aborted, group_already_joined, child_waiting, child_alive,
  worker_lost, never_started, timed_out, child_worker_lost, child_timeout, child_never_started,
  synthesize_failure, recover_finished_child,
}

abbrev pub task_group_field_total : Text
task_group_field_total = codes "total"

abbrev pub task_group_field_aborted : Text
task_group_field_aborted = codes "aborted"

-- What a sweeper is configured with. `cancel_child` is the injected delivery of a cancellation;
-- `decimal` spells a number in an operator's message.
pub record Sweeper (env : Env) : Type 0 where
  pub worker_id : Text
  pub renew_max_multiple : ℕ
  pub cancel_on_timeout : Bool
  pub cancel_child : (message_id session_id reason : Text) → Async env.Store Bool
  pub decimal : ℕ → Text

-- The test `if (await hget(...))` of a field that holds a text: a text is true unless it is empty.
abbrev pub is_truthy : Option Value → Bool
is_truthy none = false
is_truthy (some (plain s)) = not (is_empty s)
is_truthy (some v) = true

-- The messages of the failures, for operators.
pub timeout_message : DueEntry → Execution → Text → Text
timeout_message due child multiple =
    codes "Sub-task "
    ++ (due.entry.child_message_id
        ++ (codes " is still "
            ++ (base_status child.status
                ++ (codes " on live worker "
                    ++ (child.worker_id
                        ++ (codes " but produced no reply within "
                            ++ (multiple ++ codes "x its reply timeout")))))))

pub not_picked_up_message : DueEntry → Execution → Text
not_picked_up_message due child =
    codes "Sub-task "
    ++ (due.entry.child_message_id
        ++ (codes " was never picked up by a worker (status="
            ++ (base_status child.status ++ codes ")")))

pub lost_message : DueEntry → Execution → Text
lost_message due child =
    codes "Worker "
    ++ (child.worker_id
        ++ (codes " running sub-task "
            ++ (due.entry.child_message_id
                ++ (codes " is no longer alive (status="
                    ++ (base_status child.status ++ codes ")")))))

pub not_recorded_message : DueEntry → Text
not_recorded_message due =
    codes "No execution was ever recorded for sub-task " ++ due.entry.child_message_id

module _ (env : Env) (w : Sweeper env) where
  open env use {Store, now, zrem, hget}

  -- An entry that nothing can come of is removed.
  unfoldable pub drop_entry : DueEntry → Outcome → Async Store Outcome
  drop_entry due outcome = do zrem due.index_key due.member; return outcome

  unfoldable pub group_blocks_compensation : DueEntry → Async Store (Option Outcome)
  group_blocks_compensation due = do
    total ← hget (task_group due.entry.task_group_id) task_group_field_total
    elim (is_some total) [
      | false ↦ drop_entry due group_gone >>= λ o. return (some o)
      | true ↦ do
        aborted ← hget (task_group due.entry.task_group_id) task_group_field_aborted
        elim (is_truthy aborted) [
          | true ↦ drop_entry due group_aborted >>= λ o. return (some o)
          | false ↦ do
            recorded ← hget (task_group_results due.entry.task_group_id) due.entry.child_message_id
            elim (is_some recorded) [
              | true ↦ drop_entry due group_already_joined >>= λ o. return (some o)
              | false ↦ return none
            ]
        ]
    ]

  -- `callerWorkerId && !(await isWorkerOnline(callerWorkerId))`
  unfoldable pub is_lost : Text → Async Store Bool
  is_lost worker_id =
      if is_empty worker_id
      then return false
      else is_worker_online env worker_id >>= λ online. return (not online)

  unfoldable pub resolve_unsuspended_caller : DueEntry → Execution → Async Store Outcome
  resolve_unsuspended_caller due caller = do
    lost ← is_lost caller.worker_id
    elim lost [
      | true ↦ drop_entry due caller_lost
      | false ↦ extend_deadline env due >> return caller_not_suspended
    ]

  unfoldable pub cancel_timed_out_child : DueEntry → Execution → Async Store Bool
  cancel_timed_out_child due child =
      if not w.cancel_on_timeout || child.cancel_requested
      then return false
      else try_catch
          (w.cancel_child due.entry.child_message_id due.entry.session_id
            (child_timeout ++ codes ": no reply before deadline"))
          (return false)

  -- A callee on a live worker is given more time, up to its ceiling.
  unfoldable pub triage_running : DueEntry → Execution → Execution → Async Store Outcome
  triage_running due caller child = do
    limit ← renewal_ceiling_ms env w.renew_max_multiple due child
    clock ← reads now
    elim (ltb clock limit) [
      | true ↦ extend_deadline env due >> return child_alive
      | false ↦ do
        outcome ←
            synthesize_failure env w.worker_id due caller (some child) child_timeout
              (timeout_message due child (w.decimal w.renew_max_multiple)) timed_out
              AgentState.failed
        cancel_timed_out_child due child
        return outcome
    ]

  -- A callee that is neither finished nor waiting itself.
  unfoldable pub triage_worker : DueEntry → Execution → Execution → Async Store Outcome
  triage_worker due caller child = elim (is_empty child.worker_id) [
    | true ↦
        synthesize_failure env w.worker_id due caller (some child) child_never_started
          (not_picked_up_message due child) never_started AgentState.failed
    | false ↦ do
      online ← is_worker_online env child.worker_id
      elim online [
        | true ↦ triage_running due caller child
        | false ↦
            synthesize_failure env w.worker_id due caller (some child) child_worker_lost
              (lost_message due child) worker_lost AgentState.failed
      ]
  ]

  unfoldable pub triage_found : DueEntry → Execution → Option Execution → Async Store Outcome
  triage_found due caller none =
      synthesize_failure env w.worker_id due caller none child_never_started
        (not_recorded_message due) never_started AgentState.failed
  triage_found due caller (some child) = elim (is_terminal_state (base_status child.status)) [
    | true ↦ recover_finished_child env w.worker_id due caller child
    | false ↦ elim (is_suspended_state (base_status child.status)) [
      | true ↦ extend_deadline env due >> return child_waiting
      | false ↦ triage_worker due caller child
    ]
  ]

  unfoldable pub triage_child : DueEntry → Execution → Async Store Outcome
  triage_child due caller = do
    child ← get_execution_by_message_id env due.entry.child_message_id due.entry.session_id
    triage_found due caller child

  -- `if (blocked !== null) return blocked`
  abbrev pub unless_blocked : Option Outcome → Async Store Outcome → Async Store Outcome
  unless_blocked none m = m
  unless_blocked (some outcome) m = return outcome

  -- The caller is suspended: an `askUser` wait is left alone, a group may block compensation.
  unfoldable pub triage_suspended : DueEntry → Execution → Async Store Outcome
  triage_suspended due caller = elim (is_empty due.entry.child_message_id) [
    | true ↦ return ask_user_skipped
    | false ↦ elim (is_empty due.entry.task_group_id) [
      | true ↦ triage_child due caller
      | false ↦ do
        blocked ← group_blocks_compensation due
        unless_blocked blocked (triage_child due caller)
    ]
  ]

  unfoldable pub triage_caller : DueEntry → Option Execution → Async Store Outcome
  triage_caller due none = drop_entry due caller_missing
  triage_caller due (some caller) = elim (is_terminal_state (base_status caller.status)) [
    | true ↦ drop_entry due caller_terminal
    | false ↦ elim (is_suspended_state (base_status caller.status)) [
      | true ↦ triage_suspended due caller
      | false ↦ resolve_unsuspended_caller due caller
    ]
  ]

  unfoldable pub resolve_decoded :
      Key → Text → ℕ → Result MemberError WaitIndexMember → Async Store Outcome
  resolve_decoded index_key member score (err e) = do zrem index_key member; return malformed
  resolve_decoded index_key member score (ok entry) = do
    caller ← get_execution_by_message_id env entry.parent_message_id entry.session_id
    triage_caller
        (record { index_key = index_key; member = member; deadline_ms = score; entry = entry })
        caller

  unfoldable pub resolve_entry : Key → Text → ℕ → Async Store Outcome
  resolve_entry index_key member score =
      resolve_decoded index_key member score (decode_member member)
