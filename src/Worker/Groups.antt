-- ===== src/Worker/Groups.antt =====
-- src/worker.ts, `handleMessage`: the join of a task group when one of its replies arrives.
use by_framework_ts.Common.{
  ℕ, ltb, Text, codes, is_empty, Bool, true, false, [], ◌∷◌, ◌++◌, Option, some, is_some,
  if◌then◌else◌,
}
use by_framework_ts.Protocol.Json.{JsonValue, text, null, obj, fields}
use by_framework_ts.Protocol.AgentState
use by_framework_ts.Protocol.Commands.{ResumeCommand}
use by_framework_ts.Redis.Keys.{task_group, task_group_results}
use by_framework_ts.Redis.Values.{Value, number, result}
use by_framework_ts.Redis.Env.{Env}
use by_framework_ts.Redis.Async.{Async, ◌>>=◌, ◌>>◌, return}
use by_framework_ts.Liveness.WaitSweeper.Triage.{
  task_group_field_total, task_group_field_aborted, is_truthy,
}
use by_framework_ts.Worker.Returns.{AgentTaskResult, result_data, task_group_ttl_seconds}

abbrev pub task_group_field_completed : Text
task_group_field_completed = codes "completed"

-- How the join goes on: to the handler, or out of `handleMessage` with a result.
pub data Join : Type 0 where
  proceeds : Join
  finishes : AgentTaskResult → Join

unfoldable pub status_result : Text → JsonValue → AgentTaskResult
status_result status reply_data = record {
  status = status;
  content = text [];
  reply_data = reply_data;
  metadata = [];
  extra_payload = [];
}

unfoldable pub expired_result : ResumeCommand → AgentTaskResult
expired_result c = status_result AgentState.failed (
    obj (
      fields (
        (
          codes "error",
          text (
              codes "Task group "
              ++ (c.header.task_group_id ++ codes " expired before all replies arrived")),
        )
        ∷ (codes "error_code", text (codes "TASK_GROUP_EXPIRED"))
        ∷ (codes "task_group_id", text c.header.task_group_id)
        ∷ (codes "child_message_id", text c.header.parent_message_id)
        ∷ [])))

-- `completed < parseInt(totalStr, 10)`, of a total that the dispatcher wrote as a number; a
-- comparison with what is no number fails.
unfoldable pub is_incomplete : ℕ → Option Value → Bool
is_incomplete completed (some (number total)) = ltb completed total
is_incomplete completed _ = false

module _ (env : Env) where
  open env use {Store, hget, hset, hincrby, expire}

  -- The reply is stored under its sub-task's id and counted.
  unfoldable pub count_reply : ResumeCommand → Option Value → Async Store Join
  count_reply c total = do
    hset (task_group_results c.header.task_group_id) c.header.parent_message_id
        (result (result_data c))
    expire (task_group_results c.header.task_group_id) task_group_ttl_seconds
    completed ← hincrby (task_group c.header.task_group_id) task_group_field_completed 1
    return (
        if is_incomplete completed total
        then finishes (status_result (AgentState.waiting_agent ++ codes ": waiting_for_group") null)
        else proceeds)

  unfoldable pub join_group : ResumeCommand → Async Store Join
  join_group c = if is_empty c.header.task_group_id then return proceeds else do
    total ← hget (task_group c.header.task_group_id) task_group_field_total
    elim (is_some total) [
      | false ↦ return (finishes (expired_result c))
      | true ↦ do
        aborted ← hget (task_group c.header.task_group_id) task_group_field_aborted
        elim (is_truthy aborted) [
          | true ↦
              return
                (finishes (status_result (AgentState.cancelled ++ codes ": group_aborted") null))
          | false ↦ count_reply c total
        ]
    ]
