-- ===== src/Worker/Completion.antt =====
-- src/worker.ts, `handleMessage`: whether the caller is answered when the handler returned, was
-- cancelled or failed. The hooks of the plug-ins are parameters.
use by_framework_ts.Common.{Text, codes, is_empty, Bool, true, false, [], ◌∷◌, Option, none, some}
use by_framework_ts.Protocol.Json.{text, obj, fields}
use by_framework_ts.Protocol.AgentState
use by_framework_ts.Protocol.Commands.{GatewayCommand, header_of}
use by_framework_ts.Redis.Values.{Execution}
use by_framework_ts.Redis.Env.{Env}
use by_framework_ts.Redis.Async.{Async, ◌>>=◌, ◌>>◌, return, throw, try_catch}
use by_framework_ts.Registry.Executions.{get_execution_by_message_id}
use by_framework_ts.Worker.Returns.{
  AgentTaskResult, apply_suspended_status, is_suspended, enqueue_agent_return,
}
use by_framework_ts.Worker.Groups.{status_result}

-- `onAgentReturnStart`, `onAgentReturnComplete` and `onAgentReturnError` of the plug-ins.
pub record Hooks (env : Env) : Type 0 where
  pub return_start : AgentTaskResult → Async env.Store (Unit {0})
  pub return_complete : AgentTaskResult → Async env.Store (Unit {0})
  pub return_error : AgentTaskResult → Async env.Store (Unit {0})

-- What `context` says of the suspension: `isSuspended()` and `suspendedState()`.
pub record Suspension : Type 0 where
  pub is_suspended : Bool
  pub suspended_state : Text

-- `parentExec?.cancel_requested`
abbrev pub is_cancel_requested : Option Execution → Bool
is_cancel_requested none = false
is_cancel_requested (some e) = e.cancel_requested

unfoldable pub cancel_result : Text → AgentTaskResult
unfolding status_result
cancel_result reason =
    status_result AgentState.cancelled (obj (fields ((codes "reason", text reason) ∷ [])))

unfoldable pub failure_result : Text → AgentTaskResult
unfolding status_result
failure_result error =
    status_result AgentState.failed (obj (fields ((codes "error", text error) ∷ [])))

module _ (env : Env) (worker_id : Text) (hooks : Hooks env) where
  open env use {Store}

  -- The result goes to the caller, between the hooks; an error of either is rethrown.
  unfoldable pub return_result : GatewayCommand → AgentTaskResult → Async Store (Unit {0})
  return_result c r = do
    hooks.return_start r
    try_catch (enqueue_agent_return env worker_id c r >> hooks.return_complete r)
        (hooks.return_error r >> throw)

  -- The same on the paths of a cancellation and of a failure, where an error is not rethrown.
  unfoldable pub return_last : GatewayCommand → AgentTaskResult → Async Store (Unit {0})
  return_last c r = do
    hooks.return_start r
    try_catch (enqueue_agent_return env worker_id c r >> hooks.return_complete r)
        (hooks.return_error r)

  -- `if (hasSourceAgent && !isSuspended)`; the reply is whether the result was handed over.
  unfoldable pub return_unless_suspended :
      Option GatewayCommand → Bool → AgentTaskResult → Async Store Bool
  return_unless_suspended none suspended r = return false
  return_unless_suspended (some c) true r = return false
  return_unless_suspended (some c) false r = return_result c r >> return true

  -- From the normalized result of the handler to the reply.
  unfoldable pub finish_task :
      Option GatewayCommand → Suspension → AgentTaskResult → Async Store Bool
  finish_task reply_command context r =
      return_unless_suspended reply_command (is_suspended context.is_suspended r)
        (apply_suspended_status r context.suspended_state)

  -- Whether the caller itself was asked to stop; without its id nobody knows.
  unfoldable pub is_caller_cancelled : GatewayCommand → Text → Async Store Bool
  is_caller_cancelled c session_id = elim (is_empty (header_of c).parent_message_id) [
    | true ↦ return false
    | false ↦ do
      parent ← get_execution_by_message_id env (header_of c).parent_message_id session_id
      return (is_cancel_requested parent)
  ]

  unfoldable pub cancel_task : Option GatewayCommand → Text → Text → Async Store (Unit {0})
  cancel_task none session_id reason = return tt
  cancel_task (some c) session_id reason = do
    cancelled ← is_caller_cancelled c session_id
    elim cancelled [ true ↦ return tt | false ↦ return_last c (cancel_result reason) ]

  unfoldable pub fail_task : Option GatewayCommand → Text → Async Store (Unit {0})
  fail_task none error = return tt
  fail_task (some c) error = return_last c (failure_result error)
