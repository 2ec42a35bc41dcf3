-- ===== src/Worker/Silence.antt =====
-- When a worker answers the caller of an execution, and that a suspended one stays silent.
use by_framework_ts.Common.{Text, ◌≡◌, refl, true, false, Option, none, some, ok, arith}
use by_framework_ts.Protocol.State.{is_terminal_state}
use by_framework_ts.Protocol.Commands.{GatewayCommand}
use by_framework_ts.Redis.Env.{Env}
use by_framework_ts.Worker.Returns.{AgentTaskResult, is_suspended}
use by_framework_ts.Worker.Completion.{Hooks, Suspension, return_unless_suspended, finish_task}

module _ (env : Env) (worker_id : Text) (hooks : Hooks env) where
  open env use {Store, view}

  -- An execution that suspended, and did not finish, says nothing to its caller: no command is
  -- issued and no hook runs.
  pub finish_task-suspended :
      (reply_command : Option GatewayCommand) (context : Suspension) (r : AgentTaskResult)
      (s : Store)
      → context.is_suspended ≡ true
      → is_terminal_state r.status ≡ false
      → finish_task env worker_id hooks reply_command context r s ≡ (ok false, s)
  unfolding finish_task return_unless_suspended is_suspended
  finish_task-suspended none context r s c t = refl
  finish_task-suspended (some back) context r s c t = ground (arith, c, t)
