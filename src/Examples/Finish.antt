-- ===== src/Examples/Finish.antt =====
-- Runs of the end of a task.
use by_framework_ts.Common.{codes, true, false, []}
use by_framework_ts.Protocol.Json.{text, null}
use by_framework_ts.Protocol.Commands.{AskAgentCommand}
use by_framework_ts.Redis.Async.{return}
use by_framework_ts.Redis.Memory.{memory}
use by_framework_ts.Worker.Returns.{AgentTaskResult, is_suspended}
use by_framework_ts.Worker.Completion.{Hooks, Suspension}

abbrev no_hooks : Hooks memory
no_hooks = record {
  return_start = λ r. return tt;
  return_complete = λ r. return tt;
  return_error = λ r. return tt;
}

abbrev asked : AskAgentCommand
asked = record {
  header = record {
    message_id = codes "c";
    session_id = codes "s";
    trace_id = codes "t";
    source_agent_type = codes "planner";
    target_agent_type = codes "search";
    parent_message_id = codes "p";
    task_group_id = [];
    user_code = [];
    user_name = [];
    metadata = [];
    trace_parent_span_id = [];
    langfuse_parent_observation_id = [];
  };
  content = text (codes "find it");
  wait_for_reply = true;
  extra_payload = [];
}

abbrev answer : AgentTaskResult
answer = record {
  status = codes "COMPLETED";
  content = text (codes "found");
  reply_data = null;
  metadata = [];
  extra_payload = [];
}

abbrev awake : Suspension
awake = record { is_suspended = false; suspended_state = [] }

abbrev asleep : Suspension
asleep = record { is_suspended = true; suspended_state = codes "WAITING_AGENT" }
