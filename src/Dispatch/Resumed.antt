-- ===== src/Dispatch/Resumed.antt =====
-- An execution that suspended and was woken replies to the agent that dispatched it.
use by_framework_ts.Common.{◌≡◌}
use by_framework_ts.Redis.Values.{Execution}

-- Two records name the same dispatch.
abbrev Agrees : Execution → Execution → Type 0
Agrees e f =
    (f.source_agent_type ≡ e.source_agent_type)
    × (f.parent_message_id ≡ e.parent_message_id)
    × (f.task_group_id ≡ e.task_group_id)
