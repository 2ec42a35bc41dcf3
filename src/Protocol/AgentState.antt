-- ===== src/Protocol/AgentState.antt =====
-- src/protocol/agent_state.ts: the wire spellings of the enum `AgentState`.
use by_framework_ts.Common.{Text, codes}

abbrev pub starting : Text
starting = codes "STARTING"

abbrev pub cancelling : Text
cancelling = codes "CANCELLING"

abbrev pub cancelled : Text
cancelled = codes "CANCELLED"

abbrev pub completed : Text
completed = codes "COMPLETED"

abbrev pub failed : Text
failed = codes "FAILED"

abbrev pub resumed : Text
resumed = codes "RESUMED"

abbrev pub waiting_agent : Text
waiting_agent = codes "WAITING_AGENT"

abbrev pub waiting_user : Text
waiting_user = codes "WAITING_USER"

abbrev pub queued : Text
queued = codes "QUEUED"

abbrev pub calling_agent : Text
calling_agent = codes "CALLING_AGENT"
