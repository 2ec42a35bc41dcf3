-- ===== src/Availability/Messages.antt =====
-- src/availability.ts: the data of a delivery, its payloads and its verdicts.
use by_framework_ts.Common.{
  ℕ, Text, codes, text_eq, Bool, false, not, List, [], ◌∷◌, ◌++◌, Option, none, some, lookup,
}
use by_framework_ts.Protocol.Json.{JsonValue, JsonRecord, text, num, bool, obj, fields}
use by_framework_ts.Protocol.Strings.{or_json, string_or, to_upper_case}
use by_framework_ts.Redis.Keys.{Key, ctrl_stream, control_plane_delivery_pending_stream}
use by_framework_ts.Redis.Values.{Value, json}

-- `RoutePolicy`
abbrev pub fail_fast : Text
fail_fast = codes "FAIL_FAST"

abbrev pub send_anyway : Text
send_anyway = codes "SEND_ANYWAY"

abbrev pub wake_and_wait_policy : Text
wake_and_wait_policy = codes "WAKE_AND_WAIT"

abbrev pub wake_and_queue : Text
wake_and_queue = codes "WAKE_AND_QUEUE"

abbrev pub queue_only : Text
queue_only = codes "QUEUE_ONLY"

abbrev pub route_policies : List Text
route_policies = fail_fast ∷ send_anyway ∷ wake_and_wait_policy ∷ wake_and_queue ∷ queue_only ∷ []

pub data AvailabilityStatus : Type 0 where
  deliver_now wait_and_deliver queue_pending reject fallback_to_other_agent_type :
      AvailabilityStatus

-- A missing text is '', a missing priority 0, missing metadata {}; a negative time-out, which the
-- code takes for 0, is 0.
pub record DeliveryIntent : Type 0 where
  pub execution_id : Text
  pub message_id : Text
  pub session_id : Text
  pub trace_id : Text
  pub source : Text
  pub target_agent_type : Text
  pub user_code : Text
  pub region : Text
  pub priority : ℕ
  pub policy : Text
  pub timeout_ms : Option ℕ
  pub command_payload : JsonRecord
  pub metadata : JsonRecord

pub record AvailabilityResult : Type 0 where
  pub status : AvailabilityStatus
  pub stream_name : Option Key
  pub selected_agent_type : Text
  pub error : Text
  pub error_code : Text

abbrev pub wakeup_online_poll_interval_ms : ℕ
wakeup_online_poll_interval_ms = 100

-- `intent.timeoutMs ?? 30000`
abbrev pub timeout_of : Option ℕ → ℕ
timeout_of none = 30000
timeout_of (some ms) = ms

unfoldable pub wakeup_payload : DeliveryIntent → JsonRecord
wakeup_payload i =
    (codes "execution_id", text i.execution_id)
    ∷ (codes "target_agent_type", text i.target_agent_type)
    ∷ (codes "session_id", text i.session_id)
    ∷ (codes "trace_id", text i.trace_id)
    ∷ (codes "message_id", text i.message_id)
    ∷ (codes "source", text i.source)
    ∷ (codes "policy", text i.policy)
    ∷ (codes "timeout_ms", num (timeout_of i.timeout_ms))
    ∷ (codes "user_code", text i.user_code)
    ∷ (codes "region", text i.region)
    ∷ (codes "priority", num i.priority)
    ∷ (codes "metadata", obj (fields i.metadata))
    ∷ (codes "command_payload", obj (fields i.command_payload))
    ∷ []

-- The payload of `queuePending`; `spell` spells a stream's name.
unfoldable pub pending_payload : (spell : Key → Text) → DeliveryIntent → JsonRecord
pending_payload spell i =
    (codes "execution_id", text i.execution_id)
    ∷ (codes "message_id", text i.message_id)
    ∷ (codes "session_id", text i.session_id)
    ∷ (codes "trace_id", text i.trace_id)
    ∷ (codes "target_agent_type", text i.target_agent_type)
    ∷ (codes "delivery_stream", text (spell (ctrl_stream i.target_agent_type)))
    ∷ (codes "command_payload", obj (fields i.command_payload))
    ∷ (codes "user_code", text i.user_code)
    ∷ (codes "region", text i.region)
    ∷ (codes "priority", num i.priority)
    ∷ (codes "metadata", obj (fields i.metadata))
    ∷ []

-- `parseJson` and the optional chaining on it: what is no object has no fields.
unfoldable pub parse_json : Option Value → JsonRecord
parse_json (some (json o)) = o
parse_json _ = []

unfoldable pub is_open : JsonRecord → Bool
unfolding lookup
is_open circuit =
    text_eq (to_upper_case (string_or (lookup (codes "state") circuit) [])) (codes "OPEN")

-- `quota?.available === false`
is_false : Option JsonValue → Bool
is_false (some (bool b)) = not b
is_false _ = false

unfoldable pub is_exceeded : JsonRecord → Bool
unfolding is_false lookup
is_exceeded quota = is_false (lookup (codes "available") quota)

unfoldable pub selected_of : JsonRecord → Text
unfolding lookup or_json string_or
selected_of fallback =
    string_or
      (or_json (lookup (codes "selected_agent_type") fallback) (
        or_json (lookup (codes "agent_type") fallback)
          (lookup (codes "target_agent_type") fallback)))
      []

unfoldable pub deliver : Text → AvailabilityResult
deliver agent_type = record {
  status = deliver_now;
  stream_name = some (ctrl_stream agent_type);
  selected_agent_type = [];
  error = [];
  error_code = [];
}

unfoldable pub redirection : Text → AvailabilityResult
unfolding deliver
redirection selected = record (deliver selected) {
  status = fallback_to_other_agent_type;
  selected_agent_type = selected;
}

unfoldable pub pending_result : AvailabilityResult
pending_result = record {
  status = queue_pending;
  stream_name = some control_plane_delivery_pending_stream;
  selected_agent_type = [];
  error = [];
  error_code = [];
}

unfoldable pub rejection : Text → Text → AvailabilityResult
rejection message code = record {
  status = reject;
  stream_name = none;
  selected_agent_type = [];
  error = message;
  error_code = code;
}

abbrev pub unavailable : Text
unavailable = codes "AGENT_TYPE_UNAVAILABLE"

unfoldable pub unsupported : Text → AvailabilityResult
unfolding rejection
unsupported policy =
    rejection (codes "Unsupported offline route policy '" ++ policy ++ codes "'") unavailable

unfoldable pub no_alive_worker : Text → AvailabilityResult
unfolding rejection
no_alive_worker agent_type =
    rejection (codes "No alive worker found with agent type '" ++ agent_type ++ codes "'")
      unavailable

unfoldable pub wakeup_timed_out : Text → AvailabilityResult
unfolding rejection
wakeup_timed_out agent_type =
    rejection
      (codes "Timed out waiting for worker wakeup for agent_type '" ++ agent_type ++ codes "'")
      unavailable

unfoldable pub circuit_rejection : JsonRecord → AvailabilityResult
unfolding rejection lookup string_or
circuit_rejection circuit =
    rejection (string_or (lookup (codes "reason") circuit) (codes "agent circuit is open"))
      (codes "AGENT_CIRCUIT_OPEN")

unfoldable pub quota_rejection : JsonRecord → AvailabilityResult
unfolding rejection lookup string_or
quota_rejection quota =
    rejection (string_or (lookup (codes "reason") quota) (codes "user quota exceeded"))
      (codes "TENANT_QUOTA_EXCEEDED")
