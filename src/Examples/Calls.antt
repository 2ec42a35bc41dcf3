-- ===== src/Examples/Calls.antt =====
-- Runs of the dispatch of calls.
use by_framework_ts.Common.{
  List, Bool, ◌+◌, ◌≤◌, Text, text_eq, codes, is_empty, or_text, ◌≡◌, refl, ◌≢◌, true, false, [],
  ◌∷◌, none, some, ok, arith, lookup,
}
use by_framework_ts.Protocol.Json.{text, null}
use by_framework_ts.Protocol.Strings.{string_or, is_truthy_json, or_json, to_upper_case}
use by_framework_ts.Protocol.State.{trim}
use by_framework_ts.Protocol.AgentState
use by_framework_ts.Protocol.Commands.{AskAgentCommand, ResumeCommand, has_content}
use by_framework_ts.Protocol.Codec.{asks, ask_agent_command, to_dict, command_from_dict}
use by_framework_ts.Protocol.Codec.RoundTrip.{command_from_dict-to_dict}
use by_framework_ts.Redis.Keys.{Key, key_eq}
use by_framework_ts.Redis.Values.{Execution}
use by_framework_ts.Redis.Memory.{memory, Store, empty, view, run_at}
use by_framework_ts.Registry.Executions.{
  initialize_execution, write_named, piped, StatusFields, initial_record, updated_record,
}
use by_framework_ts.Registry.Members.{has_online_agent_type, online_of}
use by_framework_ts.Liveness.WaitIndex.{member_from_resume}
use by_framework_ts.Liveness.WaitRegistration.{registered_member, register_wait}
use by_framework_ts.Worker.Returns.{return_header}
use by_framework_ts.Availability.{
  DeliveryIntent, AvailabilityResult, deliver_now, deliver, no_alive_worker, wakeup_timed_out,
  rejection, fail_fast, wake_and_wait_policy, prepare_delivery, circuit_refusal, quota_refusal,
  charged_delivery, admitted_delivery, route_delivery, find_fallback, offline_delivery, read_json,
  parse_json, is_open, is_exceeded, selected_of, wake_and_wait, await_online, pause_until,
  publish_wakeup, timeout_of,
}
use by_framework_ts.Availability.Policies.{Promise}
use by_framework_ts.Availability.Policies.Verdicts.{prepare_delivery_lem}
use by_framework_ts.Availability.Waiting.{IsSteady, prepare_delivery-ends, wake_and_wait-patient}
use by_framework_ts.Dispatch.{
  CallAgentPublishInput, CallAgentPublishResult, PublishIds, no_hint, build_command,
  dispatch_header, dispatch_wait, selected_command, resolve_call_agent_publish_ids,
  build_execution_record_for_ask_agent_command, no_fallback, settle_call, register_dispatch,
  publish_dispatch, publish_with_execution_record, queued_call, rejected_call, policy_of,
  call_agent, route_call, intent_of, without_key, dispatched_record,
}
use by_framework_ts.Dispatch.Waits.{Sent, Registered, dispatch_wait-member, settle_call-waits}
use by_framework_ts.Dispatch.Rejections.{call_agent-failed}

abbrev pub spell : Key → Text
spell k = []

abbrev intent : DeliveryIntent
intent = record {
  execution_id = codes "e";
  message_id = codes "c";
  session_id = codes "s";
  trace_id = codes "t";
  source = codes "planner";
  target_agent_type = codes "search";
  user_code = [];
  region = [];
  priority = 0;
  policy = fail_fast;
  timeout_ms = some 150;
  command_payload = [];
  metadata = [];
}

pub run_at-clock :
    {A : Type 0} (fs : List Bool) (s : Store) (f : Store → A × Store)
    → ((t : Store) → (f t).1.clock ≡ t.clock)
    → s.clock ≤ (run_at fs s f).1.clock
run_at-clock [] s f h = omega (arith, h (record s { faults = [] }))
run_at-clock (true ∷ fs) s f h = omega arith
run_at-clock (false ∷ fs) s f h = omega (arith, h (record s { faults = fs }))

memory-IsSteady : IsSteady memory spell
memory-IsSteady = record {
  smembers_steady = λ k s. run_at-clock s.faults s _ (λ t. refl);
  get_steady = λ k s. run_at-clock s.faults s _ (λ t. refl);
  xadd_steady = λ k v s. run_at-clock s.faults s _ (λ t. refl);
}

refused : AvailabilityResult
refused = no_alive_worker (codes "search")

nobody-refused :
    (prepare_delivery memory spell intent (empty 10)).0
    ≡ ok (some (no_alive_worker (codes "search")))
unfolding prepare_delivery circuit_refusal read_json parse_json is_open charged_delivery
    quota_refusal admitted_delivery route_delivery has_online_agent_type find_fallback selected_of
    offline_delivery string_or or_json is_truthy_json to_upper_case text_eq is_empty lookup key_eq
    online_of
nobody-refused = refl

prepare_delivery_lem_example :
    Promise spell intent
      (view (empty 10))
      (view (prepare_delivery memory spell intent (empty 10)).1)
      (no_alive_worker (codes "search"))
      (no_alive_worker (codes "search")).status
prepare_delivery_lem_example =
    prepare_delivery_lem memory spell intent (empty 10) (no_alive_worker (codes "search"))
      nobody-refused

abbrev waking : DeliveryIntent
waking = record intent { policy = wake_and_wait_policy }

prepare_delivery-ends_example : (prepare_delivery memory spell waking (empty 10)).0 ≢ ok none
prepare_delivery-ends_example = prepare_delivery-ends memory spell memory-IsSteady waking (empty 10)

waking-gives_up :
    (wake_and_wait memory spell waking (empty 10)).0 ≡ ok (some (wakeup_timed_out (codes "search")))
unfolding wake_and_wait publish_wakeup await_online has_online_agent_type online_of pause_until
waking-gives_up = refl

wake_and_wait-patient_example :
    10 + timeout_of (some 150) ≤ (wake_and_wait memory spell waking (empty 10)).1.clock
wake_and_wait-patient_example =
    wake_and_wait-patient memory spell memory-IsSteady waking (empty 10) waking-gives_up

abbrev input : CallAgentPublishInput
input = record {
  session_id = codes "s";
  trace_id = codes "t";
  source_agent_type = codes "planner";
  default_parent_message_id = codes "p";
  target_agent_type = codes "search";
  content = text (codes "find it");
  extra_payload = [];
  wait_for_reply = none;
  user_code = [];
  user_name = [];
  task_group_id = [];
  metadata = [];
  message_id = codes "c";
  parent_message_id = [];
  route_policy = none;
  availability_timeout_ms = none;
  region = [];
  priority = 0;
  reply_timeout_ms = some 500;
  langfuse_parent_observation_id = [];
}

abbrev ids : PublishIds
ids = record { message_id = codes "c"; parent_message_id = codes "p"; wait_for_reply = true }

abbrev asked : AskAgentCommand
asked = record {
  header = record {
    message_id = codes "c";
    session_id = codes "s";
    trace_id = codes "t";
    source_agent_type = codes "planner";
    target_agent_type = codes "search";
    parent_message_id = codes "p";
    task_group_id = [];
    user_code = [];
    user_name = [];
    metadata = [];
    trace_parent_span_id = [];
    langfuse_parent_observation_id = [];
  };
  content = text (codes "find it");
  wait_for_reply = true;
  extra_payload = [];
}

input-builds : build_command input ids ≡ some asked
unfolding build_command ask_agent_command has_content trim without_key dispatch_header is_empty
input-builds = refl

dispatch_wait-member_example :
    member_from_resume (
      return_header
        (codes "w")
        (selected_command asked (deliver (codes "search"))).header
        []
        (codes "u"))
    ≡ registered_member (dispatch_wait input ids)
dispatch_wait-member_example =
    dispatch_wait-member (codes "w") (codes "u") [] input ids asked (deliver (codes "search"))
      input-builds (ground arith)

abbrev record_of_asked : Execution
record_of_asked = build_execution_record_for_ask_agent_command asked [] (codes "exec-1") no_fallback

asked-settles :
    (settle_call memory spell 5000 input ids asked record_of_asked
      (deliver (codes "search"))
      (empty 10)).0
    ≡ ok (queued_call input ids (deliver (codes "search")))
unfolding settle_call register_dispatch register_wait publish_dispatch publish_with_execution_record
    initialize_execution write_named piped deliver
asked-settles = refl

delivered : (deliver (codes "search")).status ≡ deliver_now
unfolding deliver
delivered = refl

settle_call-waits_example :
    ((queued_call input ids (deliver (codes "search"))).status ≡ AgentState.queued)
    × Sent memory spell 5000 asked (deliver (codes "search")) (view (empty 10)) (
        view
          (settle_call memory spell 5000 input ids asked record_of_asked
            (deliver (codes "search"))
            (empty 10)).1)
    × (t : Store) × ((settle_call memory spell 5000 input ids asked record_of_asked
          (deliver (codes "search"))
          (empty 10)).1
        ≡ (publish_dispatch memory spell 5000 asked record_of_asked
            (policy_of input)
            (deliver (codes "search"))
            t).1)
    × ((view t).stream ≡ (view (empty 10)).stream)
    × Registered memory spell 5000 input ids (empty 10) t
    × Registered memory spell 5000 input ids (empty 10) (
        (settle_call memory spell 5000 input ids asked record_of_asked
          (deliver (codes "search"))
          (empty 10)).1)
settle_call-waits_example =
    settle_call-waits memory spell 5000 input ids asked record_of_asked (deliver (codes "search"))
      (empty 10) (queued_call input ids (deliver (codes "search"))) (rw delivered refl) refl
      asked-settles

abbrev running_fields : StatusFields
running_fields = record { worker_id = codes "w"; metadata = some []; others = [] }

abbrev running_record : Execution
running_record =
    updated_record
      (initial_record
        (dispatched_record spell asked record_of_asked (policy_of input) (deliver (codes "search")))
        10)
      (codes "RUNNING") (some running_fields) 20

-- The reply of a sub-agent, which wakes the execution of the call.
abbrev waking_reply : ResumeCommand
waking_reply = record {
  header = record asked.header { source_agent_type = codes "index"; parent_message_id = codes "d" };
  content = text (codes "pages");
  status = codes "COMPLETED";
  reply_data = null;
  extra_payload = [];
}

abbrev pub failed : CallAgentPublishResult
failed = rejected_call input ids (no_alive_worker (codes "search"))

input-fails : (call_agent memory spell 5000 input (empty 10)).0 ≡ ok (some failed)
unfolding call_agent build_command ask_agent_command has_content is_empty trim route_call
    prepare_delivery text_eq intent_of or_text circuit_refusal read_json parse_json is_open
    to_upper_case string_or is_truthy_json charged_delivery quota_refusal admitted_delivery
    route_delivery has_online_agent_type online_of find_fallback selected_of or_json
    offline_delivery no_alive_worker rejection settle_call initialize_execution write_named piped
    rejected_call resolve_call_agent_publish_ids policy_of lookup key_eq is_exceeded
input-fails = refl

failed-status : failed.status ≡ AgentState.failed
unfolding rejected_call
failed-status = refl

input-patience : or_text (policy_of input) fail_fast ≢ wake_and_wait_policy
unfolding policy_of or_text
input-patience = ground arith

call_agent-failed_example :
    (failed.runtime_hint ≡ no_hint)
    × ((view (call_agent memory spell 5000 input (empty 10)).1).stream ≡ (view (empty 10)).stream)
    × ((view (call_agent memory spell 5000 input (empty 10)).1).zset ≡ (view (empty 10)).zset)
call_agent-failed_example =
    call_agent-failed memory spell 5000 input (empty 10) failed input-fails failed-status
      input-patience

asked-content : has_content asked.content ≡ true
unfolding has_content trim is_empty
asked-content = refl

command_from_dict-to_dict_example : command_from_dict (to_dict (asks asked)) ≡ some (asks asked)
command_from_dict-to_dict_example = command_from_dict-to_dict (asks asked) asked-content
