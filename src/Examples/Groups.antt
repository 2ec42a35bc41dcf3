-- ===== src/Examples/Groups.antt =====
-- Runs of the context: a call, a group, and the collection of its results.
use by_framework_ts.Common.{
  text_eq, codes, is_empty, or_text, ◌≡◌, refl, ◌≢◌, ◌⊎◌, true, false, [], ◌∷◌, none, some, ok,
  arith, length, lookup,
}
use by_framework_ts.Protocol.Json.{text, null}
use by_framework_ts.Protocol.Strings.{string_or, is_truthy_json, or_json, to_upper_case}
use by_framework_ts.Protocol.State.{trim}
use by_framework_ts.Protocol.AgentState
use by_framework_ts.Protocol.Commands.{has_content}
use by_framework_ts.Protocol.Codec.{ask_agent_command}
use by_framework_ts.Redis.Keys.{Key, key_eq, task_group, task_group_results}
use by_framework_ts.Redis.Values.{number, result, StoredResult}
use by_framework_ts.Redis.Data.{at_key}
use by_framework_ts.Redis.Async.{return}
use by_framework_ts.Redis.Stored.{erase, entries}
use by_framework_ts.Redis.Memory.{memory, Store, empty}
use by_framework_ts.Registry.Executions.{initialize_execution, write_named, piped}
use by_framework_ts.Registry.Members.{has_online_agent_type, online_of}
use by_framework_ts.Liveness.WaitRegistration.{register_wait}
use by_framework_ts.Liveness.WaitSweeper.Triage.{task_group_field_total}
use by_framework_ts.Worker.Groups.{task_group_field_completed}
use by_framework_ts.Worker.Returns.{first_chars}
use by_framework_ts.Protocol.Commands.{resume_command}
use by_framework_ts.Liveness.WaitReply.{stand_in_reply}
use by_framework_ts.Availability.{
  no_alive_worker, rejection, prepare_delivery, circuit_refusal, quota_refusal, charged_delivery,
  admitted_delivery, route_delivery, find_fallback, offline_delivery, read_json, parse_json,
  is_open, selected_of,
}
use by_framework_ts.Dispatch.{
  build_command, settle_call, rejected_call, policy_of, call_agent, route_call, intent_of,
  resolve_call_agent_publish_ids, generate_ask_agent_message_id,
}
use by_framework_ts.Context.{
  Context, Flags, Ports, CallAgentParams, suspended_in, context_call_agent, publish_call,
  conclude_call, trace_dispatch, publish_input,
}
use by_framework_ts.Context.Suspending.{context_call_agent-flags}
use by_framework_ts.Context.Groups.{
  GroupTask, DispatchGroupResult, dispatch_group, begin_group, open_account, dispatch_members,
  dispatch_member, member_command, place_member, probe_member, probe_group_member_online,
  refuse_member, queue_undispatched_member_failure, push_stand_in,
}
use by_framework_ts.Context.Accounting.{AreApart, shown}
use by_framework_ts.Context.Accounting.Totals.{dispatch_group-account}
use by_framework_ts.Context.Collecting.{
  group_result, collect_loop, collect_group_results, IsSteadyHash, collect_group_results-ends,
  collect_loop-repeats, poll_ms,
}
use by_framework_ts.Examples.Calls.{spell, failed, run_at-clock}

abbrev context : Context
context = record {
  session_id = codes "s";
  trace_id = codes "t";
  current_agent_type = codes "planner";
  current_message_id = codes "p";
  trace_parent_observation_id = [];
  user_code = [];
  user_name = [];
  task_group_id = [];
}

abbrev ports : Ports memory
ports = record {
  call_start = return tt;
  call_complete = return tt;
  call_error = return tt;
  record_span = return tt;
  span_id_hex = λ t. t;
  emit_ask_user = return tt;
}

abbrev flags : Flags
flags = record {
  is_suspended = false;
  suspended_state = [];
  permission_transferred = false;
  pending_group_replies = [];
}

abbrev task : GroupTask
task = record {
  target_agent_type = codes "search";
  content = codes "find it";
  payload = [];
  metadata = [];
}

ports-AreApart : AreApart memory context ports spell
ports-AreApart = record {
  call_start_apart = λ g s. (refl, refl);
  call_complete_apart = λ g s. (refl, refl);
  call_error_apart = λ g s. (refl, refl);
  record_span_apart = λ g s. (refl, refl);
}

abbrev group_result_of_task : DispatchGroupResult
group_result_of_task = record {
  status = codes "GROUP_QUEUED";
  task_group_id = codes "tg-00000000";
  dispatched_tasks =
      record { message_id = codes "msg-00000000"; target_agent_type = codes "search" } ∷ [];
}

task-dispatched :
    (dispatch_group memory context ports spell (task ∷ []) true [] none (empty 10, flags)).0
    ≡ ok group_result_of_task
unfolding dispatch_group begin_group open_account dispatch_members dispatch_member member_command
    ask_agent_command has_content trim is_empty place_member probe_member probe_group_member_online
    has_online_agent_type online_of refuse_member queue_undispatched_member_failure register_wait
    initialize_execution write_named piped push_stand_in stand_in_reply resume_command
    trace_dispatch generate_ask_agent_message_id first_chars key_eq text_eq
task-dispatched = refl

dispatch_group-account_example :
    let d =
      shown memory context ports spell
        (dispatch_group memory context ports spell (task ∷ []) true [] none (empty 10, flags)).1 in
    (d.hash (task_group (codes "tg-00000000")) task_group_field_total ≡ some (number 1))
    × (d.hash (task_group (codes "tg-00000000")) task_group_field_completed ≡ some (number 0))
    × (length group_result_of_task.dispatched_tasks ≡ length (task ∷ []))
dispatch_group-account_example =
    dispatch_group-account memory context ports spell ports-AreApart task [] [] none (empty 10)
      flags group_result_of_task task-dispatched

-- A server on which one of two results of a group is stored.
abbrev found : StoredResult
found = record {
  status = codes "COMPLETED";
  reply_data = null;
  content = text (codes "found");
  target_agent_type = codes "search";
  metadata = [];
  extra_payload = [];
}

abbrev halfway : Store
halfway = record (empty 10) {
  hashes = at_key (task_group_results (codes "g")) ((codes "c", result found) ∷ []) (λ k. []);
}

memory-IsSteadyHash : IsSteadyHash memory
memory-IsSteadyHash = record { hgetall_steady = λ k s. run_at-clock s.faults s _ (λ t. refl) }

collect_group_results-ends_example :
    (collect_group_results memory (codes "g") 30 halfway).0 ≢ ok none
collect_group_results-ends_example =
    collect_group_results-ends memory memory-IsSteadyHash (codes "g") 30 halfway

abbrev results : Key
results = task_group_results (codes "g")

halfway-found : (memory.hgetall results halfway).0 ≡ ok ((codes "c", result found) ∷ [])
unfolding entries erase key_eq text_eq
halfway-found = refl

halfway-found_again :
    (memory.hgetall results (memory.sleep poll_ms (memory.hgetall results halfway).1)).0
    ≡ ok ((codes "c", result found) ∷ [])
unfolding entries erase key_eq text_eq
halfway-found_again = refl

collect_loop-repeats_example :
    (collect_loop memory 2 10 30 (some 2) results [] halfway).0
    ≡ ok (some (group_result (codes "c") found ∷ group_result (codes "c") found ∷ []))
collect_loop-repeats_example =
    collect_loop-repeats memory 0 10 30 results halfway (codes "c") found (omega arith)
      halfway-found (omega arith) halfway-found_again

abbrev params : CallAgentParams
params = record {
  target_agent_type = codes "search";
  content = text (codes "find it");
  extra_payload = [];
  wait_for_reply = none;
  metadata = [];
  message_id = codes "c";
  parent_message_id = [];
  route_policy = none;
  availability_timeout_ms = none;
  region = [];
  priority = 0;
  reply_timeout_ms = some 500;
}

params-fail :
    (context_call_agent memory context ports spell 5000 params (empty 10, flags)).0
    ≡ ok (some failed)
unfolding context_call_agent publish_call trace_dispatch conclude_call call_agent build_command
    ask_agent_command has_content is_empty trim route_call prepare_delivery text_eq intent_of
    or_text circuit_refusal read_json parse_json is_open to_upper_case string_or is_truthy_json
    charged_delivery quota_refusal admitted_delivery route_delivery has_online_agent_type online_of
    find_fallback selected_of or_json offline_delivery no_alive_worker rejection settle_call
    initialize_execution write_named piped rejected_call resolve_call_agent_publish_ids policy_of
    lookup key_eq publish_input
params-fail = refl

context_call_agent-flags_example :
    ((failed.status ≡ AgentState.failed)
      × ((context_call_agent memory context ports spell 5000 params (empty 10, flags)).1.1 ≡ flags))
    ⊎ ((failed.status ≢ AgentState.failed)
        × ((params.wait_for_reply ≡ some false)
            ⊎ ((context_call_agent memory context ports spell 5000 params (empty 10, flags)).1.1
                ≡ suspended_in AgentState.waiting_agent flags)))
context_call_agent-flags_example =
    context_call_agent-flags memory context ports spell 5000 params (empty 10) flags failed
      params-fail
