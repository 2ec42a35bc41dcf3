-- ===== src/Examples/Work.antt =====
-- Runs of a worker: its replies, and the joins of a group.
use by_framework_ts.Common.{
  ◌+◌, ◌≤◌, ◌<◌, codes, text_eq, is_empty, or_text, ◌≡◌, refl, true, false, [], ◌∷◌, some, ok, err,
  arith, lookup, insert,
}
use by_framework_ts.Protocol.Json.{text, null}
use by_framework_ts.Protocol.State.{is_terminal_state}
use by_framework_ts.Protocol.Header.{MessageHeader}
use by_framework_ts.Protocol.Commands.{
  ask_agent, resume, AskAgentCommand, ResumeCommand, resume_command,
}
use by_framework_ts.Redis.Keys.{key_eq, ctrl_stream, task_group, task_group_results}
use by_framework_ts.Redis.Values.{number, result, command}
use by_framework_ts.Redis.Data.{at_key}
use by_framework_ts.Redis.Memory.{memory, Store, empty, view}
use by_framework_ts.Liveness.WaitIndex.{member_from_resume}
use by_framework_ts.Liveness.WaitRegistration.{registered_member}
use by_framework_ts.Liveness.WaitSweeper.Triage.{task_group_field_total}
use by_framework_ts.Worker.Returns.{
  AgentTaskResult, result_data, enqueue_agent_return, send_return, return_header,
  persist_single_call_result, xadd_with_retry, back_off, max_retry_count, apply_suspended_status,
}
use by_framework_ts.Worker.Groups.{proceeds, join_group, count_reply, is_incomplete}
use by_framework_ts.Worker.Delivery.{
  Ends, xadd_with_retry-patient, wait_for, enqueue_agent_return-delivers,
}
use by_framework_ts.Examples.Calls.{run_at-clock}
use by_framework_ts.Worker.Joining.{counted, any_proceeds, join_group-proceeds, any_proceeds-false}

abbrev dispatched : MessageHeader
dispatched = record {
  message_id = codes "c";
  session_id = codes "s";
  trace_id = codes "t";
  source_agent_type = codes "planner";
  target_agent_type = codes "search";
  parent_message_id = codes "p";
  task_group_id = codes "g";
  user_code = [];
  user_name = [];
  metadata = [];
  trace_parent_span_id = [];
  langfuse_parent_observation_id = [];
}

abbrev asked : AskAgentCommand
asked = record {
  header = dispatched;
  content = text (codes "find it");
  wait_for_reply = true;
  extra_payload = [];
}

abbrev answer : AgentTaskResult
answer = record {
  status = codes "COMPLETED";
  content = text (codes "found");
  reply_data = null;
  metadata = [];
  extra_payload = [];
}

-- A server on which the first attempt to send a reply throws.
abbrev flaky : Store
flaky = record (empty 10) { faults = true ∷ [] }

answered : (enqueue_agent_return memory (codes "w") (ask_agent asked) answer flaky).0 ≡ ok tt
unfolding enqueue_agent_return send_return return_header persist_single_call_result xadd_with_retry
    back_off resume_command or_text is_empty
answered = refl

enqueue_agent_return-delivers_example :
    (reply : ResumeCommand) × (t : Store) × Ends memory
      (codes "w")
      (ctrl_stream (codes "planner"))
      (command (resume reply))
      t
      (enqueue_agent_return memory (codes "w") (ask_agent asked) answer flaky).1
    × (member_from_resume reply.header ≡ registered_member (wait_for dispatched))
    × (reply.status ≡ codes "COMPLETED")
    × (reply.content ≡ text (codes "found"))
    × (reply.reply_data ≡ null)
enqueue_agent_return-delivers_example =
    enqueue_agent_return-delivers memory (codes "w") (ask_agent asked) answer flaky (ground arith)
      (ground arith) answered

-- A server on which every attempt to send a reply throws.
abbrev broken : Store
broken = record (empty 10) { faults = true ∷ true ∷ true ∷ [] }

broken-fails :
    (xadd_with_retry memory
      (codes "w")
      max_retry_count
      (ctrl_stream (codes "planner"))
      (number 7)
      broken).0
    ≡ err tt
unfolding xadd_with_retry back_off
broken-fails = refl

xadd_with_retry-patient_example :
    (s1 s2 : Store) × ((memory.xadd (ctrl_stream (codes "planner")) (number 7) broken).0 ≡ err tt)
    × ((memory.xadd (ctrl_stream (codes "planner")) (number 7) s1).0 ≡ err tt)
    × ((memory.xadd (ctrl_stream (codes "planner")) (number 7) s2).0 ≡ err tt)
    × (10 + 1000 ≤ memory.now s1)
    × (memory.now s1 + 2000 ≤ memory.now s2)
    × ((xadd_with_retry memory
          (codes "w")
          max_retry_count
          (ctrl_stream (codes "planner"))
          (number 7)
          broken).1
        ≡ (memory.xadd (ctrl_stream (codes "planner")) (number 7) s2).1)
xadd_with_retry-patient_example =
    xadd_with_retry-patient memory (codes "w") (ctrl_stream (codes "planner")) (number 7) broken
      (λ k v s. run_at-clock s.faults s _ (λ t. refl)) broken-fails

-- A reply of the group `g`, and servers on which one, and both, of its two replies are missing.
abbrev reply : ResumeCommand
reply = record {
  header = record dispatched { message_id = codes "p"; parent_message_id = codes "c" };
  content = text (codes "found");
  status = codes "COMPLETED";
  reply_data = null;
  extra_payload = [];
}

abbrev both_missing : Store
both_missing = record (empty 10) {
  hashes = at_key (task_group (codes "g")) ((task_group_field_total, number 2) ∷ []) (λ k. []);
}

abbrev one_missing : Store
one_missing =
    (join_group memory
      (record reply {
        header = record dispatched { message_id = codes "p"; parent_message_id = codes "b" };
      })
      both_missing).1

both_missing-total :
    (view both_missing).hash (task_group (codes "g")) task_group_field_total ≡ some (number 2)
unfolding key_eq lookup insert text_eq
both_missing-total = refl

one_missing-total :
    (view one_missing).hash (task_group (codes "g")) task_group_field_total ≡ some (number 2)
unfolding join_group count_reply key_eq lookup insert text_eq is_empty
one_missing-total = refl

one_missing-proceeds : (join_group memory reply one_missing).0 ≡ ok proceeds
unfolding join_group count_reply is_incomplete key_eq lookup insert text_eq is_empty
one_missing-proceeds = refl

join_group-proceeds_example :
    (2 ≤ counted (codes "g") (view (join_group memory reply one_missing).1))
    × ((view (join_group memory reply one_missing).1).hash
          (task_group_results (codes "g"))
          (codes "c")
        ≡ some (result (result_data reply)))
join_group-proceeds_example =
    join_group-proceeds memory reply 2 one_missing (ground arith) one_missing-total
      one_missing-proceeds

both_missing-few : counted (codes "g") (view both_missing) + 1 < 2
unfolding key_eq lookup insert text_eq
both_missing-few = omega arith

any_proceeds-false_example : any_proceeds memory (reply ∷ []) both_missing ≡ false
any_proceeds-false_example =
    any_proceeds-false memory (codes "g") 2 (reply ∷ []) both_missing (ground arith) (refl, tt)
      both_missing-total both_missing-few

-- A handler that suspended keeps the state that it suspended in, unless it finished.
answer-finished : apply_suspended_status answer (codes "WAITING_AGENT") ≡ answer
unfolding apply_suspended_status is_empty is_terminal_state
answer-finished = refl
