-- ===== src/Examples/Gate.antt =====
-- Runs of the wait gate.
use by_framework_ts.Common.{
  ◌+◌, ◌≤◌, text_eq, codes, ◌≡◌, refl, ◌⊎◌, true, false, List, [], ◌∷◌, none, ok, is_some, includes,
  is_empty, lookup, insert,
}
use by_framework_ts.Protocol.Header.{MessageHeader}
use by_framework_ts.Redis.Keys.{key_eq}
use by_framework_ts.Redis.Data.{count_entry}
use by_framework_ts.Redis.Stored.{erase}
use by_framework_ts.Redis.Memory.{memory, Store, empty, view}
use by_framework_ts.Liveness.WaitIndex.{
  encode_member, member_from_resume, escape_field, split_on, join,
}
use by_framework_ts.Liveness.WaitIndex.Shards.{
  wait_index_shard, fnv1a32, fnv_loop, fnv_round, utf8, utf8_of,
}
use by_framework_ts.Liveness.WaitGate.{
  WaitGateDecision, claimed, unregistered, gate_error, already_consumed, wait_index_key,
  consumed_marker_key, consume_wait_entry, candidate_members, claim, mark_consumed, ask_user_member,
}
use by_framework_ts.Liveness.WaitGate.Claims.{entry_of, is_marked}
use by_framework_ts.Liveness.WaitGate.Decisions.{
  consume_wait_entry-denies, consume_wait_entry-claims, consume_wait_entry-fails_open,
  consume_wait_entry-resolved,
}
use by_framework_ts.Liveness.WaitGate.History.{
  Event, registers, replies, claims, registrations, claims-le-registrations,
}
use by_framework_ts.Liveness.WaitRegistration.{RegisterWaitParams, registered_member, register_wait}

abbrev wait : RegisterWaitParams
wait = record {
  session_id = codes "s";
  parent_message_id = codes "p";
  child_message_id = codes "c";
  task_group_id = none;
  timeout_ms = 10;
}

abbrev reply : MessageHeader
reply = record {
  message_id = codes "p";
  session_id = codes "s";
  trace_id = [];
  source_agent_type = codes "search";
  target_agent_type = codes "planner";
  parent_message_id = codes "c";
  task_group_id = [];
  user_code = [];
  user_name = [];
  metadata = [];
  trace_parent_span_id = [];
  langfuse_parent_observation_id = [];
}

-- Nothing happened; the wait was registered; its reply came.
abbrev start : Store
start = empty 1000

abbrev waiting : Store
waiting = (register_wait memory wait start).1

abbrev woken : Store
woken = (consume_wait_entry memory reply waiting).1

abbrev claims_wait : WaitGateDecision
claims_wait = record { allow = true; reason = claimed; member = member_from_resume reply }

abbrev refuses_copy : WaitGateDecision
refuses_copy = record {
  allow = false;
  reason = already_consumed;
  member = member_from_resume reply;
}

abbrev lets_through : WaitGateDecision
lets_through = record { allow = true; reason = unregistered; member = [] }

-- A server on which the removal of the entry throws.
abbrev broken : Store
broken = record waiting { faults = true ∷ [] }

waiting-claims : (consume_wait_entry memory reply waiting).0 ≡ ok claims_wait
unfolding consume_wait_entry claim mark_consumed candidate_members ask_user_member
    member_from_resume register_wait registered_member encode_member escape_field split_on join
    wait_index_key wait_index_shard fnv1a32 fnv_loop fnv_round utf8 utf8_of lookup insert erase
    text_eq is_empty key_eq
waiting-claims = refl

woken-refuses : (consume_wait_entry memory reply woken).0 ≡ ok refuses_copy
unfolding consume_wait_entry claim mark_consumed candidate_members ask_user_member
    member_from_resume register_wait registered_member encode_member escape_field split_on join
    wait_index_key wait_index_shard fnv1a32 fnv_loop fnv_round utf8 utf8_of lookup insert erase
    text_eq is_empty key_eq consumed_marker_key
woken-refuses = refl

start-unregistered : (consume_wait_entry memory reply start).0 ≡ ok lets_through
unfolding consume_wait_entry claim mark_consumed candidate_members ask_user_member
    member_from_resume register_wait registered_member encode_member escape_field split_on join
    wait_index_key wait_index_shard fnv1a32 fnv_loop fnv_round utf8 utf8_of lookup insert erase
    text_eq is_empty key_eq
start-unregistered = refl

reply-candidate : includes text_eq (candidate_members reply) (member_from_resume reply) ≡ true
unfolding consume_wait_entry claim mark_consumed candidate_members ask_user_member
    member_from_resume register_wait registered_member encode_member escape_field split_on join
    wait_index_key wait_index_shard fnv1a32 fnv_loop fnv_round utf8 utf8_of lookup insert erase
    text_eq is_empty key_eq
reply-candidate = refl

woken-gone : entry_of memory (codes "s") (member_from_resume reply) woken ≡ none
unfolding consume_wait_entry claim mark_consumed candidate_members ask_user_member
    member_from_resume register_wait registered_member encode_member escape_field split_on join
    wait_index_key wait_index_shard fnv1a32 fnv_loop fnv_round utf8 utf8_of lookup insert erase
    text_eq is_empty key_eq
woken-gone = refl

woken-marked : is_marked memory (codes "s") (member_from_resume reply) woken ≡ true
unfolding consume_wait_entry claim mark_consumed candidate_members ask_user_member
    member_from_resume register_wait registered_member encode_member escape_field split_on join
    wait_index_key wait_index_shard fnv1a32 fnv_loop fnv_round utf8 utf8_of lookup insert erase
    text_eq is_empty key_eq consumed_marker_key
woken-marked = refl

consume_wait_entry-claims_example :
    (true ≡ true)
    × (includes text_eq (candidate_members reply) (member_from_resume reply) ≡ true)
    × (is_some (entry_of memory (codes "s") (member_from_resume reply) waiting) ≡ true)
    × (entry_of memory
          (codes "s")
          (member_from_resume reply)
          (consume_wait_entry memory reply waiting).1
        ≡ none)
consume_wait_entry-claims_example =
    consume_wait_entry-claims memory reply waiting claims_wait waiting-claims refl

consume_wait_entry-denies_example :
    (already_consumed ≡ already_consumed)
    × (includes text_eq (candidate_members reply) (member_from_resume reply) ≡ true)
    × (entry_of memory
          (codes "s")
          (member_from_resume reply)
          (consume_wait_entry memory reply woken).1
        ≡ none)
    × (is_marked memory
          (codes "s")
          (member_from_resume reply)
          (consume_wait_entry memory reply woken).1
        ≡ true)
consume_wait_entry-denies_example =
    consume_wait_entry-denies memory reply woken refuses_copy woken-refuses refl

consume_wait_entry-fails_open_example :
    (d : WaitGateDecision) × ((consume_wait_entry memory reply broken).0 ≡ ok d)
    × ((d.allow ≡ true) ⊎ (d.reason ≡ already_consumed))
consume_wait_entry-fails_open_example = consume_wait_entry-fails_open memory reply broken

consume_wait_entry-resolved_example :
    ((false ≡ false) ⊎ (already_consumed ≡ gate_error))
    × ((view (consume_wait_entry memory reply woken).1).zset
          (wait_index_key (codes "s"))
          (codes "x")
        ≡ (view woken).zset (wait_index_key (codes "s")) (codes "x"))
consume_wait_entry-resolved_example =
    consume_wait_entry-resolved memory reply woken refuses_copy (wait_index_key (codes "s"))
      (codes "x") woken-gone woken-marked woken-refuses

abbrev history : List Event
history = registers wait ∷ replies reply ∷ replies reply ∷ []

claims-le-registrations_example :
    claims memory (wait_index_key (codes "s")) (registered_member wait) history start
    ≤ registrations memory (wait_index_key (codes "s")) (registered_member wait) history
      + count_entry ((view start).zset (wait_index_key (codes "s")) (registered_member wait))
claims-le-registrations_example =
    claims-le-registrations memory (wait_index_key (codes "s")) (registered_member wait) history
      start
