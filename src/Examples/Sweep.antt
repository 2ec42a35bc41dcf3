-- ===== src/Examples/Sweep.antt =====
-- Runs of the wait sweeper.
use by_framework_ts.Common.{
  List, ◌+◌, ◌*◌, ◌%◌, ◌≤◌, ◌<◌, max, Text, codes, ◌≡◌, refl, ◌≢◌, ◌⊎◌, true, false, [], ◌∷◌, ◌++◌,
  none, some, ok, text_eq, is_empty, or_text, arith, insert, lookup,
}
use by_framework_ts.Protocol.Json.{text, null}
use by_framework_ts.Protocol.State.{base_status, is_terminal_state, is_suspended_state, trim}
use by_framework_ts.Protocol.Commands.{ResumeCommand, resume, resume_command}
use by_framework_ts.Redis.Keys.{wait_index, wait_sweep_lock, ctrl_stream, session_registry, key_eq}
use by_framework_ts.Redis.Values.{number, lock, command, plain, execution, Execution}
use by_framework_ts.Redis.Data.{at_key}
use by_framework_ts.Redis.Async.{return}
use by_framework_ts.Redis.Memory.{memory, Store, empty, view, range}
use by_framework_ts.Registry.Executions.{
  exec_field, msg_map_field, get_execution_by_message_id, execution_named, get_execution,
  parse_execution,
}
use by_framework_ts.Registry.Leases.{acquire_scoped_lock}
use by_framework_ts.Liveness.WaitIndex.{
  decode_member, split_loop, split_escaped, member_of, decode_fields, WaitIndexMember,
  member_from_resume,
}
use by_framework_ts.Liveness.WaitIndex.Shards.{wait_index_shards}
use by_framework_ts.Liveness.WaitRegistration.{registered_member}
use by_framework_ts.Liveness.WaitReply.{stand_in_reply, stand_in_header}
use by_framework_ts.Liveness.WaitSweeper.Deadlines.{
  DueEntry, extend_deadline, renew_origin_key, renewal_origin_ms, renewal_ceiling_ms,
  renewal_ceiling, reply_timeout, origin_or, wait_renew_increment_ms,
}
use by_framework_ts.Liveness.WaitSweeper.Replies.{
  never_started, ReplyParams, caller_agent_type, stand_in_params, send_reply, emit_reply,
  synthesize_failure,
}
use by_framework_ts.Liveness.WaitSweeper.Triage.{
  Sweeper, triage_found, triage_child, triage_suspended, triage_caller, resolve_decoded,
  resolve_entry,
}
use by_framework_ts.Liveness.WaitSweeper.Effects.{Effect, class_of}
use by_framework_ts.Liveness.WaitSweeper.Verdicts.{IsQuiet, resolve_entry-Effect}
use by_framework_ts.Liveness.WaitSweeper.Renewal.{
  renew_all, renewal_ceiling_lem, renewal_ceiling_ms-renew_all, Step, renews, passes, IsKept,
}
use by_framework_ts.Liveness.WaitSweeper.Pass.{
  Settings, SweepState, Counts, prune_shard, resolve_all, sweep_once, prune_is_due,
  wait_prune_after_seconds,
}
use by_framework_ts.Liveness.WaitSweeper.Sweeping.{
  total, resolve_all-total, prune_shard_lem, sweep_once_ok,
}
use by_framework_ts.Liveness.WaitSweeper.StandIns.{emit_reply-sends, wait_of}

abbrev sweeper : Sweeper memory
sweeper = record {
  worker_id = codes "w0";
  renew_max_multiple = 3;
  cancel_on_timeout = true;
  cancel_child = λ x y z. return true;
  decimal = λ n. codes "3";
}

abbrev settings : Settings
settings = record {
  enabled = true;
  prune_enabled = true;
  prune_interval_seconds = 3600;
  lock_ttl_seconds = 30;
}

abbrev suspended : Execution
suspended = record {
  execution_id = codes "e";
  message_id = codes "p";
  session_id = codes "s";
  parent_message_id = [];
  task_group_id = [];
  trace_id = codes "t";
  source_agent_type = codes "client";
  target_agent_type = codes "planner";
  worker_id = codes "w1";
  status = codes "WAITING_AGENT";
  metadata = [];
  cancel_requested = false;
  cancel_reason = [];
  created_at = 1;
  updated_at = 2;
  started_at = 1;
  finished_at = 0;
  timeline = [];
  extra = [];
}

abbrev running : Execution
running = record suspended {
  execution_id = codes "f";
  message_id = codes "c";
  parent_message_id = codes "p";
  source_agent_type = codes "planner";
  target_agent_type = codes "search";
  status = codes "RUNNING";
  created_at = 100;
}

-- The member of the wait of message `p` of session `s` for message `c`.
abbrev member : Text
member = codes "s|p|c|"

abbrev entry : WaitIndexMember
entry = record {
  session_id = codes "s";
  parent_message_id = codes "p";
  child_message_id = codes "c";
  task_group_id = [];
}

abbrev due : DueEntry
due = record { index_key = wait_index 3; member = member; deadline_ms = 1100; entry = entry }

-- A server on which the caller is recorded as suspended, its wait is due, and nothing else.
abbrev stuck : Store
stuck = record (empty 2000) {
  zsets = at_key (wait_index 3) ((member, 1100) ∷ []) (λ k. []);
  hashes =
      at_key (session_registry (codes "s"))
        ((msg_map_field (codes "p"), plain (codes "e"))
          ∷ (exec_field (codes "e"), execution suspended)
          ∷ [])
        (λ k. []);
}

sweeper-IsQuiet : IsQuiet memory sweeper (codes "planner")
sweeper-IsQuiet x y z s = (refl, refl)

stuck-never_started :
    (resolve_entry memory sweeper (wait_index 3) member 1100 stuck).0 ≡ ok never_started
unfolding resolve_entry resolve_decoded triage_caller triage_suspended triage_child triage_found
    get_execution_by_message_id execution_named get_execution parse_execution decode_member
    decode_fields member_of split_escaped split_loop base_status trim is_terminal_state
    is_suspended_state text_eq is_empty key_eq lookup insert synthesize_failure emit_reply
    send_reply stand_in_reply stand_in_params stand_in_header resume_command extend_deadline
    renew_origin_key exec_field msg_map_field or_text caller_agent_type
stuck-never_started = refl

resolve_entry-Effect_example :
    Effect memory
      (codes "planner")
      (wait_index 3)
      member
      (view stuck)
      (view (resolve_entry memory sweeper (wait_index 3) member 1100 stuck).1)
      (class_of never_started)
resolve_entry-Effect_example =
    resolve_entry-Effect memory sweeper (codes "planner") (wait_index 3) member 1100 stuck
      never_started sweeper-IsQuiet stuck-never_started

abbrev stand_in_reply_params : ReplyParams
stand_in_reply_params = record {
  child = some running;
  status = codes "FAILED";
  content = text [];
  reply_data = null;
  extra_payload = [];
  error_code = codes "CHILD_TIMEOUT";
  metadata = [];
}

stuck-emits : (emit_reply memory (codes "w0") due suspended stand_in_reply_params stuck).0 ≡ ok true
unfolding emit_reply send_reply stand_in_reply stand_in_params stand_in_header resume_command
    extend_deadline renew_origin_key caller_agent_type or_text is_empty
stuck-emits = refl

emit_reply-sends_example :
    (r : ResumeCommand) × ((view
          (emit_reply memory (codes "w0") due suspended stand_in_reply_params stuck).1).stream
        (ctrl_stream (caller_agent_type (some running) suspended))
      ≡ (view stuck).stream (ctrl_stream (caller_agent_type (some running) suspended))
        ++ command (resume r) ∷ [])
    × (r.header.message_id ≡ codes "p")
    × (member_from_resume r.header ≡ registered_member (wait_of entry))
emit_reply-sends_example =
    emit_reply-sends memory (codes "w0") due suspended stand_in_reply_params stuck stuck-emits

renewal_ceiling_lem_example :
    renewal_ceiling 3 1100 100 ≡ max (100 + 1000 * 3) (1100 + wait_renew_increment_ms)
renewal_ceiling_lem_example = renewal_ceiling_lem 2 1100 100 (omega arith) (omega arith)

-- The same wait, found again after its first renewal.
abbrev later : DueEntry
later = record due { deadline_ms = 302000 }

abbrev renewing : Store
renewing = (extend_deadline memory due stuck).1

renewing-origin : (view renewing).str (renew_origin_key memory later) ≡ some (number 1100)
unfolding extend_deadline renew_origin_key key_eq lookup insert text_eq
renewing-origin = refl

-- It is renewed, a second passes, and it is renewed again.
abbrev renewals : List (Step memory)
renewals = renews later ∷ passes 1000 ∷ renews later ∷ []

renewing-IsKept : IsKept memory (renew_origin_key memory later) (number 1100) renewals renewing
unfolding extend_deadline renew_origin_key key_eq lookup insert text_eq
renewing-IsKept = (refl, tt)

renewing-read :
    (memory.get (renew_origin_key memory later) (renew_all memory renewals renewing)).0
    ≡ ok (some (number 1100))
unfolding extend_deadline renew_all renew_origin_key key_eq text_eq
renewing-read = refl

renewing-ceiling :
    (renewal_ceiling_ms memory 3 later running (renew_all memory renewals renewing)).0 ≡ ok 301100
unfolding renewal_ceiling_ms renewal_origin_ms origin_or renewal_ceiling reply_timeout
    extend_deadline renew_all renew_origin_key key_eq text_eq
renewing-ceiling = refl

renewal_ceiling_ms-renew_all_example : 301100 ≡ renewal_ceiling 3 1100 100
renewal_ceiling_ms-renew_all_example =
    renewal_ceiling_ms-renew_all memory 3 later running renewals renewing 1100 301100 (omega arith)
      renewing-origin renewing-IsKept (ground (arith, renewing-read)) renewing-ceiling

resolve_all-total_example :
    (counts : Counts) × ((resolve_all memory sweeper settings
        (wait_index 3)
        ((member, 1100) ∷ [])
        stuck).0
      ≡ ok counts)
    × (total counts ≡ 1)
resolve_all-total_example =
    resolve_all-total memory sweeper settings (wait_index 3) ((member, 1100) ∷ []) stuck

-- The same server, more than the retention later.
abbrev stale : Store
stale = record stuck { clock = 700_000_000 }

stale-prunes : (prune_shard memory sweeper settings 3 stale).0 ≡ ok 1
unfolding prune_shard key_eq text_eq lookup range
stale-prunes = refl

stale-entry : (view stale).zset (wait_index 3) member ≡ some 1100
unfolding key_eq lookup insert text_eq
stale-entry = refl

prune_shard_lem_example :
    ((wait_index 3 ≡ wait_index 3)
      × (1100 + wait_prune_after_seconds * 1000 ≤ 700_000_000)
      × ((view (prune_shard memory sweeper settings 3 stale).1).zset (wait_index 3) member ≡ none))
    ⊎ (((wait_index 3 ≢ wait_index 3) ⊎ (700_000_000 < 1100 + wait_prune_after_seconds * 1000))
        × ((view (prune_shard memory sweeper settings 3 stale).1).zset (wait_index 3) member
            ≡ some 1100))
prune_shard_lem_example =
    prune_shard_lem memory sweeper settings 3 stale 1 (wait_index 3) member 1100 stale-prunes
      stale-entry

abbrev contended : Store
contended = (acquire_scoped_lock memory (wait_sweep_lock 3) (codes "other") 30 stuck).1

contended-lock : (view contended).str (wait_sweep_lock 3) ≡ some (lock (codes "other"))
unfolding acquire_scoped_lock key_eq lookup insert text_eq
contended-lock = refl

abbrev swept_before : SweepState
swept_before = record { shard_cursor = 15; last_prune_ms = some 1 }

swept_before-due : (prune_is_due memory sweeper settings swept_before 3_600_001).0 ≡ true
unfolding prune_is_due
swept_before-due = refl

sweep_once_ok_example :
    (counts : Counts) × (next : SweepState) × ((sweep_once memory sweeper settings swept_before
        stuck).0
      ≡ ok (counts, next))
    × (next.shard_cursor ≡ (15 + 1) % wait_index_shards)
    × (next.last_prune_ms
        ≡ (prune_is_due memory sweeper settings swept_before 2000).1.last_prune_ms)
sweep_once_ok_example = sweep_once_ok memory sweeper settings swept_before stuck

-- The same server, after the gate claimed the entry.
abbrev claimed_meanwhile : Store
claimed_meanwhile = record stuck { zsets = λ k. [] }
