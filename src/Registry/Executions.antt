-- ===== src/Registry/Executions.antt =====
-- src/registry.ts: execution records, kept in the hash of their session under `exec:{id}`, with
-- `msg_map:{message id}` naming the execution of a message.
pub mod Lifecycle
pub mod Queries
pub mod Updates
pub mod Saving
use by_framework_ts.Common.{
  ℕ, ◌*◌, Text, codes, is_empty, Bool, true, false, List, [], ◌∷◌, ◌++◌, Option, none, some, ok,
  err, ◌==◌, ◌&&◌, text_eq, if◌then◌else◌, or_text, spread,
}
use by_framework_ts.Protocol.Json.{JsonRecord}
use by_framework_ts.Protocol.State.{is_terminal_state}
use by_framework_ts.Protocol.AgentState
use by_framework_ts.Redis.Keys.{Key, session_registry}
use by_framework_ts.Redis.Values.{Value, plain, execution, Execution, TimelineEntry}
use by_framework_ts.Redis.Env.{Env}
use by_framework_ts.Redis.Async.{Async, ◌>>=◌, ◌>>◌, return, throw, reads, try_catch}

abbrev pub default_session_ttl : ℕ
default_session_ttl = 7 * 24 * 3600

unfoldable pub exec_field : Text → Text
exec_field execution_id = codes "exec:" ++ execution_id

unfoldable pub msg_map_field : Text → Text
msg_map_field message_id = codes "msg_map:" ++ message_id

abbrev append_timeline : Execution → Text → ℕ → List TimelineEntry
append_timeline e status now = e.timeline ++ record { status = status; timestamp = now } ∷ []

-- `timeline || [{ status, timestamp }]`; a missing timeline is the empty one.
abbrev or_first : List TimelineEntry → Text → ℕ → List TimelineEntry
or_first [] status now = record { status = status; timestamp = now } ∷ []
or_first (t ∷ ts) status now = t ∷ ts

-- The record that `markExecutionFinished` writes.
unfoldable pub finished_record : Execution → Text → ℕ → Execution
finished_record e status now = record e {
  status = status;
  finished_at = if is_terminal_state status then now else e.finished_at;
  updated_at = now;
  timeline = append_timeline e status now;
}

-- The `extra` of `updateExecutionStatus`: the fields that the runner gives, and others that the record
-- has among its further ones.
pub record StatusFields : Type 0 where
  pub worker_id : Text
  pub metadata : Option JsonRecord
  pub others : JsonRecord

abbrev given : JsonRecord → Option JsonRecord → JsonRecord
given old none = old
given old (some new) = new

-- `if (extra) Object.assign(current, extra)`
unfoldable pub assign_fields : Execution → Option StatusFields → Execution
assign_fields e none = e
assign_fields e (some extra) = record e {
  worker_id = extra.worker_id;
  metadata = given e.metadata extra.metadata;
  extra = spread e.extra extra.others;
}

-- The record that `updateExecutionStatus` writes.
unfoldable pub updated_record : Execution → Text → Option StatusFields → ℕ → Execution
unfolding assign_fields
updated_record e status extra now = record (assign_fields e extra) {
  status = status;
  updated_at = now;
  started_at = if text_eq status (codes "RUNNING") && e.started_at == 0 then now else e.started_at;
  timeline = append_timeline e status now;
}

unfoldable pub cancelling_record : Execution → Text → ℕ → Execution
cancelling_record e reason now = record e {
  status = AgentState.cancelling;
  cancel_requested = true;
  cancel_reason = reason;
  updated_at = now;
  timeline = append_timeline e AgentState.cancelling now;
}

unfoldable pub cancel_requested_record : Execution → Text → ℕ → Execution
cancel_requested_record e reason now = record e {
  cancel_requested = true;
  cancel_reason = or_text reason e.cancel_reason;
  updated_at = now;
}

unfoldable pub initial_record : Execution → ℕ → Execution
initial_record e now = record e {
  created_at = now;
  updated_at = now;
  started_at = 0;
  finished_at = 0;
  timeline = record { status = or_text e.status AgentState.queued; timestamp = now } ∷ [];
}

-- The record that `saveExecution` writes: what it lacks is filled in.
pub saved_record : Execution → ℕ → Execution
saved_record e now = record e {
  created_at = if e.created_at == 0 then now else e.created_at;
  updated_at = if e.updated_at == 0 then now else e.updated_at;
  timeline = or_first e.timeline (or_text e.status AgentState.queued) now;
}

module _ (env : Env) where
  open env use {Store, now, hget, hset, expire}

  -- A command of a pipeline: `exec()` reports its error in the results and does not throw.
  unfoldable pub piped : {A : Type 0} → Async Store A → Async Store (Unit {0})
  piped command = try_catch (command >> return tt) (return tt)

  -- `JSON.parse` of a field, which throws on what is no record.
  unfoldable pub parse_execution : Option Value → Async Store (Option Execution)
  parse_execution none = return none
  parse_execution (some (execution e)) = return (some e)
  parse_execution (some _) = throw

  unfoldable pub get_execution : Text → Text → Async Store (Option Execution)
  get_execution execution_id session_id = if is_empty session_id then return none else do
    found ← hget (session_registry session_id) (exec_field execution_id)
    parse_execution found

  -- `if (!executionId) return null`, then the lookup.
  unfoldable pub execution_named : Text → Option Value → Async Store (Option Execution)
  execution_named session_id (some (plain execution_id)) =
      if is_empty execution_id then return none else get_execution execution_id session_id
  execution_named session_id _ = return none

  unfoldable pub get_execution_by_message_id : Text → Text → Async Store (Option Execution)
  get_execution_by_message_id message_id session_id =
      if is_empty session_id then return none else do
        found ← hget (session_registry session_id) (msg_map_field message_id)
        execution_named session_id found

  write_record : Text → Text → Execution → Async Store (Unit {0})
  write_record execution_id session_id e = do
    piped (hset (session_registry session_id) (exec_field execution_id) (execution e))
    piped (expire (session_registry session_id) default_session_ttl)

  -- The shape of the updates: read the record, and write a changed one if it is there.
  update_record : Text → Text → (Execution → ℕ → Execution) → Async Store (Unit {0})
  update_record execution_id session_id change = do
    current ← get_execution execution_id session_id
    clock ← reads now
    elim current [
      | none ↦ return tt
      | some e ↦ write_record execution_id session_id (change e clock)
    ]

  -- The pipeline that writes a record and the name of its execution.
  unfoldable pub write_named : Execution → Async Store (Unit {0})
  write_named e = do
    piped (hset (session_registry e.session_id) (exec_field e.execution_id) (execution e))
    piped (hset (session_registry e.session_id) (msg_map_field e.message_id) (plain e.execution_id))
    piped (expire (session_registry e.session_id) default_session_ttl)

  unfoldable pub initialize_execution : Execution → Async Store (Unit {0})
  initialize_execution e = do clock ← reads now; write_named (initial_record e clock)

  pub save_execution : Execution → Async Store (Unit {0})
  save_execution e = do clock ← reads now; write_named (saved_record e clock)

  pub update_execution_status : Text → Text → Text → Option StatusFields → Async Store (Unit {0})
  update_execution_status execution_id session_id status extra =
      update_record execution_id session_id (λ e clock. updated_record e status extra clock)

  pub mark_execution_finished : Text → Text → Text → Async Store (Unit {0})
  mark_execution_finished execution_id session_id status =
      update_record execution_id session_id (λ e clock. finished_record e status clock)

  pub mark_execution_cancelling : Text → Text → Text → Async Store (Unit {0})
  mark_execution_cancelling execution_id session_id reason =
      update_record execution_id session_id (λ e clock. cancelling_record e reason clock)

  pub mark_cancel_requested : Text → Text → Text → Async Store (Unit {0})
  mark_cancel_requested execution_id session_id reason =
      update_record execution_id session_id (λ e clock. cancel_requested_record e reason clock)
