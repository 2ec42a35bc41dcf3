-- ===== src/Examples/Records.antt =====
-- Runs of the registry: execution records, leases and locks.
use by_framework_ts.Common.{
  Text, codes, ◌≡◌, refl, ◌≢◌, ◌⊎◌, true, false, [], some, ok, text_eq, arith, ◌∷◌, lookup, insert,
}
use by_framework_ts.Redis.Keys.{wait_sweep_lock, worker_online_lease, session_registry, key_eq}
use by_framework_ts.Redis.Values.{lock, plain, execution, Execution}
use by_framework_ts.Redis.Data.{at_key}
use by_framework_ts.Redis.Memory.{memory, Store, empty, view}
use by_framework_ts.Registry.Executions.{
  initial_record, finished_record, cancelling_record, exec_field, msg_map_field,
}
use by_framework_ts.Registry.Executions.Lifecycle.{
  IsTimely, Reaches, here, next, finish, cancel, Reaches-IsTimely,
}
use by_framework_ts.Registry.Executions.Updates.{
  finishes, changed, run, write_time, HasFailed, run_lem,
}
use by_framework_ts.Registry.Leases.{acquire_scoped_lock, claim_worker_id, decode_worker_presence}
use by_framework_ts.Registry.Leases.Ownership.{attempt, holder, heartbeats, attempt-IsForeign}

abbrev queued : Execution
queued = record {
  execution_id = codes "e";
  message_id = codes "m";
  session_id = codes "s";
  parent_message_id = [];
  task_group_id = [];
  trace_id = [];
  source_agent_type = codes "client";
  target_agent_type = codes "search";
  worker_id = [];
  status = codes "QUEUED";
  metadata = [];
  cancel_requested = false;
  cancel_reason = [];
  created_at = 0;
  updated_at = 0;
  started_at = 0;
  finished_at = 0;
  timeline = [];
  extra = [];
}

abbrev stopping : Execution
stopping = cancelling_record (initial_record queued 5) (codes "stop") 6

abbrev stopped : Execution
stopped = finished_record stopping (codes "CANCELLED") 7

stopped-Reaches : Reaches (initial_record queued 5) stopped
unfolding initial_record cancelling_record
stopped-Reaches =
    next (next here (cancel (codes "stop") 6 (omega arith)))
      (finish (codes "CANCELLED") 7 (omega arith))

queued-status : queued.status ≢ []
queued-status = ground arith

Reaches-IsTimely_example : IsTimely stopped
Reaches-IsTimely_example = Reaches-IsTimely queued 5 queued-status stopped-Reaches

stopping-asked : stopping.cancel_requested ≡ true
unfolding cancelling_record
stopping-asked = refl

stopping-Reaches : Reaches stopping stopped
unfolding cancelling_record
stopping-Reaches = next here (finish (codes "CANCELLED") 7 (omega arith))

-- A server that has one record.
abbrev recorded : Store
recorded = record (empty 10) {
  hashes =
      at_key (session_registry (codes "s"))
        ((msg_map_field (codes "m"), plain (codes "e"))
          ∷ (exec_field (codes "e"), execution queued)
          ∷ [])
        (λ k. []);
}

recorded-named :
    (view recorded).hash (session_registry (codes "s")) (msg_map_field (codes "m"))
    ≡ some (plain (codes "e"))
unfolding key_eq lookup insert text_eq msg_map_field
recorded-named = refl

recorded-found :
    (view recorded).hash (session_registry (codes "s")) (exec_field (codes "e"))
    ≡ some (execution queued)
unfolding key_eq lookup insert text_eq msg_map_field exec_field
recorded-found = refl

-- A server on which a worker claimed its id, and one on which a lock was taken.
abbrev leased : Store
leased = (claim_worker_id memory (codes "10.0.0.1") (codes "w") 30 (empty 10)).1

abbrev own_token : Text
own_token = codes "00000000000000000000000000000000"

leased-holder : holder memory (codes "w") leased ≡ some own_token
unfolding claim_worker_id decode_worker_presence key_eq lookup insert text_eq
leased-holder = refl

attempt-IsForeign_example :
    ((view (attempt memory (codes "w") (heartbeats (codes "10.0.0.2") (codes "t") 30) leased).1).str
        (worker_online_lease (codes "w"))
      ≡ (view leased).str (worker_online_lease (codes "w")))
    × ((attempt memory (codes "w") (heartbeats (codes "10.0.0.2") (codes "t") 30) leased).0
        ≢ ok true)
attempt-IsForeign_example =
    attempt-IsForeign memory (codes "w") own_token (heartbeats (codes "10.0.0.2") (codes "t") 30)
      leased leased-holder (ground arith)

abbrev locked : Store
locked = (acquire_scoped_lock memory (wait_sweep_lock 3) (codes "t") 30 (empty 10)).1

locked-lock : (view locked).str (wait_sweep_lock 3) ≡ some (lock (codes "t"))
unfolding acquire_scoped_lock key_eq lookup insert text_eq
locked-lock = refl

locked-granted :
    (acquire_scoped_lock memory (wait_sweep_lock 3) (codes "t") 30 (empty 10)).0 ≡ ok true
unfolding acquire_scoped_lock
locked-granted = refl

run_lem_example :
    ((view (run memory (finishes (codes "FAILED")) (codes "e") (codes "s") recorded).1).hash
        (session_registry (codes "s"))
        (exec_field (codes "e"))
      ≡ some (
          execution (
            changed
              (finishes (codes "FAILED"))
              queued
              (write_time memory (codes "e") (codes "s") recorded))))
    ⊎ (((view (run memory (finishes (codes "FAILED")) (codes "e") (codes "s") recorded).1).hash
            (session_registry (codes "s"))
            (exec_field (codes "e"))
          ≡ some (execution queued))
        × HasFailed memory
            (codes "e")
            (codes "s")
            (changed
              (finishes (codes "FAILED"))
              queued
              (write_time memory (codes "e") (codes "s") recorded))
            recorded)
run_lem_example =
    run_lem memory (finishes (codes "FAILED")) (codes "e") (codes "s") queued recorded
      (ground arith) recorded-found
