-- ===== src/Liveness/WaitSweeper/Pass.antt =====
-- src/liveness/wait_sweeper.ts: one pass over the shards, `sweepOnce`, and what it is made of.
use by_framework_ts.Common.{
  ℕ, zero, suc, ◌+◌, ◌-◌, ◌*◌, ◌%◌, ltb, Text, Bool, true, false, not, ◌&&◌, ◌==◌, List, [], ◌∷◌,
  Option, none, some, if◌then◌else◌,
}
use by_framework_ts.Redis.Keys.{Key, wait_index, wait_sweep_lock}
use by_framework_ts.Redis.Env.{Env}
use by_framework_ts.Redis.Async.{Async, ◌>>=◌, ◌>>◌, return, reads, try_catch}
use by_framework_ts.Registry.Leases.{acquire_scoped_lock, release_scoped_lock}
use by_framework_ts.Liveness.WaitIndex.Shards.{wait_index_shards}
use by_framework_ts.Liveness.WaitSweeper.Replies.{
  Outcome, malformed, caller_missing, caller_terminal, caller_lost, caller_not_suspended,
  ask_user_skipped, group_gone, group_aborted, group_already_joined, child_waiting, child_alive,
  recovered, worker_lost, never_started, timed_out, unroutable, error, pruned,
}
use by_framework_ts.Liveness.WaitSweeper.Triage.{Sweeper, resolve_entry}

abbrev pub wait_sweep_batch_limit : ℕ
wait_sweep_batch_limit = 200

abbrev pub wait_prune_after_seconds : ℕ
wait_prune_after_seconds = 7 * 24 * 3600 + 86400

-- The switches of the two halves of a pass, and its periods.
pub record Settings : Type 0 where
  pub enabled : Bool
  pub prune_enabled : Bool
  pub prune_interval_seconds : ℕ
  pub lock_ttl_seconds : ℕ

-- What a sweeper keeps between passes.
pub record SweepState : Type 0 where
  pub shard_cursor : ℕ
  pub last_prune_ms : Option ℕ

abbrev pub outcome_index : Outcome → ℕ
outcome_index malformed = 0
outcome_index caller_missing = 1
outcome_index caller_terminal = 2
outcome_index caller_lost = 3
outcome_index caller_not_suspended = 4
outcome_index ask_user_skipped = 5
outcome_index group_gone = 6
outcome_index group_aborted = 7
outcome_index group_already_joined = 8
outcome_index child_waiting = 9
outcome_index child_alive = 10
outcome_index recovered = 11
outcome_index worker_lost = 12
outcome_index never_started = 13
outcome_index timed_out = 14
outcome_index unroutable = 15
outcome_index error = 16
outcome_index pruned = 17

-- A count for each outcome; one that is not there is 0.
abbrev pub Counts : Type 0
Counts = Outcome → ℕ

abbrev pub no_counts : Counts
no_counts o = 0

abbrev pub add_counts : Counts → Counts → Counts
add_counts c d o = c o + d o

abbrev pub counts_of : Outcome → ℕ → Counts
counts_of o n p = if outcome_index o == outcome_index p then n else 0

-- `now - last < pruneIntervalSeconds * 1000`, for a clock that may have gone back.
abbrev pub is_recent : (now interval_ms : ℕ) → Option ℕ → Bool
is_recent now interval_ms none = false
is_recent now interval_ms (some last) = ltb now (last + interval_ms)

-- The shard that a pass comes to at an offset.
unfoldable pub shard_at : (start offset : ℕ) → ℕ
shard_at start offset = (start + offset) % wait_index_shards

module _ (env : Env) (w : Sweeper env) (c : Settings) where
  open env use {Store, now, uuid, zremrangebyscore, zrangebyscore}

  unfoldable pub prune_is_due : SweepState → ℕ → Bool × SweepState
  prune_is_due st clock =
      if not c.prune_enabled
      then (false, st)
      else if is_recent clock (c.prune_interval_seconds * 1000) st.last_prune_ms
      then (false, st)
      else (true, record st { last_prune_ms = some clock })

  -- A cutoff before the epoch is below every score, and nothing is in its range.
  unfoldable pub prune_shard : ℕ → Async Store ℕ
  prune_shard shard = do
    clock ← reads now
    elim (ltb clock (wait_prune_after_seconds * 1000)) [
      | true ↦ return 0
      | false ↦ zremrangebyscore (wait_index shard) 0 (clock - wait_prune_after_seconds * 1000)
    ]

  -- The loop over the due entries: one that throws is counted and does not stop the others.
  unfoldable pub resolve_all : Key → List (Text × ℕ) → Async Store Counts
  resolve_all index_key [] = return no_counts
  resolve_all index_key ((member, score) ∷ due) = do
    outcome ← try_catch (resolve_entry env w index_key member score) (return error)
    rest ← resolve_all index_key due
    return (add_counts (counts_of outcome 1) rest)

  unfoldable pub resolve_due_entries : ℕ → Async Store Counts
  resolve_due_entries shard = do
    clock ← reads now
    due ← zrangebyscore (wait_index shard) 0 clock wait_sweep_batch_limit
    resolve_all (wait_index shard) due

  unfoldable pub prune_half : ℕ → Bool → Async Store Counts
  prune_half shard false = return no_counts
  prune_half shard true = prune_shard shard >>= λ n. return (counts_of pruned n)

  unfoldable pub resolve_half : ℕ → Async Store Counts
  resolve_half shard = elim c.enabled [
    | true ↦ resolve_due_entries shard
    | false ↦ return no_counts
  ]

  -- Both halves; what the second throws is counted once, beside what was counted before.
  unfoldable pub sweep_halves : ℕ → Bool → Async Store Counts
  sweep_halves shard pruning = do
    counts ← prune_half shard pruning
    try_catch (resolve_half shard >>= λ more. return (add_counts counts more))
        (return (add_counts counts (counts_of error 1)))

  unfoldable pub sweep_claimed : ℕ → Bool → Async Store Counts
  sweep_claimed shard pruning = try_catch (sweep_halves shard pruning) (return (counts_of error 1))

  unfoldable pub sweep_shard : ℕ → Bool → Async Store Counts
  sweep_shard shard pruning = if not pruning && not c.enabled then return no_counts else do
    token ← reads uuid
    claimed ←
        try_catch (acquire_scoped_lock env (wait_sweep_lock shard) token c.lock_ttl_seconds)
          (return false)
    elim claimed [
      | false ↦ return no_counts
      | true ↦ do
        counts ← sweep_claimed shard pruning
        try_catch (release_scoped_lock env (wait_sweep_lock shard) token) (return false)
        return counts
    ]

  -- The loop over the offsets, from the number of those that are left.
  unfoldable pub sweep_shards : ℕ → ℕ → ℕ → Bool → Async Store Counts
  sweep_shards zero offset start pruning = return no_counts
  sweep_shards (suc left) offset start pruning = do
    counts ← sweep_shard (shard_at start offset) pruning
    rest ← sweep_shards left (offset + 1) start pruning
    return (add_counts counts rest)

  unfoldable pub sweep_once : SweepState → Async Store (Counts × SweepState)
  sweep_once st = do
    clock ← reads now
    let (pruning, st') = prune_is_due st clock
    counts ← sweep_shards wait_index_shards 0 st.shard_cursor pruning
    return (counts, record st' { shard_cursor = (st.shard_cursor + 1) % wait_index_shards })
