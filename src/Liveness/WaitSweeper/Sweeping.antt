-- ===== src/Liveness/WaitSweeper/Sweeping.antt =====
-- What a pass of the sweeper covers, and what it leaves alone.
use by_framework_ts.Common.{
  ℕ, zero, suc, ◌+◌, ◌-◌, ◌*◌, ◌%◌, ◌≤◌, ◌<◌, Text, ◌≡◌, refl, ◌≢◌, ◌⊎◌, ◌↔◌, inl, inr, Bool, true,
  List, [], ◌∷◌, none, some, ok, arith, length,
}
use by_framework_ts.Redis.Keys.{Key, key_eq_iff, wait_index, wait_sweep_lock}
use by_framework_ts.Redis.Values.{Value}
use by_framework_ts.Redis.Env.{Env}
use by_framework_ts.Redis.Async.{Async, return, try_catch, Reply-cases}
use by_framework_ts.Registry.Leases.{acquire_scoped_lock}
use by_framework_ts.Registry.Leases.Ownership.{acquire_scoped_lock-held}
use by_framework_ts.Liveness.WaitIndex.Shards.{wait_index_shards}
use by_framework_ts.Liveness.WaitSweeper.Replies.{
  Outcome, malformed, caller_missing, caller_terminal, caller_lost, caller_not_suspended,
  ask_user_skipped, group_gone, group_aborted, group_already_joined, child_waiting, child_alive,
  recovered, worker_lost, never_started, timed_out, unroutable, error, pruned,
}
use by_framework_ts.Liveness.WaitSweeper.Triage.{Sweeper, resolve_entry}
use by_framework_ts.Liveness.WaitSweeper.Pass.{
  Settings, SweepState, Counts, no_counts, add_counts, counts_of, prune_shard, resolve_all,
  sweep_shard, sweep_shards, sweep_once, shard_at, sweep_claimed, sweep_halves, prune_is_due,
  wait_prune_after_seconds,
}

-- The offset at which a pass that starts at `start` comes to `shard`.
abbrev pub offset_of : ℕ → ℕ → ℕ
offset_of start shard =
    (shard + (wait_index_shards - start % wait_index_shards)) % wait_index_shards

-- A pass comes to every shard, wherever its cursor is, and comes to none twice: among its offsets,
-- one and only one leads to a given shard.
pub shard_at_lem :
    (start shard offset : ℕ)
    → shard < wait_index_shards
    → offset < wait_index_shards
    → (offset_of start shard < wait_index_shards)
      × ((shard_at start offset ≡ shard) ↔ (offset ≡ offset_of start shard))
unfolding shard_at
shard_at_lem start shard offset h i = omega arith

-- The number of entries that the counts are of.
abbrev pub total : Counts → ℕ
total c =
    c malformed
    + (c caller_missing
        + (c caller_terminal
            + (c caller_lost
                + (c caller_not_suspended
                    + (c ask_user_skipped
                        + (c group_gone
                            + (c group_aborted
                                + (c group_already_joined
                                    + (c child_waiting
                                        + (c child_alive
                                            + (c recovered
                                                + (c worker_lost
                                                    + (c never_started
                                                        + (c timed_out
                                                            + (c unroutable
                                                            + (c error + c pruned))))))))))))))))

total-counts_of : (o : Outcome) → total (counts_of o 1) ≡ 1
total-counts_of malformed = refl
total-counts_of caller_missing = refl
total-counts_of caller_terminal = refl
total-counts_of caller_lost = refl
total-counts_of caller_not_suspended = refl
total-counts_of ask_user_skipped = refl
total-counts_of group_gone = refl
total-counts_of group_aborted = refl
total-counts_of group_already_joined = refl
total-counts_of child_waiting = refl
total-counts_of child_alive = refl
total-counts_of recovered = refl
total-counts_of worker_lost = refl
total-counts_of never_started = refl
total-counts_of timed_out = refl
total-counts_of unroutable = refl
total-counts_of error = refl
total-counts_of pruned = refl

total-add_counts : (c d : Counts) → total (add_counts c d) ≡ total c + total d
total-add_counts c d = omega arith

try_catch_ok :
    {S A : Type 0} (m : Async S A) (a : A) (s : S) → (x : A) × ((try_catch m (return a) s).0 ≡ ok x)
try_catch_ok m a s = elim (Reply-cases (m s).0) [ inl (x, e) ↦ (x, cc) | inr e ↦ (a, cc) ]

module _ (env : Env) (w : Sweeper env) (c : Settings) where
  open env use {Store, view, now, uuid, set_nx, set_nx_lem, zremrangebyscore, zremrangebyscore_lem}

  -- A batch of due entries never throws, and its counters sum to the number of the entries, whichever of
  -- their triages throw.
  pub resolve_all-total :
      (k : Key) (due : List (Text × ℕ)) (s : Store)
      → (counts : Counts) × ((resolve_all env w c k due s).0 ≡ ok counts)
        × (total counts ≡ length due)
  unfolding resolve_all
  resolve_all-total k [] s = (no_counts, refl, refl)
  resolve_all-total k ((m, score) ∷ due) s =
      let r = resolve_entry env w k m score s in
      let (counts, e, t) = resolve_all-total k due r.1 in
      elim (Reply-cases r.0) [
        | inl (o, eo) ↦ (
          add_counts (counts_of o 1) counts,
          cc,
          ground (arith, t, total-counts_of o, total-add_counts (counts_of o 1) counts),
        )
        | inr eo ↦ (
          add_counts (counts_of error 1) counts,
          cc,
          ground (arith, t, total-counts_of error, total-add_counts (counts_of error 1) counts),
        )
      ]

  -- Pruning a shard, if it succeeds, removes exactly the entries whose deadline is at least the retention old, and no
  -- entry of another index.
  pub prune_shard_lem :
      (shard : ℕ) (s : Store) (n : ℕ) (k : Key) (m : Text) (score : ℕ)
      → (prune_shard env w c shard s).0 ≡ ok n
      → (view s).zset k m ≡ some score
      → ((k ≡ wait_index shard)
          × (score + wait_prune_after_seconds * 1000 ≤ now s)
          × ((view (prune_shard env w c shard s).1).zset k m ≡ none))
        ⊎ (((k ≢ wait_index shard) ⊎ (now s < score + wait_prune_after_seconds * 1000))
            × ((view (prune_shard env w c shard s).1).zset k m ≡ some score))
  unfolding prune_shard
  prune_shard_lem shard s n k m score e h = ground (
    arith,
    zremrangebyscore_lem (wait_index shard) 0 (now s - wait_prune_after_seconds * 1000) s,
    key_eq_iff (wait_index shard) k,
  )

  -- A shard whose lock somebody else holds is left alone: nothing in Redis changes.
  pub sweep_shard-locked :
      (shard : ℕ) (pruning : Bool) (s : Store) (v : Value)
      → (view s).str (wait_sweep_lock shard) ≡ some v
      → view (sweep_shard env w c shard pruning s).1 ≡ view s
  unfolding sweep_shard
  sweep_shard-locked shard pruning s v h = ground (
    arith,
    acquire_scoped_lock-held env (wait_sweep_lock shard) (uuid s) c.lock_ttl_seconds s v h,
  )

  sweep_claimed_ok :
      (shard : ℕ) (pruning : Bool) (s : Store)
      → (counts : Counts) × ((sweep_claimed env w c shard pruning s).0 ≡ ok counts)
  unfolding sweep_claimed
  sweep_claimed_ok shard pruning s =
      try_catch_ok (sweep_halves env w c shard pruning) (counts_of error 1) s

  sweep_shard_ok :
      (shard : ℕ) (pruning : Bool) (s : Store)
      → (counts : Counts) × ((sweep_shard env w c shard pruning s).0 ≡ ok counts)
  unfolding sweep_shard
  sweep_shard_ok shard pruning s = elim (Reply-cases (sweep_shard env w c shard pruning s).0) [
    | inl r ↦ r
    | inr e ↦
        let token = uuid s in
        let r = acquire_scoped_lock env (wait_sweep_lock shard) token c.lock_ttl_seconds s in
        let (counts, claimed) = sweep_claimed_ok shard pruning r.1 in
        (no_counts, ground (arith, e, claimed))
  ]

  sweep_shards_ok :
      (left offset start : ℕ) (pruning : Bool) (s : Store)
      → (counts : Counts) × ((sweep_shards env w c left offset start pruning s).0 ≡ ok counts)
  unfolding sweep_shards
  sweep_shards_ok zero offset start pruning s = (no_counts, refl)
  sweep_shards_ok (suc n) offset start pruning s =
      let r = sweep_shard env w c (shard_at start offset) pruning s in
      let (counts, e) = sweep_shard_ok (shard_at start offset) pruning s in
      let (more, f) = sweep_shards_ok n (offset + 1) start pruning r.1 in
      (add_counts counts more, cc)

  -- A pass is due to prune only if a whole interval went by since the last pass that did, and it
  -- then records its time.
  pub prune_is_due_lem :
      (st : SweepState) (clock last : ℕ)
      → st.last_prune_ms ≡ some last
      → (prune_is_due env w c st clock).0 ≡ true
      → (last + c.prune_interval_seconds * 1000 ≤ clock)
        × ((prune_is_due env w c st clock).1.last_prune_ms ≡ some clock)
  unfolding prune_is_due
  prune_is_due_lem st clock last h e = ground arith

  -- A pass never throws, whatever Redis does. It moves the cursor to the next shard, and the time of
  -- the last prune is the one that the test for a due prune gave.
  pub sweep_once_ok :
      (st : SweepState) (s : Store)
      → (counts : Counts) × (next : SweepState) × ((sweep_once env w c st s).0 ≡ ok (counts, next))
        × (next.shard_cursor ≡ (st.shard_cursor + 1) % wait_index_shards)
        × (next.last_prune_ms ≡ (prune_is_due env w c st (now s)).1.last_prune_ms)
  unfolding sweep_once
  sweep_once_ok st s =
      let (pruning, st') = prune_is_due env w c st (now s) in
      let (counts, e) = sweep_shards_ok wait_index_shards 0 st.shard_cursor pruning s in
      (
        counts,
        record st' { shard_cursor = (st.shard_cursor + 1) % wait_index_shards },
        cc,
        refl,
        refl,
      )
