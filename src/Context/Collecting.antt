-- ===== src/Context/Collecting.antt =====
-- src/context.ts: `collectGroupResults`, which polls for the results of a group.
use by_framework_ts.Common.{
  ℕ, zero, suc, ◌+◌, ◌-◌, ◌*◌, ◌≤◌, ◌<◌, ltb, leb, Text, is_empty, ◌≡◌, ◌≢◌, inl, inr, Bool, true,
  false, List, [], ◌∷◌, ◌++◌, Option, none, some, ok, if◌then◌else◌, length, arith, Bool-cases,
}
use by_framework_ts.Protocol.Json.{JsonValue}
use by_framework_ts.Redis.Keys.{Key, task_group, task_group_results}
use by_framework_ts.Redis.Values.{Value, plain, number, result, StoredResult}
use by_framework_ts.Redis.Env.{Env}
use by_framework_ts.Redis.Async.{Async, ◌>>=◌, ◌>>◌, return, reads, Reply-cases}
use by_framework_ts.Liveness.WaitSweeper.Triage.{task_group_field_total}

pub record GroupResult : Type 0 where
  pub message_id : Text
  pub status : Text
  pub reply_data : JsonValue
  pub content : JsonValue

-- `totalStr ? parseInt(totalStr, 10) : Infinity`, with none for Infinity. What is no number ends the
-- loop at once, as 0 does.
unfoldable pub total_of : Option Value → Option ℕ
total_of none = none
total_of (some (number n)) = some n
total_of (some (plain t)) = if is_empty t then none else some 0
total_of (some _) = some 0

-- `results.length < total`
unfoldable pub is_short : Option ℕ → ℕ → Bool
is_short none n = true
is_short (some total) n = ltb n total

unfoldable pub group_result : Text → StoredResult → GroupResult
group_result message_id r = record {
  message_id = message_id;
  status = r.status;
  reply_data = r.reply_data;
  content = r.content;
}

-- What is no stored result is passed over.
unfoldable pub parse_results : List (Text × Value) → List GroupResult
parse_results [] = []
parse_results ((m, result r) ∷ raw) = group_result m r ∷ parse_results raw
parse_results ((m, _) ∷ raw) = parse_results raw

abbrev pub poll_ms : ℕ
poll_ms = 100

module _ (env : Env) where
  open env use {Store, now, hget, hgetall, sleep, sleep_lem}

  abbrev pub pause : Async Store (Unit {0})
  pause s = (ok tt, sleep poll_ms s)

  -- The loop, on fuel, until the time-out has passed since the start; `none` is a loop that did not end within its
  -- fuel.
  unfoldable pub collect_loop :
      ℕ → ℕ → ℕ → Option ℕ → Key → List GroupResult → Async Store (Option (List GroupResult))
  collect_loop zero start timeout total key results = return none
  collect_loop (suc fuel) start timeout total key results = elim (is_short total (length results)) [
    | false ↦ return (some results)
    | true ↦ do
      clock ← reads now
      elim (leb (timeout * 1000) (clock - start)) [
        | true ↦ return (some results)
        | false ↦ do
          raw ← hgetall key
          elim (is_short total (length (results ++ parse_results raw))) [
            | false ↦ return (some (results ++ parse_results raw))
            | true ↦ do
              pause
              collect_loop fuel start timeout total key (results ++ parse_results raw)
          ]
      ]
  ]

  unfoldable pub collect_group_results : Text → ℕ → Async Store (Option (List GroupResult))
  unfolding collect_loop total_of
  collect_group_results task_group_id timeout =
      if is_empty task_group_id then return (some []) else do
        total ← hget (task_group task_group_id) task_group_field_total
        start ← reads now
        collect_loop (suc (timeout * 1000)) start timeout (total_of total)
            (task_group_results task_group_id) []

  -- The clock is not set back while the results are read.
  pub record IsSteadyHash : Type 0 where
    pub hgetall_steady : (k : Key) (s : Store) → now s ≤ now (hgetall k s).1

  collect_loop-ends :
      IsSteadyHash
      → (fuel start timeout : ℕ) (total : Option ℕ) (key : Key) (results : List GroupResult)
        (s : Store)
      → 0 < fuel
      → start + timeout * 1000 < now s + fuel
      → start ≤ now s
      → (collect_loop fuel start timeout total key results s).0 ≢ ok none
  unfolding collect_loop
  collect_loop-ends steady zero start timeout total key results s h i j = absurd (omega arith)
  collect_loop-ends steady (suc fuel) start timeout total key results s h i j =
      let s1 = (hgetall key s).1 in
      let s2 = sleep poll_ms s1 in
      elim (Reply-cases (hgetall key s).0) [
        | inl (raw, e) ↦
            let more = results ++ parse_results raw in
            ground (
              arith,
              e,
              steady.hgetall_steady key s,
              sleep_lem poll_ms s1,
              Bool-cases (is_short total (length results)),
              Bool-cases (is_short total (length more)),
              collect_loop-ends steady fuel start timeout total key more s2,
            )
        | inr e ↦ ground (arith, e, Bool-cases (is_short total (length results)))
      ]

  -- Collecting the results of a group comes to an end, or throws because Redis fails, whatever
  -- others write in between and whether or not the results are ever complete.
  pub collect_group_results-ends :
      IsSteadyHash
      → (g : Text) (timeout : ℕ) (s : Store) → (collect_group_results g timeout s).0 ≢ ok none
  unfolding collect_group_results
  collect_group_results-ends steady g timeout s =
      let s1 = (hget (task_group g) task_group_field_total s).1 in
      elim (Reply-cases (hget (task_group g) task_group_field_total s).0) [
        | inl (total, e) ↦ ground (
          arith,
          e,
          Bool-cases (is_empty g),
          collect_loop-ends steady (suc (timeout * 1000)) (now s1) timeout (total_of total)
              (task_group_results g) [] s1,
        )
        | inr e ↦ ground (arith, e, Bool-cases (is_empty g))
      ]

  -- Two polls that both find one result of a group of two end the collection with that result twice and the other
  -- missing: what a poll finds is added to what the polls before it found.
  pub collect_loop-repeats :
      (fuel start timeout : ℕ) (key : Key) (s : Store) (m : Text) (r : StoredResult)
      → now s - start < timeout * 1000
      → (hgetall key s).0 ≡ ok ((m, result r) ∷ [])
      → now (sleep poll_ms (hgetall key s).1) - start < timeout * 1000
      → (hgetall key (sleep poll_ms (hgetall key s).1)).0 ≡ ok ((m, result r) ∷ [])
      → (collect_loop (suc (suc fuel)) start timeout (some 2) key [] s).0
        ≡ ok (some (group_result m r ∷ group_result m r ∷ []))
  unfolding collect_loop parse_results is_short
  collect_loop-repeats fuel start timeout key s m r a b c d = ground (arith, b, d)
