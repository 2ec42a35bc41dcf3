-- ===== src/Redis/Env.antt =====
-- The parameter of the development: a Redis server with its clock, and what it is documented to do.
use by_framework_ts.Common.{
  ℕ, ◌+◌, ◌≤◌, Text, text_eq, Bool, true, false, List, Option, none, some, ◌≡◌, ◌⊎◌, Result, ok,
  err, All, length, is_some, not, includes, lookup, IsObject,
}
use by_framework_ts.Redis.Keys.{Key}
use by_framework_ts.Redis.Values.{Value, number}
use by_framework_ts.Redis.Data.{
  Data, put_entry, drop_range, put_str, put_field, add_stream, put_member, clear_members,
  clear_fields, count_entry, put_absent, number_at,
}

-- What awaiting a command gives: its reply, or a thrown error.
abbrev pub Reply : Type 0 → Type 0
Reply = Result (Unit {0})

-- A command's reply meets `Q` and its effect is `after`; one that threw has run, or has not.
abbrev pub Ran : {A : Type 0} → (A → Type 0) → Data → Data → Data → Reply A → Type 0
Ran Q before after now (ok a) = Q a × (now ≡ after)
Ran Q before after now (err e) = (now ≡ before) ⊎ (now ≡ after)

-- A member of a range of scores, with its score.
abbrev pub InRange : (Text → Option ℕ) → ℕ → ℕ → Text × ℕ → Type 0
InRange scores lo hi e = (scores e.0 ≡ some e.1) × (lo ≤ e.1) × (e.1 ≤ hi)

pub record Env : Type 1 where
  pub Store : Type 0
  pub view : Store → Data
  -- `Date.now()`, a new uuid without its dashes, and the SHA-1 of a text in hexadecimal.
  pub now : Store → ℕ
  pub uuid : Store → Text
  pub sha1 : Text → Text
  pub zadd : Key → ℕ → Text → Store → Reply (Unit {0}) × Store
  pub zadd_lem :
      (k : Key) (score : ℕ) (m : Text) (s : Store)
      → Ran
          (λ r. Unit {0})
          (view s)
          (put_entry k m (some score) (view s))
          (view (zadd k score m s).1)
          (zadd k score m s).0
  pub zrem : Key → Text → Store → Reply ℕ × Store
  pub zrem_lem :
      (k : Key) (m : Text) (s : Store)
      → Ran
          (λ n. n ≡ count_entry ((view s).zset k m))
          (view s)
          (put_entry k m none (view s))
          (view (zrem k m s).1)
          (zrem k m s).0
  pub zremrangebyscore : Key → ℕ → ℕ → Store → Reply ℕ × Store
  pub zremrangebyscore_lem :
      (k : Key) (lo hi : ℕ) (s : Store)
      → Ran
          (λ n. Unit {0})
          (view s)
          (drop_range k lo hi (view s))
          (view (zremrangebyscore k lo hi s).1)
          (zremrangebyscore k lo hi s).0
  -- `ZRANGEBYSCORE key lo hi WITHSCORES LIMIT 0 limit`
  pub zrangebyscore : Key → ℕ → ℕ → ℕ → Store → Reply (List (Text × ℕ)) × Store
  pub zrangebyscore_lem :
      (k : Key) (lo hi limit : ℕ) (s : Store)
      → Ran
          (λ es. All (InRange ((view s).zset k) lo hi) es × (length es ≤ limit))
          (view s)
          (view s)
          (view (zrangebyscore k lo hi limit s).1)
          (zrangebyscore k lo hi limit s).0
  -- `SET key value EX ttl`, and the same with `NX`, which replies whether the key was set.
  pub set : Key → Value → ℕ → Store → Reply (Unit {0}) × Store
  pub set_lem :
      (k : Key) (v : Value) (ttl : ℕ) (s : Store)
      → Ran
          (λ r. Unit {0})
          (view s)
          (put_str k (some v) (view s))
          (view (set k v ttl s).1)
          (set k v ttl s).0
  pub set_nx : Key → Value → ℕ → Store → Reply Bool × Store
  pub set_nx_lem :
      (k : Key) (v : Value) (ttl : ℕ) (s : Store)
      → Ran
          (λ b. b ≡ not (is_some ((view s).str k)))
          (view s)
          (put_absent k v (view s))
          (view (set_nx k v ttl s).1)
          (set_nx k v ttl s).0
  pub get : Key → Store → Reply (Option Value) × Store
  pub get_lem :
      (k : Key) (s : Store)
      → Ran (λ r. r ≡ (view s).str k) (view s) (view s) (view (get k s).1) (get k s).0
  pub exists : Key → Store → Reply Bool × Store
  pub exists_lem :
      (k : Key) (s : Store)
      → Ran
          (λ b. b ≡ is_some ((view s).str k))
          (view s)
          (view s)
          (view (exists k s).1)
          (exists k s).0
  pub del : Key → Store → Reply (Unit {0}) × Store
  pub del_lem :
      (k : Key) (s : Store)
      → Ran (λ r. Unit {0}) (view s) (put_str k none (view s)) (view (del k s).1) (del k s).0
  pub hget : Key → Text → Store → Reply (Option Value) × Store
  pub hget_lem :
      (k : Key) (f : Text) (s : Store)
      → Ran (λ r. r ≡ (view s).hash k f) (view s) (view s) (view (hget k f s).1) (hget k f s).0
  pub hset : Key → Text → Value → Store → Reply (Unit {0}) × Store
  pub hset_lem :
      (k : Key) (f : Text) (v : Value) (s : Store)
      → Ran
          (λ r. Unit {0})
          (view s)
          (put_field k f (some v) (view s))
          (view (hset k f v s).1)
          (hset k f v s).0
  pub hincrby : Key → Text → ℕ → Store → Reply ℕ × Store
  pub hincrby_lem :
      (k : Key) (f : Text) (n : ℕ) (s : Store)
      → Ran
          (λ r. r ≡ number_at ((view s).hash k f) + n)
          (view s)
          (put_field k f (some (number (number_at ((view s).hash k f) + n))) (view s))
          (view (hincrby k f n s).1)
          (hincrby k f n s).0
  pub sadd : Key → Text → Store → Reply (Unit {0}) × Store
  pub sadd_lem :
      (k : Key) (m : Text) (s : Store)
      → Ran
          (λ r. Unit {0})
          (view s)
          (put_member k m true (view s))
          (view (sadd k m s).1)
          (sadd k m s).0
  pub srem : Key → Text → Store → Reply (Unit {0}) × Store
  pub srem_lem :
      (k : Key) (m : Text) (s : Store)
      → Ran
          (λ r. Unit {0})
          (view s)
          (put_member k m false (view s))
          (view (srem k m s).1)
          (srem k m s).0
  pub sismember : Key → Text → Store → Reply Bool × Store
  pub sismember_lem :
      (k : Key) (m : Text) (s : Store)
      → Ran
          (λ b. b ≡ (view s).members k m)
          (view s)
          (view s)
          (view (sismember k m s).1)
          (sismember k m s).0
  pub smembers : Key → Store → Reply (List Text) × Store
  pub smembers_lem :
      (k : Key) (s : Store)
      → Ran
          (λ ms. (m : Text) → includes text_eq ms m ≡ (view s).members k m)
          (view s)
          (view s)
          (view (smembers k s).1)
          (smembers k s).0
  -- DEL of a key that holds a set, or a hash.
  pub del_set : Key → Store → Reply (Unit {0}) × Store
  pub del_set_lem :
      (k : Key) (s : Store)
      → Ran
          (λ r. Unit {0})
          (view s)
          (clear_members k (view s))
          (view (del_set k s).1)
          (del_set k s).0
  pub del_hash : Key → Store → Reply (Unit {0}) × Store
  pub del_hash_lem :
      (k : Key) (s : Store)
      → Ran
          (λ r. Unit {0})
          (view s)
          (clear_fields k (view s))
          (view (del_hash k s).1)
          (del_hash k s).0
  pub hgetall : Key → Store → Reply (List (Text × Value)) × Store
  pub hgetall_lem :
      (k : Key) (s : Store)
      → Ran
          (λ fs. IsObject fs × ((f : Text) → lookup f fs ≡ (view s).hash k f))
          (view s)
          (view s)
          (view (hgetall k s).1)
          (hgetall k s).0
  -- While a timer runs, others write what they like.
  pub sleep : (ms : ℕ) → Store → Store
  pub sleep_lem : (ms : ℕ) (s : Store) → now s + ms ≤ now (sleep ms s)
  -- A time to live that is renewed changes no contents.
  pub expire : Key → ℕ → Store → Reply (Unit {0}) × Store
  pub expire_lem :
      (k : Key) (ttl : ℕ) (s : Store)
      → Ran (λ r. Unit {0}) (view s) (view s) (view (expire k ttl s).1) (expire k ttl s).0
  pub xadd : Key → Value → Store → Reply (Unit {0}) × Store
  pub xadd_lem :
      (k : Key) (v : Value) (s : Store)
      → Ran (λ r. Unit {0}) (view s) (add_stream k v (view s)) (view (xadd k v s).1) (xadd k v s).0
