-- ===== src/Registry/Leases.antt =====
-- src/registry.ts: the lease by which a worker is online, and the lock of a shard. The registry keeps
-- the tokens of the leases that it holds in a map.
pub mod Ownership
use by_framework_ts.Common.{
  ℕ, ◌<◌, ltb, Text, text_eq, is_empty, or_text, Bool, true, false, not, ◌&&◌, ◌||◌, List, [], ◌∷◌,
  Option, none, some, ok, err, if◌then◌else◌, is_some,
}
use by_framework_ts.Redis.Keys.{Key, worker_online_lease, known_workers}
use by_framework_ts.Redis.Values.{Value, plain, number, presence, lock, unreadable, Presence}
use by_framework_ts.Redis.Env.{Env, Reply}
use by_framework_ts.Redis.Async.{Async, ◌>>=◌, ◌>>◌, return, throw, reads, try_catch}

abbrev no_presence : Presence
no_presence = record { token = none; last_seen = 0; is_legacy = false; ip_address = [] }

-- `decodeWorkerPresence`: bare values come from older writers. The decimals of a number and the raw
-- text of what is no JSON, which the source takes for a token, are not modelled: they give no token.
unfoldable pub decode_worker_presence : Option Value → Presence
decode_worker_presence none = no_presence
decode_worker_presence (some (presence p)) = record {
  token = p.token;
  last_seen = p.last_seen;
  is_legacy = false;
  ip_address = p.ip_address;
}
decode_worker_presence (some (plain token)) = record {
  token = some token;
  last_seen = 0;
  is_legacy = true;
  ip_address = [];
}
decode_worker_presence (some (lock token)) = record no_presence { token = some token }
decode_worker_presence (some (number n)) = record no_presence { is_legacy = true }
decode_worker_presence (some unreadable) = record no_presence { is_legacy = true }
decode_worker_presence (some _) = no_presence

-- `presence.token === token`
abbrev pub token_is : Option Text → Text → Bool
token_is none t = false
token_is (some s) t = text_eq s t

-- `expected && presence.token !== expected`; the empty token is falsy.
abbrev refuses : Option Text → Option Text → Bool
refuses none held = false
refuses (some expected) held = not (is_empty expected) && not (token_is held expected)

-- `decodeLockToken`
unfoldable pub decode_lock_token : Option Value → Option Text
decode_lock_token (some (lock token)) = some token
decode_lock_token (some (plain token)) = some token
decode_lock_token _ = none

module _ (env : Env) where
  open env use {Store, now, uuid, set, set_nx, get, del, expire, sadd}

  abbrev lease_value : Option Text → ℕ → Text → Value
  lease_value token last_seen ip =
      presence (record { token = token; last_seen = last_seen; is_legacy = false; ip_address = ip })

  unfoldable pub acquire_scoped_lock : Key → Text → ℕ → Async Store Bool
  acquire_scoped_lock key token ttl = do stored ← set_nx key (lock token) ttl; return stored

  -- An empty token releases whatever is held.
  unfoldable pub release_scoped_lock : Key → Text → Async Store Bool
  unfolding decode_lock_token
  release_scoped_lock key token = do
    raw ← get key
    if not (is_some raw)
        then return (is_empty token)
        else if is_empty token
        then del key >> return true
        else if token_is (decode_lock_token raw) token
        then del key >> return true
        else return false

  unfoldable pub is_worker_online : Text → Async Store Bool
  unfolding decode_worker_presence
  is_worker_online worker_id = do
    raw ← get (worker_online_lease worker_id)
    let p = decode_worker_presence raw
    return (is_some raw && (p.is_legacy || ltb 0 p.last_seen))

  -- `claimWorkerId`: throws where the id is in use. The token of a lease that was won is the new entry
  -- of the map, which it has also where adding the worker to the known ones throws.
  unfoldable pub claim_worker_id : Text → Text → ℕ → Async Store Text
  claim_worker_id ip worker_id ttl = do
    token ← reads uuid
    won ← set_nx (worker_online_lease worker_id) (lease_value (some token) 0 ip) ttl
    if won then sadd known_workers worker_id >> return token else throw

  -- The end of `heartbeatWorker`.
  unfoldable pub known : Text → Async Store Bool
  known worker_id = do sadd known_workers worker_id; return true

  -- `heartbeatWorker` of a worker that has no token.
  unfoldable pub heartbeat_unclaimed : Text → Text → ℕ → Async Store Bool
  unfolding decode_worker_presence known
  heartbeat_unclaimed ip worker_id ttl = do
    clock ← reads now
    current ← get (worker_online_lease worker_id)
    if is_some (decode_worker_presence current).token
        then return false
        else set (worker_online_lease worker_id) (lease_value none clock ip) ttl >> known worker_id

  -- `heartbeatWorker`, with the token that the map has for the worker; the empty one is none.
  unfoldable pub heartbeat_worker : Text → Option Text → Text → ℕ → Async Store Bool
  unfolding decode_worker_presence known heartbeat_unclaimed
  heartbeat_worker ip (some token) worker_id ttl =
      if is_empty token then heartbeat_unclaimed ip worker_id ttl else do
        clock ← reads now
        current ← get (worker_online_lease worker_id)
        if not (is_some current)
            then (set_nx (worker_online_lease worker_id) (lease_value (some token) clock ip) ttl
                >>= (λ won. if won then known worker_id else return false))
            else if token_is (decode_worker_presence current).token token
            then set (worker_online_lease worker_id) (lease_value (some token) clock ip) ttl
              >> known worker_id
            else return false
  heartbeat_worker ip none worker_id ttl = heartbeat_unclaimed ip worker_id ttl

  -- `releaseWorkerId` with the token that it expects, given or from the map.
  pub release_worker_id : Text → Option Text → Async Store Bool
  unfolding decode_worker_presence
  release_worker_id worker_id none = return false
  release_worker_id worker_id (some expected) = if is_empty expected then return false else do
    current ← get (worker_online_lease worker_id)
    if token_is (decode_worker_presence current).token expected
        then del (worker_online_lease worker_id) >> return true
        else return false

  -- `refreshWorkerIdLock`; `EXPIRE` replies whether the key is there.
  pub refresh_worker_id_lock : Text → Option Text → ℕ → Async Store Bool
  unfolding decode_worker_presence
  refresh_worker_id_lock worker_id none ttl = return false
  refresh_worker_id_lock worker_id (some token) ttl = if is_empty token then return false else do
    current ← get (worker_online_lease worker_id)
    if token_is (decode_worker_presence current).token token
        then expire (worker_online_lease worker_id) ttl >> return true
        else return false

  -- `markWorkerInactive`
  pub mark_worker_inactive : Text → Option Text → Async Store Bool
  unfolding decode_worker_presence
  mark_worker_inactive worker_id expected = do
    current ← get (worker_online_lease worker_id)
    elim (refuses expected (decode_worker_presence current).token) [
      | true ↦ return false
      | false ↦ del (worker_online_lease worker_id) >> return true
    ]
