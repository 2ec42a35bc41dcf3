-- ===== src/Registry/Leases/Ownership.antt =====
-- Who owns a lease or a lock: nobody but the holder of its token changes it.
use by_framework_ts.Common.{
  ℕ, Text, text_eq_iff, is_empty_iff, ◌≡◌, ◌≢◌, ◌⊎◌, Bool, true, false, [], Option, none, some, ok,
  arith, is_some,
}
use by_framework_ts.Redis.Keys.{Key, key_eq_iff, known_workers, worker_online_lease}
use by_framework_ts.Redis.Values.{Value, lock}
use by_framework_ts.Redis.Env.{Env}
use by_framework_ts.Redis.Async.{Async, ◌>>◌, return}
use by_framework_ts.Registry.Leases.{
  decode_worker_presence, lease_value, acquire_scoped_lock, release_scoped_lock, is_worker_online,
  claim_worker_id, heartbeat_worker, heartbeat_unclaimed, release_worker_id, refresh_worker_id_lock,
  mark_worker_inactive,
}

-- What a process that has the token `u` can do about a worker id.
pub data Attempt : Type 0 where
  claims : (ip : Text) (ttl : ℕ) → Attempt
  heartbeats : (ip : Text) (u : Text) (ttl : ℕ) → Attempt
  anonymous_heartbeats : (ip : Text) (ttl : ℕ) → Attempt
  releases : (u : Text) → Attempt
  refreshes : (u : Text) (ttl : ℕ) → Attempt
  deactivates : (expected : Option Text) → Attempt

-- It is made without the token `t`. A deactivation that names no token is not counted: whoever makes
-- it removes any lease.
abbrev pub IsForeign : Text → Attempt → Type 0
IsForeign t (claims ip ttl) = Unit
IsForeign t (heartbeats ip u ttl) = t ≢ u
IsForeign t (anonymous_heartbeats ip ttl) = Unit
IsForeign t (releases u) = t ≢ u
IsForeign t (refreshes u ttl) = t ≢ u
IsForeign t (deactivates none) = ⊥
IsForeign t (deactivates (some u)) = (t ≢ u) × (u ≢ [])

module _ (env : Env) (worker_id : Text) where
  open env use {
    Store, view, now, uuid, set, set_lem, set_nx, set_nx_lem, get, get_lem, del, del_lem, expire,
    expire_lem, sadd, sadd_lem,
  }

  -- Whether the attempt was granted, and the state after it.
  pub attempt : Attempt → Async Store Bool
  unfolding claim_worker_id heartbeat_worker heartbeat_unclaimed release_worker_id
      refresh_worker_id_lock mark_worker_inactive
  attempt (claims ip ttl) = claim_worker_id env ip worker_id ttl >> return true
  attempt (heartbeats ip u ttl) = heartbeat_worker env ip (some u) worker_id ttl
  attempt (anonymous_heartbeats ip ttl) = heartbeat_worker env ip none worker_id ttl
  attempt (releases u) = release_worker_id env worker_id (some u)
  attempt (refreshes u ttl) = refresh_worker_id_lock env worker_id (some u) ttl
  attempt (deactivates expected) = mark_worker_inactive env worker_id expected

  -- The token that holds the lease.
  abbrev pub holder : Store → Option Text
  holder s = (decode_worker_presence ((view s).str (worker_online_lease worker_id))).token

  -- While a token holds a worker's lease, no attempt that is made without it is granted or changes
  -- the lease: not a claim, a heartbeat, a refresh, a release or a deactivation that
  -- names another token. Deactivations that name no token are excepted; they remove any lease.
  pub attempt-IsForeign :
      (t : Text) (a : Attempt) (s : Store)
      → holder s ≡ some t
      → IsForeign t a
      → ((view (attempt a s).1).str (worker_online_lease worker_id)
          ≡ (view s).str (worker_online_lease worker_id))
        × ((attempt a s).0 ≢ ok true)
  unfolding attempt decode_worker_presence
  attempt-IsForeign t (claims ip ttl) s h f =
      let k = worker_online_lease worker_id in
      let v = lease_value env (some (uuid s)) 0 ip in
      let s1 = (set_nx k v ttl s).1 in
      ground (arith, set_nx_lem k v ttl s, key_eq_iff k k, sadd_lem known_workers worker_id s1)
  attempt-IsForeign t (heartbeats ip u ttl) s h f =
      ground (arith, get_lem (worker_online_lease worker_id) s, text_eq_iff t u, is_empty_iff u)
  attempt-IsForeign t (anonymous_heartbeats ip ttl) s h f =
      ground (arith, get_lem (worker_online_lease worker_id) s)
  attempt-IsForeign t (releases u) s h f =
      ground (arith, get_lem (worker_online_lease worker_id) s, text_eq_iff t u)
  attempt-IsForeign t (refreshes u ttl) s h f =
      ground (arith, get_lem (worker_online_lease worker_id) s, text_eq_iff t u)
  attempt-IsForeign t (deactivates none) s h f = absurd f
  attempt-IsForeign t (deactivates (some u)) s h f =
      ground (arith, get_lem (worker_online_lease worker_id) s, text_eq_iff t u, is_empty_iff u)

module _ (env : Env) (key : Key) where
  open env use {Store, view, set_nx, set_nx_lem, get, get_lem, del, del_lem}

  -- A lock is granted exactly where nobody has it, and then holds the token that asked; a lock that
  -- somebody has stays as it is.
  pub acquire_scoped_lock_lem :
      (token : Text) (ttl : ℕ) (s : Store) (granted : Bool)
      → (acquire_scoped_lock env key token ttl s).0 ≡ ok granted
      → ((granted ≡ true)
          × ((view s).str key ≡ none)
          × ((view (acquire_scoped_lock env key token ttl s).1).str key ≡ some (lock token)))
        ⊎ ((granted ≡ false)
            × (is_some ((view s).str key) ≡ true)
            × ((view (acquire_scoped_lock env key token ttl s).1).str key ≡ (view s).str key))
  unfolding acquire_scoped_lock
  acquire_scoped_lock_lem token ttl s granted e =
      ground (arith, set_nx_lem key (lock token) ttl s, key_eq_iff key key)

  -- Asking for a lock that somebody has changes nothing, and it is not granted.
  pub acquire_scoped_lock-held :
      (token : Text) (ttl : ℕ) (s : Store) (v : Value)
      → (view s).str key ≡ some v
      → (view (acquire_scoped_lock env key token ttl s).1 ≡ view s)
        × ((acquire_scoped_lock env key token ttl s).0 ≢ ok true)
  unfolding acquire_scoped_lock
  acquire_scoped_lock-held token ttl s v h = ground (arith, set_nx_lem key (lock token) ttl s)

  -- A lock is released by no other token than the one that it was taken with, unless that is empty.
  pub release_scoped_lock-foreign :
      (token other : Text) (s : Store)
      → (view s).str key ≡ some (lock token)
      → token ≢ other
      → other ≢ []
      → ((view (release_scoped_lock env key other s).1).str key ≡ some (lock token))
        × ((release_scoped_lock env key other s).0 ≢ ok true)
  unfolding release_scoped_lock
  release_scoped_lock-foreign token other s held ne non_empty =
      ground (arith, get_lem key s, text_eq_iff token other, is_empty_iff other)

-- Asking whether a worker is online changes nothing.
pub is_worker_online-view :
    (env : Env) (worker_id : Text) (s : env.Store)
    → env.view (is_worker_online env worker_id s).1 ≡ env.view s
unfolding is_worker_online
is_worker_online-view env worker_id s =
    ground (arith, env.get_lem (worker_online_lease worker_id) s)
