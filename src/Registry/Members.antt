-- ===== src/Registry/Members.antt =====
-- src/registry.ts: which workers serve an agent type. A worker declares types; the members of a type
-- are the workers that it is routed to, without those on the type's denylist.
pub mod Online
pub mod Denial
pub mod Restoring
use by_framework_ts.Common.{
  ℕ, zero, suc, Text, codes, Bool, true, false, not, ◌||◌, ltb, List, [], ◌∷◌, Option, none, some,
  ok, err, if◌then◌else◌, is_some, length,
}
use by_framework_ts.Redis.Keys.{
  Key, known_workers, worker_online_lease, worker_declared_agent_types, agent_type_members,
  worker_admin_state, agent_type_denied,
}
use by_framework_ts.Redis.Values.{Value, Presence, plain, number}
use by_framework_ts.Redis.Env.{Env}
use by_framework_ts.Redis.Async.{Async, ◌>>=◌, ◌>>◌, return, reads, try_catch}
use by_framework_ts.Registry.Leases.{
  decode_worker_presence, is_worker_online, heartbeat_worker, mark_worker_inactive,
}

-- `list.length > 0`
abbrev pub is_filled : List Text → Bool
is_filled [] = false
is_filled (x ∷ xs) = true

-- `workers[index]`
unfoldable pub nth : List Text → ℕ → Option Text
nth [] i = none
nth (w ∷ ws) zero = some w
nth (w ∷ ws) (suc i) = nth ws i

pub record WorkerInfo : Type 0 where
  pub agent_types : List Text
  pub last_seen : ℕ
  pub ip_address : Text

module _ (env : Env) where
  open env use {Store, now, get, sadd, srem, sismember, smembers, del_set, del_hash, hset, hgetall}

  -- A command of a pipeline: `exec()` reports its error in the results and does not throw.
  abbrev pub piped : {A : Type 0} → Async Store A → Async Store (Unit {0})
  piped c = try_catch (c >> return tt) (return tt)

  unfoldable pub is_worker_denied_for_type : Text → Text → Async Store Bool
  is_worker_denied_for_type agent_type worker_id =
      sismember (agent_type_denied agent_type) worker_id

  -- What `registerWorkerMembership` and `restoreWorkerToTypeMembers` do for one agent type.
  unfoldable pub join_type : Text → Text → Async Store (Unit {0})
  unfolding is_worker_denied_for_type
  join_type worker_id agent_type = do
    denied ← is_worker_denied_for_type agent_type worker_id
    if denied then return tt else sadd (agent_type_members agent_type) worker_id

  unfoldable pub declare_types : Text → List Text → Async Store (Unit {0})
  declare_types worker_id [] = return tt
  declare_types worker_id (a ∷ types) = do
    sadd (worker_declared_agent_types worker_id) a
    join_type worker_id a
    declare_types worker_id types

  unfoldable pub register_worker_membership : Text → List Text → Async Store (Unit {0})
  register_worker_membership worker_id types = do
    sadd known_workers worker_id
    declare_types worker_id types

  -- `registerWorker`, with the token that the map has for the worker.
  pub register_worker : Text → Option Text → ℕ → Text → List Text → Async Store (Unit {0})
  unfolding register_worker_membership
  register_worker ip token ttl worker_id types = do
    register_worker_membership worker_id types
    heartbeat_worker env ip token worker_id ttl
    return tt

  unfoldable pub join_types : Text → List Text → Async Store (Unit {0})
  join_types worker_id [] = return tt
  join_types worker_id (a ∷ types) = do join_type worker_id a; join_types worker_id types

  unfoldable pub leave_types : Text → List Text → Async Store (Unit {0})
  leave_types worker_id [] = return tt
  leave_types worker_id (a ∷ types) = do
    srem (agent_type_members a) worker_id
    leave_types worker_id types

  unfoldable pub unregister_worker_membership : Text → Async Store (Unit {0})
  unregister_worker_membership worker_id = do
    types ← smembers (worker_declared_agent_types worker_id)
    del_set (worker_declared_agent_types worker_id)
    srem known_workers worker_id
    leave_types worker_id types

  -- `unregisterWorker`, with the token that the map has for the worker.
  pub unregister_worker : Text → Option Text → Async Store (Unit {0})
  unfolding unregister_worker_membership
  unregister_worker worker_id token = do
    mark_worker_inactive env worker_id token
    unregister_worker_membership worker_id

  unfoldable pub remove_worker_from_type_members : Text → Async Store (Unit {0})
  remove_worker_from_type_members worker_id = do
    types ← smembers (worker_declared_agent_types worker_id)
    leave_types worker_id types

  unfoldable pub restore_worker_to_type_members : Text → Async Store (Unit {0})
  restore_worker_to_type_members worker_id = do
    types ← smembers (worker_declared_agent_types worker_id)
    join_types worker_id types

  unfoldable pub deny_worker_for_type : Text → Text → Async Store (Unit {0})
  deny_worker_for_type agent_type worker_id = do
    piped (sadd (agent_type_denied agent_type) worker_id)
    piped (srem (agent_type_members agent_type) worker_id)

  unfoldable pub allow_worker_for_type : Text → Text → Async Store (Unit {0})
  allow_worker_for_type agent_type worker_id = srem (agent_type_denied agent_type) worker_id

  pub get_agent_type_denylist : Text → Async Store (List Text)
  get_agent_type_denylist agent_type = smembers (agent_type_denied agent_type)

  pub set_worker_admin_state : Text → Text → Text → Async Store (Unit {0})
  set_worker_admin_state worker_id lifecycle reason = do
    clock ← reads now
    piped (hset (worker_admin_state worker_id) (codes "lifecycle") (plain lifecycle))
    piped (hset (worker_admin_state worker_id) (codes "reason") (plain reason))
    piped (hset (worker_admin_state worker_id) (codes "updated_at") (number clock))

  pub get_worker_admin_state : Text → Async Store (List (Text × Value))
  get_worker_admin_state worker_id = hgetall (worker_admin_state worker_id)

  pub clear_worker_admin_state : Text → Async Store (Unit {0})
  clear_worker_admin_state worker_id = del_hash (worker_admin_state worker_id)

  -- The loop of `hasOnlineAgentType`.
  unfoldable pub online_of : List Text → Async Store (List Text)
  online_of [] = return []
  online_of (w ∷ ws) = do
    online ← is_worker_online env w
    rest ← online_of ws
    return (if online then w ∷ rest else rest)

  unfoldable pub has_online_agent_type : Text → Async Store (Bool × List Text)
  has_online_agent_type agent_type = do
    workers ← smembers (agent_type_members agent_type)
    online ← online_of workers
    return (is_filled online, online)

  unfoldable pub has_agent_type : Text → Bool → Async Store (Bool × List Text)
  has_agent_type agent_type check_active = elim check_active [
    | true ↦ has_online_agent_type agent_type
    | false ↦ do
      workers ← smembers (agent_type_members agent_type)
      return (is_filled workers, workers)
  ]

  unfoldable pub get_online_workers : Text → Async Store (List Text)
  unfolding has_agent_type
  get_online_workers agent_type = do found ← has_agent_type agent_type true; return found.1

  -- `getRandomOnlineWorker`; `pick` is `Math.floor(Math.random() * n)`.
  pub get_random_online_worker : (pick : ℕ → ℕ) → Text → Async Store (Option Text)
  unfolding get_online_workers nth has_agent_type
  get_random_online_worker pick agent_type = do
    workers ← get_online_workers agent_type
    return (nth workers (pick (length workers)))

  -- The answer of `getWorker` for a presence that it takes for one.
  describe_worker : Text → Presence → Async Store (Option WorkerInfo)
  describe_worker worker_id p = do
    types ← smembers (worker_declared_agent_types worker_id)
    clock ← reads now
    return (
        some (record {
          agent_types = types;
          last_seen = if p.is_legacy then clock else p.last_seen;
          ip_address = p.ip_address;
        }))

  pub get_worker : Text → Async Store (Option WorkerInfo)
  unfolding decode_worker_presence describe_worker
  get_worker worker_id = do
    raw ← get (worker_online_lease worker_id)
    let p = decode_worker_presence raw
    if not (is_some raw)
        then return none
        else if p.is_legacy || ltb 0 p.last_seen
        then describe_worker worker_id p
        else return none
