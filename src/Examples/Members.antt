-- ===== src/Examples/Members.antt =====
-- Runs of the registry's membership.
use by_framework_ts.Common.{
  Text, text_eq, codes, ◌≡◌, refl, ◌&&◌, true, false, not, [], ◌∷◌, none, some, ok, includes,
  if◌then◌else◌,
}
use by_framework_ts.Redis.Keys.{
  key_eq, agent_type_members, worker_declared_agent_types, agent_type_denied, worker_online_lease,
}
use by_framework_ts.Redis.Values.{presence}
use by_framework_ts.Redis.Data.{at_key}
use by_framework_ts.Redis.Stored.{without}
use by_framework_ts.Redis.Memory.{memory, Store, empty, view}
use by_framework_ts.Registry.Leases.{decode_worker_presence, is_worker_online}
use by_framework_ts.Registry.Members.{
  is_filled, online_of, has_online_agent_type, remove_worker_from_type_members,
  restore_worker_to_type_members, join_type, join_types, leave_types, is_worker_denied_for_type,
}
use by_framework_ts.Registry.Members.Online.{is_online_in, has_online_agent_type_lem}
use by_framework_ts.Registry.Members.Denial.{IsShut, registers, restores, changes, changes-IsShut}
use by_framework_ts.Registry.Members.Restoring.{restore-remove, restore-online}

abbrev search : Text
search = codes "search"

abbrev worker : Text
worker = codes "w"

-- A server on which one worker, with a lease, serves one agent type, and one on which it was taken out of it.
abbrev served : Store
served = record (empty 1000) {
  strs =
      at_key (worker_online_lease worker)
        (some
          (presence (record { token = none; last_seen = 900; is_legacy = false; ip_address = [] })))
        (λ k. none);
  sets =
      at_key (agent_type_members search) (worker ∷ [])
        (at_key (worker_declared_agent_types worker) (search ∷ []) (λ k. []));
}

abbrev away : Store
away = (remove_worker_from_type_members memory worker served).1

served-found : (has_online_agent_type memory search served).0 ≡ ok (true, worker ∷ [])
unfolding has_online_agent_type online_of is_worker_online decode_worker_presence key_eq text_eq
served-found = refl

has_online_agent_type_lem_example :
    ((v : Text)
      → includes text_eq (worker ∷ []) v
        ≡ (view served).members (agent_type_members search) v && is_online_in (view served) v)
    × (true ≡ is_filled (worker ∷ []))
    × (view (has_online_agent_type memory search served).1 ≡ view served)
has_online_agent_type_lem_example =
    has_online_agent_type_lem memory search served true (worker ∷ []) served-found

-- A server on which the type denies the worker.
abbrev denying : Store
denying = record (empty 1000) {
  sets =
      at_key (agent_type_denied search) (worker ∷ [])
        (at_key (worker_declared_agent_types worker) (search ∷ []) (λ k. []));
}

denying-IsShut : IsShut search worker (view denying)
unfolding key_eq text_eq
denying-IsShut = (refl, refl)

changes-IsShut_example :
    IsShut search worker
      (view (changes memory (registers worker (search ∷ []) ∷ restores worker ∷ []) denying))
changes-IsShut_example =
    changes-IsShut memory search worker (registers worker (search ∷ []) ∷ restores worker ∷ [])
      denying (tt, (tt, tt)) denying-IsShut

served-removes : (remove_worker_from_type_members memory worker served).0 ≡ ok tt
unfolding remove_worker_from_type_members leave_types key_eq text_eq
served-removes = refl

away-restores : (restore_worker_to_type_members memory worker away).0 ≡ ok tt
unfolding remove_worker_from_type_members leave_types restore_worker_to_type_members join_types
    join_type is_worker_denied_for_type key_eq text_eq
away-restores = refl

restore-remove_example :
    (view (restore_worker_to_type_members memory worker away).1).members
      (agent_type_members search)
      worker
    ≡ (if (view served).members (worker_declared_agent_types worker) search && text_eq worker worker
        then not ((view served).members (agent_type_denied search) worker)
        else (view served).members (agent_type_members search) worker)
restore-remove_example =
    restore-remove memory worker search worker served served-removes away-restores

away-declares :
    ((view away).members (worker_declared_agent_types worker) search ≡ true)
    × ((view away).members (agent_type_denied search) worker ≡ false)
    × (is_online_in (view away) worker ≡ true)
unfolding remove_worker_from_type_members leave_types key_eq text_eq without is_online_in
    decode_worker_presence
away-declares = (refl, refl, refl)

away-found :
    (has_online_agent_type memory search (restore_worker_to_type_members memory worker away).1).0
    ≡ ok (true, worker ∷ [])
unfolding remove_worker_from_type_members leave_types restore_worker_to_type_members join_types
    join_type is_worker_denied_for_type key_eq text_eq has_online_agent_type online_of
    is_worker_online decode_worker_presence without
away-found = refl

restore-online_example : (true ≡ true) × (includes text_eq (worker ∷ []) worker ≡ true)
restore-online_example =
    restore-online memory worker search away true (worker ∷ []) away-restores away-declares.0
      away-declares.1 away-declares.2 away-found
