-- ===== src/Registry/Members/Denial.antt =====
-- The denylist of an agent type over every sequence of changes to who serves what.
use by_framework_ts.Common.{
  Text, text_eq_iff, ◌≡◌, ◌≢◌, ◌⊎◌, inl, inr, true, false, List, [], ◌∷◌, arith, All,
}
use by_framework_ts.Redis.Keys.{
  Key, key_eq_iff, agent_type_members, agent_type_denied, known_workers,
  worker_declared_agent_types,
}
use by_framework_ts.Redis.Data.{Data}
use by_framework_ts.Redis.Env.{Env}
use by_framework_ts.Redis.Async.{Async, Reply-cases}
use by_framework_ts.Registry.Members.{
  is_worker_denied_for_type, join_type, join_types, leave_types, declare_types,
  register_worker_membership, unregister_worker_membership, remove_worker_from_type_members,
  restore_worker_to_type_members, deny_worker_for_type, allow_worker_for_type,
}

-- The changes of the membership.
pub data Change : Type 0 where
  registers : (worker_id : Text) (types : List Text) → Change
  unregisters : (worker_id : Text) → Change
  removes : (worker_id : Text) → Change
  restores : (worker_id : Text) → Change
  denies : (agent_type worker_id : Text) → Change
  allows : (agent_type worker_id : Text) → Change

-- The worker is on the denylist of the type, and is not among its members.
abbrev pub IsShut : Text → Text → Data → Type 0
IsShut a w d =
    (d.members (agent_type_denied a) w ≡ true) × (d.members (agent_type_members a) w ≡ false)

-- The change does not take the worker off the denylist of the type.
abbrev pub Keeps : Text → Text → Change → Type 0
Keeps a w (allows b v) = (a ≢ b) ⊎ (w ≢ v)
Keeps a w _ = Unit

module _ (env : Env) where
  open env use {
    Store, view, sadd, sadd_lem, srem, srem_lem, sismember, sismember_lem, smembers, smembers_lem,
    del_set, del_set_lem,
  }

  pub change : Change → Async Store (Unit {0})
  change (registers w types) = register_worker_membership env w types
  change (unregisters w) = unregister_worker_membership env w
  change (removes w) = remove_worker_from_type_members env w
  change (restores w) = restore_worker_to_type_members env w
  change (denies a w) = deny_worker_for_type env a w
  change (allows a w) = allow_worker_for_type env a w

  -- The changes one after another, whatever each of them replies.
  pub changes : List Change → Store → Store
  changes [] s = s
  changes (c ∷ cs) s = changes cs (change c s).1

  module _ (a w : Text) where
    sadd-IsShut :
        (k : Key) (m : Text) (s : Store)
        → (k ≢ agent_type_members a) ⊎ (w ≢ m)
        → IsShut a w (view s)
        → IsShut a w (view (sadd k m s).1)
    sadd-IsShut k m s h shut = ground (
      arith,
      sadd_lem k m s,
      key_eq_iff k (agent_type_members a),
      key_eq_iff k (agent_type_denied a),
      text_eq_iff m w,
    )

    srem-IsShut :
        (k : Key) (m : Text) (s : Store)
        → (k ≢ agent_type_denied a) ⊎ (w ≢ m)
        → IsShut a w (view s)
        → IsShut a w (view (srem k m s).1)
    srem-IsShut k m s h shut = ground (
      arith,
      srem_lem k m s,
      key_eq_iff k (agent_type_members a),
      key_eq_iff k (agent_type_denied a),
      text_eq_iff m w,
    )

    smembers-IsShut :
        (k : Key) (s : Store) → IsShut a w (view s) → IsShut a w (view (smembers k s).1)
    smembers-IsShut k s shut = ground (arith, smembers_lem k s)

    del_set-IsShut :
        (v : Text) (s : Store)
        → IsShut a w (view s)
        → IsShut a w (view (del_set (worker_declared_agent_types v) s).1)
    del_set-IsShut v s shut =
        let k = worker_declared_agent_types v in
        ground (
          arith,
          del_set_lem k s,
          key_eq_iff k (agent_type_members a),
          key_eq_iff k (agent_type_denied a),
        )

    join_type-IsShut :
        (v b : Text) (s : Store) → IsShut a w (view s) → IsShut a w (view (join_type env v b s).1)
    unfolding join_type is_worker_denied_for_type
    join_type-IsShut v b s shut =
        let s1 = (sismember (agent_type_denied b) v s).1 in
        let asked = sismember_lem (agent_type_denied b) v s in
        ground (
          arith,
          asked,
          text_eq_iff a b,
          text_eq_iff w v,
          sadd_lem (agent_type_members b) v s1,
          key_eq_iff (agent_type_members b) (agent_type_members a),
          key_eq_iff (agent_type_members b) (agent_type_denied a),
          text_eq_iff v w,
        )

    join_types-IsShut :
        (v : Text) (types : List Text) (s : Store)
        → IsShut a w (view s)
        → IsShut a w (view (join_types env v types s).1)
    unfolding join_types
    join_types-IsShut v [] s shut = shut
    join_types-IsShut v (b ∷ types) s shut =
        let s1 = (join_type env v b s).1 in
        let first = join_type-IsShut v b s shut in
        ground
          (arith, first, join_types-IsShut v types s1 first, Reply-cases (join_type env v b s).0)

    leave_types-IsShut :
        (v : Text) (types : List Text) (s : Store)
        → IsShut a w (view s)
        → IsShut a w (view (leave_types env v types s).1)
    unfolding leave_types
    leave_types-IsShut v [] s shut = shut
    leave_types-IsShut v (b ∷ types) s shut =
        let k = agent_type_members b in
        let first = srem-IsShut k v s (inl (ground arith)) shut in
        ground (
          arith,
          first,
          leave_types-IsShut v types (srem k v s).1 first,
          Reply-cases (srem k v s).0,
        )

    declare_types-IsShut :
        (v : Text) (types : List Text) (s : Store)
        → IsShut a w (view s)
        → IsShut a w (view (declare_types env v types s).1)
    unfolding declare_types
    declare_types-IsShut v [] s shut = shut
    declare_types-IsShut v (b ∷ types) s shut =
        let k = worker_declared_agent_types v in
        let s1 = (sadd k b s).1 in
        let first = sadd-IsShut k b s (inl (ground arith)) shut in
        let second = join_type-IsShut v b s1 first in
        ground (
          arith,
          first,
          second,
          declare_types-IsShut v types (join_type env v b s1).1 second,
          Reply-cases (sadd k b s).0,
          Reply-cases (join_type env v b s1).0,
        )

    -- Whatever one change does, and wherever Redis fails, a worker that the type denies stays out.
    change-IsShut :
        (c : Change) (s : Store)
        → Keeps a w c
        → IsShut a w (view s)
        → IsShut a w (view (change c s).1)
    unfolding change register_worker_membership unregister_worker_membership
        remove_worker_from_type_members restore_worker_to_type_members deny_worker_for_type
        allow_worker_for_type
    change-IsShut (registers v types) s keeps shut =
        let first = sadd-IsShut known_workers v s (inl (ground arith)) shut in
        ground (
          arith,
          first,
          declare_types-IsShut v types (sadd known_workers v s).1 first,
          Reply-cases (sadd known_workers v s).0,
        )
    change-IsShut (unregisters v) s keeps shut =
        let k = worker_declared_agent_types v in
        let s1 = (smembers k s).1 in
        let s2 = (del_set k s1).1 in
        let s3 = (srem known_workers v s2).1 in
        let first = smembers-IsShut k s shut in
        let second = del_set-IsShut v s1 first in
        let third = srem-IsShut known_workers v s2 (inl (ground arith)) second in
        elim (Reply-cases (smembers k s).0) [
          | inl (types, e) ↦ ground (
            arith,
            e,
            second,
            third,
            leave_types-IsShut v types s3 third,
            Reply-cases (del_set k s1).0,
            Reply-cases (srem known_workers v s2).0,
          )
          | inr e ↦ ground (arith, e, first)
        ]
    change-IsShut (removes v) s keeps shut =
        let k = worker_declared_agent_types v in
        let s1 = (smembers k s).1 in
        let first = smembers-IsShut k s shut in
        elim (Reply-cases (smembers k s).0) [
          | inl (types, e) ↦ ground (arith, e, leave_types-IsShut v types s1 first)
          | inr e ↦ ground (arith, e, first)
        ]
    change-IsShut (restores v) s keeps shut =
        let k = worker_declared_agent_types v in
        let s1 = (smembers k s).1 in
        let first = smembers-IsShut k s shut in
        elim (Reply-cases (smembers k s).0) [
          | inl (types, e) ↦ ground (arith, e, join_types-IsShut v types s1 first)
          | inr e ↦ ground (arith, e, first)
        ]
    change-IsShut (denies b v) s keeps shut =
        let k = agent_type_denied b in
        let s1 = (sadd k v s).1 in
        let first = sadd-IsShut k v s (inl (ground arith)) shut in
        ground (
          arith,
          first,
          srem-IsShut (agent_type_members b) v s1 (inl (ground arith)) first,
          Reply-cases (sadd k v s).0,
          Reply-cases (srem (agent_type_members b) v s1).0,
        )
    change-IsShut (allows b v) s (inl ne) shut =
        srem-IsShut (agent_type_denied b) v s (inl (ground (arith, ne))) shut
    change-IsShut (allows b v) s (inr ne) shut = srem-IsShut (agent_type_denied b) v s (inr ne) shut

    -- A worker that is on the denylist of a type, and no member of it, is never a member again through any sequence of
    -- registrations, removals, restorations and denials, wherever Redis fails, as long as the type
    -- does not allow the worker.
    pub changes-IsShut :
        (cs : List Change) (s : Store)
        → All (Keeps a w) cs
        → IsShut a w (view s)
        → IsShut a w (view (changes cs s))
    unfolding changes
    changes-IsShut [] s keeps shut = shut
    changes-IsShut (c ∷ cs) s keeps shut =
        changes-IsShut cs (change c s).1 keeps.1 (change-IsShut c s keeps.0 shut)
