-- ===== src/Registry/Members/Restoring.antt =====
-- A worker that is taken out of its types, and brought back.
use by_framework_ts.Common.{
  Text, text_eq, text_eq_iff, ◌≡◌, refl, inl, inr, Bool, true, false, not, ◌&&◌, ◌||◌, List, [],
  ◌∷◌, ok, arith, includes, if◌then◌else◌,
}
use by_framework_ts.Redis.Keys.{
  key_eq_iff, agent_type_members, agent_type_denied, worker_declared_agent_types,
}
use by_framework_ts.Redis.Env.{Env}
use by_framework_ts.Redis.Async.{Reply-cases}
use by_framework_ts.Registry.Members.{
  is_worker_denied_for_type, join_type, join_types, leave_types, remove_worker_from_type_members,
  restore_worker_to_type_members, has_online_agent_type, is_filled,
}
use by_framework_ts.Registry.Members.Online.{is_online_in, smembers_of, has_online_agent_type_lem}

includes-filled : (xs : List Text) (v : Text) → includes text_eq xs v ≡ true → is_filled xs ≡ true
includes-filled [] v e = absurd (ground (arith, e))
includes-filled (x ∷ xs) v e = refl

module _ (env : Env) where
  open env use {
    Store, view, sadd, sadd_lem, srem, srem_lem, sismember, sismember_lem, smembers, smembers_lem,
  }

  -- What does not change: leases, declared types and denylists.
  abbrev Same : Text → Text → Text → Store → Store → Type 0
  Same v a w s t =
      ((view t).str ≡ (view s).str)
      × ((view t).members (worker_declared_agent_types v) a
          ≡ (view s).members (worker_declared_agent_types v) a)
      × ((view t).members (agent_type_denied a) w ≡ (view s).members (agent_type_denied a) w)

  module _ (v a w : Text) where
    join_type_lem :
        (b : Text) (s : Store)
        → (join_type env v b s).0 ≡ ok tt
        → Same v a w s (join_type env v b s).1
          × ((view (join_type env v b s).1).members (agent_type_members a) w
              ≡ (view s).members (agent_type_members a) w
                || text_eq b a && text_eq v w && not ((view s).members (agent_type_denied a) w))
    unfolding join_type is_worker_denied_for_type
    join_type_lem b s e =
        let s1 = (sismember (agent_type_denied b) v s).1 in
        ground (
          arith,
          sismember_lem (agent_type_denied b) v s,
          text_eq_iff b a,
          text_eq_iff v w,
          sadd_lem (agent_type_members b) v s1,
          key_eq_iff (agent_type_members b) (agent_type_members a),
          key_eq_iff (agent_type_members b) (agent_type_denied a),
          key_eq_iff (agent_type_members b) (worker_declared_agent_types v),
        )

    join_types_lem :
        (types : List Text) (s : Store)
        → (join_types env v types s).0 ≡ ok tt
        → Same v a w s (join_types env v types s).1
          × ((view (join_types env v types s).1).members (agent_type_members a) w
              ≡ (view s).members (agent_type_members a) w
                || includes text_eq types a
                  && text_eq v w
                  && not ((view s).members (agent_type_denied a) w))
    unfolding join_types
    join_types_lem [] s e = ground arith
    join_types_lem (b ∷ types) s e =
        let s1 = (join_type env v b s).1 in
        elim (Reply-cases (join_type env v b s).0) [
          | inl (x, ex) ↦ ground (arith, ex, join_type_lem b s ex, join_types_lem types s1)
          | inr ex ↦ absurd (ground (arith, ex))
        ]

    leave_types_lem :
        (types : List Text) (s : Store)
        → (leave_types env v types s).0 ≡ ok tt
        → Same v a w s (leave_types env v types s).1
          × ((view (leave_types env v types s).1).members (agent_type_members a) w
              ≡ (view s).members (agent_type_members a) w
                && not (includes text_eq types a && text_eq v w))
    unfolding leave_types
    leave_types_lem [] s e = ground arith
    leave_types_lem (b ∷ types) s e =
        let k = agent_type_members b in
        let s1 = (srem k v s).1 in
        ground (
          arith,
          srem_lem k v s,
          text_eq_iff b a,
          key_eq_iff k (agent_type_members a),
          key_eq_iff k (agent_type_denied a),
          key_eq_iff k (worker_declared_agent_types v),
          leave_types_lem types s1,
        )

    -- After a worker was taken out of its types, the members of a type are the members that it had, without that
    -- worker where it declares the type.
    pub remove_worker_from_type_members_lem :
        (s : Store)
        → (remove_worker_from_type_members env v s).0 ≡ ok tt
        → Same v a w s (remove_worker_from_type_members env v s).1
          × ((view (remove_worker_from_type_members env v s).1).members (agent_type_members a) w
              ≡ (view s).members (agent_type_members a) w
                && not ((view s).members (worker_declared_agent_types v) a && text_eq v w))
    unfolding remove_worker_from_type_members
    remove_worker_from_type_members_lem s e =
        let k = worker_declared_agent_types v in
        let s1 = (smembers k s).1 in
        elim (Reply-cases (smembers k s).0) [
          | inl (types, et) ↦
              let listed = smembers_of env k types s et in
              ground (arith, et, listed.0 a, listed.1, leave_types_lem types s1)
          | inr et ↦ absurd (ground (arith, et))
        ]

    restore_worker_to_type_members_lem :
        (s : Store)
        → (restore_worker_to_type_members env v s).0 ≡ ok tt
        → Same v a w s (restore_worker_to_type_members env v s).1
          × ((view (restore_worker_to_type_members env v s).1).members (agent_type_members a) w
              ≡ (view s).members (agent_type_members a) w
                || (view s).members (worker_declared_agent_types v) a
                  && text_eq v w
                  && not ((view s).members (agent_type_denied a) w))
    unfolding restore_worker_to_type_members
    restore_worker_to_type_members_lem s e =
        let k = worker_declared_agent_types v in
        let s1 = (smembers k s).1 in
        elim (Reply-cases (smembers k s).0) [
          | inl (types, et) ↦
              let listed = smembers_of env k types s et in
              ground (arith, et, listed.0 a, listed.1, join_types_lem types s1)
          | inr et ↦ absurd (ground (arith, et))
        ]

  -- Taking a worker out of its types and bringing it back, if both succeed, leaves each type with the members that it
  -- had, but that the worker is a member of a type that it declares exactly when the type does not deny it.
  pub restore-remove :
      (v a w : Text) (s : Store)
      → (remove_worker_from_type_members env v s).0 ≡ ok tt
      → (restore_worker_to_type_members env v (remove_worker_from_type_members env v s).1).0 ≡ ok tt
      → (view
            (restore_worker_to_type_members env v
              (remove_worker_from_type_members env v s).1).1).members
          (agent_type_members a)
          w
        ≡ (if (view s).members (worker_declared_agent_types v) a && text_eq v w
            then not ((view s).members (agent_type_denied a) w)
            else (view s).members (agent_type_members a) w)
  restore-remove v a w s e f = ground (
    arith,
    remove_worker_from_type_members_lem v a w s e,
    restore_worker_to_type_members_lem v a w (remove_worker_from_type_members env v s).1 f,
  )

  -- A worker that is brought back and has a lease is found online for each type that it declares and that does
  -- not deny it.
  pub restore-online :
      (v a : Text) (s : Store) (found : Bool) (online : List Text)
      → (restore_worker_to_type_members env v s).0 ≡ ok tt
      → (view s).members (worker_declared_agent_types v) a ≡ true
      → (view s).members (agent_type_denied a) v ≡ false
      → is_online_in (view s) v ≡ true
      → (has_online_agent_type env a (restore_worker_to_type_members env v s).1).0
        ≡ ok (found, online)
      → (found ≡ true) × (includes text_eq online v ≡ true)
  unfolding is_online_in
  restore-online v a s found online e declared denied lease asked =
      let s1 = (restore_worker_to_type_members env v s).1 in
      let answer = has_online_agent_type_lem env a s1 found online asked in
      let restored = restore_worker_to_type_members_lem v a v s e in
      let listed : includes text_eq online v ≡ true =
        ground (arith, answer.0 v, restored, text_eq_iff v v) in
      (ground (arith, answer.1, includes-filled online v listed), listed)
