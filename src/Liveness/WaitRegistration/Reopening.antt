-- ===== src/Liveness/WaitRegistration/Reopening.antt =====
-- Registering a wait again voids the verdict on the one before it.
use by_framework_ts.Common.{
  ◌+◌, Text, text_eq, text_eq_iff, ◌≡◌, ◌⊎◌, true, false, some, ok, err, arith,
}
use by_framework_ts.Redis.Keys.{Key, key_eq, key_eq_iff}
use by_framework_ts.Redis.Env.{Env}
use by_framework_ts.Liveness.WaitGate.{wait_index_key, consumed_marker_key}
use by_framework_ts.Liveness.WaitGate.Claims.{entry_of, is_marked}
use by_framework_ts.Liveness.WaitRegistration.{RegisterWaitParams, registered_member, register_wait}

module _ (env : Env) where
  open env use {Store, view, now, zadd, zadd_lem, del, del_lem}

  -- Registration never throws. Unless it is lost, where Redis threw, the entry holds the deadline, the
  -- caller's timeout after the clock's reading; the consumed marker is then cleared, or stays as
  -- it was where its deletion failed.
  pub register_wait_lem :
      (p : RegisterWaitParams) (s : Store)
      → ((register_wait env p s).0 ≡ ok tt)
        × ((entry_of env p.session_id (registered_member p) (register_wait env p s).1
              ≡ some (now s + p.timeout_ms))
            ⊎ ((view (register_wait env p s).1 ≡ view s)
                × ((zadd
                      (wait_index_key p.session_id)
                      (now s + p.timeout_ms)
                      (registered_member p)
                      s).0
                    ≡ err tt)))
        × ((is_marked env p.session_id (registered_member p) (register_wait env p s).1 ≡ false)
            ⊎ (is_marked env p.session_id (registered_member p) (register_wait env p s).1
                ≡ is_marked env p.session_id (registered_member p) s))
  unfolding register_wait registered_member
  register_wait_lem p s =
      let k = wait_index_key p.session_id in
      let m = registered_member p in
      let marker = consumed_marker_key env p.session_id m in
      let s1 = (zadd k (now s + p.timeout_ms) m s).1 in
      ground (
        arith,
        zadd_lem k (now s + p.timeout_ms) m s,
        del_lem marker s1,
        key_eq_iff k k,
        key_eq_iff marker marker,
        text_eq_iff m m,
      )

  -- No other entry is touched.
  pub register_wait-frame :
      (p : RegisterWaitParams) (s : Store) (k : Key) (m : Text)
      → ((view (register_wait env p s).1).zset k m ≡ (view s).zset k m)
        ⊎ ((key_eq (wait_index_key p.session_id) k ≡ true)
            × (text_eq (registered_member p) m ≡ true))
  unfolding register_wait registered_member
  register_wait-frame p s k m =
      let j = wait_index_key p.session_id in
      let x = registered_member p in
      let s1 = (zadd j (now s + p.timeout_ms) x s).1 in
      ground (
        arith,
        zadd_lem j (now s + p.timeout_ms) x s,
        del_lem (consumed_marker_key env p.session_id x) s1,
      )

  -- No stream and no hash is touched.
  pub register_wait-stream :
      (p : RegisterWaitParams) (s : Store)
      → ((view (register_wait env p s).1).stream ≡ (view s).stream)
        × ((view (register_wait env p s).1).hash ≡ (view s).hash)
  unfolding register_wait registered_member
  register_wait-stream p s =
      let j = wait_index_key p.session_id in
      let x = registered_member p in
      let s1 = (zadd j (now s + p.timeout_ms) x s).1 in
      ground (
        arith,
        zadd_lem j (now s + p.timeout_ms) x s,
        del_lem (consumed_marker_key env p.session_id x) s1,
      )
