-- ===== src/Liveness/WaitGate/Claims.antt =====
-- The loop over the members that a reply could be clearing.
use by_framework_ts.Common.{
  ℕ, Text, text_eq, text_eq_iff, ◌≡◌, refl, ◌⊎◌, Bool, true, false, List, [], ◌∷◌, Option, none, ok,
  arith, includes, is_some, inl, codes,
}
use by_framework_ts.Redis.Keys.{Key, key_eq_iff}
use by_framework_ts.Redis.Values.{plain}
use by_framework_ts.Redis.Env.{Env}
use by_framework_ts.Liveness.WaitGate.{
  WaitGateDecision, claimed, unregistered, already_consumed, claim, consumed_marker_key,
  mark_consumed, wait_index_key, wait_consumed_ttl_seconds,
}

module _ (env : Env) where
  open env use {Store, view, zrem, zrem_lem, exists, exists_lem, set, set_lem}

  -- The entry of a member of a session, and whether its marker is there.
  abbrev pub entry_of : Text → Text → Store → Option ℕ
  entry_of session_id member s = (view s).zset (wait_index_key session_id) member

  abbrev pub is_marked : Text → Text → Store → Bool
  is_marked session_id member s = is_some ((view s).str (consumed_marker_key env session_id member))

  pub claim-denies :
      (sid : Text) (ms : List Text) (s : Store) (d : WaitGateDecision)
      → (claim env sid ms s).0 ≡ ok d
      → d.allow ≡ false
      → (d.reason ≡ already_consumed)
        × (includes text_eq ms d.member ≡ true)
        × (entry_of sid d.member (claim env sid ms s).1 ≡ none)
        × (is_marked sid d.member (claim env sid ms s).1 ≡ true)
  unfolding claim mark_consumed
  claim-denies sid [] s d e h = ground arith
  claim-denies sid (m ∷ ms) s d e h =
      let s1 = (zrem (wait_index_key sid) m s).1 in
      let s2 = (exists (consumed_marker_key env sid m) s1).1 in
      ground (
        arith,
        zrem_lem (wait_index_key sid) m s,
        exists_lem (consumed_marker_key env sid m) s1,
        claim-denies sid ms s2 d,
        text_eq_iff m m,
        key_eq_iff (wait_index_key sid) (wait_index_key sid),
      )

  pub claim-claims :
      (sid : Text) (ms : List Text) (s : Store) (d : WaitGateDecision)
      → (claim env sid ms s).0 ≡ ok d
      → d.reason ≡ claimed
      → (d.allow ≡ true)
        × (includes text_eq ms d.member ≡ true)
        × (is_some (entry_of sid d.member s) ≡ true)
        × (entry_of sid d.member (claim env sid ms s).1 ≡ none)
  unfolding claim mark_consumed
  claim-claims sid [] s d e h = ground arith
  claim-claims sid (m ∷ ms) s d e h =
      let k = wait_index_key sid in
      let marker = consumed_marker_key env sid m in
      let s1 = (zrem k m s).1 in
      let s2 = (exists marker s1).1 in
      ground (
        arith,
        zrem_lem k m s,
        exists_lem marker s1,
        set_lem marker (plain (codes "1")) wait_consumed_ttl_seconds s1,
        claim-claims sid ms s2 d,
        text_eq_iff m m,
        key_eq_iff k k,
        text_eq_iff m d.member,
      )

  pub claim-unregistered_allow :
      (sid : Text) (ms : List Text) (s : Store) (d : WaitGateDecision)
      → (claim env sid ms s).0 ≡ ok d
      → d.reason ≡ unregistered
      → d.allow ≡ true
  unfolding claim mark_consumed
  claim-unregistered_allow sid [] s d e h = ground arith
  claim-unregistered_allow sid (m ∷ ms) s d e h =
      let s1 = (zrem (wait_index_key sid) m s).1 in
      ground
        (arith, claim-unregistered_allow sid ms (exists (consumed_marker_key env sid m) s1).1 d)

  pub claim-unregistered :
      (sid : Text) (ms : List Text) (s : Store) (d : WaitGateDecision) (x : Text)
      → (claim env sid ms s).0 ≡ ok d
      → d.reason ≡ unregistered
      → includes text_eq ms x ≡ true
      → (entry_of sid x s ≡ none) × (is_marked sid x s ≡ false)
  unfolding claim mark_consumed
  claim-unregistered sid [] s d x e h c = cc
  claim-unregistered sid (m ∷ ms) s d x e h c =
      let k = wait_index_key sid in
      let marker = consumed_marker_key env sid m in
      let s1 = (zrem k m s).1 in
      let s2 = (exists marker s1).1 in
      ground (
        arith,
        zrem_lem k m s,
        exists_lem marker s1,
        claim-unregistered sid ms s2 d x,
        text_eq_iff m x,
        key_eq_iff k k,
      )

  -- No command of the gate adds an entry: one that another wait holds stays as it is, or is gone.
  pub claim-frame :
      (sid : Text) (ms : List Text) (s : Store) (k : Key) (m : Text)
      → ((view (claim env sid ms s).1).zset k m ≡ (view s).zset k m)
        ⊎ ((view (claim env sid ms s).1).zset k m ≡ none)
  unfolding claim mark_consumed
  claim-frame sid [] s j x = inl refl
  claim-frame sid (m ∷ ms) s j x =
      let k = wait_index_key sid in
      let marker = consumed_marker_key env sid m in
      let s1 = (zrem k m s).1 in
      let s2 = (exists marker s1).1 in
      ground (
        arith,
        zrem_lem k m s,
        exists_lem marker s1,
        set_lem marker (plain (codes "1")) wait_consumed_ttl_seconds s1,
        claim-frame sid ms s2 j x,
      )

  -- Its own entry gone and its own marker set, a further copy of a reply is refused at its first
  -- candidate, and no command after that one is issued.
  pub claim-resolved :
      (sid m : Text) (ms : List Text) (s : Store) (d : WaitGateDecision)
      → entry_of sid m s ≡ none
      → is_marked sid m s ≡ true
      → (claim env sid (m ∷ ms) s).0 ≡ ok d
      → (d.allow ≡ false) × (d.reason ≡ already_consumed) × (d.member ≡ m)
  unfolding claim mark_consumed
  claim-resolved sid m ms s d gone marked e =
      let k = wait_index_key sid in
      let s1 = (zrem k m s).1 in
      ground (
        arith,
        zrem_lem k m s,
        exists_lem (consumed_marker_key env sid m) s1,
        text_eq_iff m m,
        key_eq_iff k k,
      )

  pub claim-resolved_frame :
      (sid m : Text) (ms : List Text) (s : Store) (j : Key) (x : Text)
      → entry_of sid m s ≡ none
      → is_marked sid m s ≡ true
      → (view (claim env sid (m ∷ ms) s).1).zset j x ≡ (view s).zset j x
  unfolding claim mark_consumed
  claim-resolved_frame sid m ms s j x gone marked =
      let k = wait_index_key sid in
      let s1 = (zrem k m s).1 in
      ground (
        arith,
        zrem_lem k m s,
        exists_lem (consumed_marker_key env sid m) s1,
        text_eq_iff m x,
        key_eq_iff k j,
      )
