-- ===== src/Registry/Members/Online.antt =====
-- Who is found online for an agent type.
use by_framework_ts.Common.{
  Text, text_eq, text_eq_iff, ◌≡◌, refl, subst, ◌⊎◌, inl, inr, Bool, ◌&&◌, ◌||◌, ltb, List, [], ◌∷◌,
  ok, err, arith, is_some, includes,
}
use by_framework_ts.Redis.Keys.{Key, agent_type_members, worker_online_lease}
use by_framework_ts.Redis.Data.{Data}
use by_framework_ts.Redis.Env.{Env, Ran}
use by_framework_ts.Redis.Async.{Reply-cases}
use by_framework_ts.Registry.Leases.{decode_worker_presence, is_worker_online}
use by_framework_ts.Registry.Leases.Ownership.{is_worker_online-view}
use by_framework_ts.Registry.Members.{is_filled, online_of, has_online_agent_type}

-- A worker has a lease, from an old writer or with a heartbeat after it was claimed.
unfoldable pub is_online_in : Data → Text → Bool
unfolding decode_worker_presence
is_online_in d worker_id =
    let raw = d.str (worker_online_lease worker_id) in
    let p = decode_worker_presence raw in is_some raw && (p.is_legacy || ltb 0 p.last_seen)

module _ (env : Env) where
  open env use {Store, view, get_lem, smembers, smembers_lem}

  pub is_worker_online_lem :
      (w : Text) (s : Store)
      → ((is_worker_online env w s).0 ≡ ok (is_online_in (view s) w))
        ⊎ ((is_worker_online env w s).0 ≡ err tt)
  unfolding is_worker_online is_online_in
  is_worker_online_lem w s = ground (arith, get_lem (worker_online_lease w) s)

  pub online_of-view : (ws : List Text) (s : Store) → view (online_of env ws s).1 ≡ view s
  unfolding online_of
  online_of-view [] s = refl
  online_of-view (w ∷ ws) s =
      let s1 = (is_worker_online env w s).1 in
      ground (
        arith,
        is_worker_online-view env w s,
        online_of-view ws s1,
        Reply-cases (is_worker_online env w s).0,
        Reply-cases (online_of env ws s1).0,
      )

  online_of_lem :
      (ws online : List Text) (v : Text) (s : Store)
      → (online_of env ws s).0 ≡ ok online
      → includes text_eq online v ≡ includes text_eq ws v && is_online_in (view s) v
  unfolding online_of
  online_of_lem [] online v s e = ground arith
  online_of_lem (w ∷ ws) online v s e =
      let s1 = (is_worker_online env w s).1 in
      elim (Reply-cases (online_of env ws s1).0) [
        | inl (rest, er) ↦ ground (
          arith,
          er,
          is_worker_online-view env w s,
          is_worker_online_lem w s,
          online_of_lem ws rest v s1 er,
          text_eq_iff w v,
        )
        | inr er ↦ ground (arith, er, is_worker_online_lem w s)
      ]

  -- Asking who is online changes nothing, also where it fails.
  pub has_online_agent_type-view :
      (agent_type : Text) (s : Store) → view (has_online_agent_type env agent_type s).1 ≡ view s
  unfolding has_online_agent_type
  has_online_agent_type-view agent_type s =
      let k = agent_type_members agent_type in
      let s1 = (smembers k s).1 in
      elim (Reply-cases (smembers k s).0) [
        | inl (ws, e) ↦
            ground (
              arith,
              e,
              smembers_lem k s,
              online_of-view ws s1,
              Reply-cases (online_of env ws s1).0,
            )
        | inr e ↦ ground (arith, e, smembers_lem k s)
      ]

  -- What a reply of SMEMBERS lists.
  pub smembers_of :
      (k : Key) (ws : List Text) (s : Store)
      → (smembers k s).0 ≡ ok ws
      → ((v : Text) → includes text_eq ws v ≡ (view s).members k v)
        × (view (smembers k s).1 ≡ view s)
  smembers_of k ws s e =
      subst
        (Ran (λ ms. (m : Text) → includes text_eq ms m ≡ (view s).members k m) (view s) (view s)
          (view (smembers k s).1))
        e (smembers_lem k s)

  -- What a lookup that succeeded was made of.
  has_online_agent_type-runs :
      (agent_type : Text) (s : Store) (found : Bool) (online : List Text)
      → (has_online_agent_type env agent_type s).0 ≡ ok (found, online)
      → (workers : List Text) × ((online_of env workers
            (smembers (agent_type_members agent_type) s).1).0
          ≡ ok online)
        × ((smembers (agent_type_members agent_type) s).0 ≡ ok workers)
        × (found ≡ is_filled online)
        × (view (has_online_agent_type env agent_type s).1 ≡ view s)
  unfolding has_online_agent_type
  has_online_agent_type-runs agent_type s found online e =
      let k = agent_type_members agent_type in
      let s1 = (smembers k s).1 in
      elim (Reply-cases (smembers k s).0) [
        | inl (ws, ew) ↦ elim (Reply-cases (online_of env ws s1).0) [
          | inl (xs, ex) ↦ (
            ws,
            ground (arith, ew, ex),
            ew,
            ground (arith, ew, ex),
            ground (arith, ew, ex, online_of-view ws s1, smembers_lem k s),
          )
          | inr ex ↦ absurd (ground (arith, ew, ex))
        ]
        | inr ew ↦ absurd (ground (arith, ew))
      ]

  -- The answer about an agent type lists those members of the type that are online and no one else, its
  -- first part says whether there are any, and asking changes nothing.
  pub has_online_agent_type_lem :
      (agent_type : Text) (s : Store) (found : Bool) (online : List Text)
      → (has_online_agent_type env agent_type s).0 ≡ ok (found, online)
      → ((v : Text)
          → includes text_eq online v
            ≡ (view s).members (agent_type_members agent_type) v && is_online_in (view s) v)
        × (found ≡ is_filled online)
        × (view (has_online_agent_type env agent_type s).1 ≡ view s)
  unfolding has_online_agent_type
  has_online_agent_type_lem agent_type s found online e =
      let k = agent_type_members agent_type in
      let s1 = (smembers k s).1 in
      let (ws, ran, ew, ef, ev) = has_online_agent_type-runs agent_type s found online e in
      (
        λ v. ground (
          arith,
          ew,
          (smembers_of k ws s ew).0 v,
          (smembers_of k ws s ew).1,
          online_of_lem ws online v s1 ran,
        ),
        ef,
        ev,
      )
