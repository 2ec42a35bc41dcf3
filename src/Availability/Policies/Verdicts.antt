-- ===== src/Availability/Policies/Verdicts.antt =====
-- What each verdict of the router promises, branch by branch of `prepareDelivery`.
use by_framework_ts.Common.{
  Text, text_eq, text_eq_iff, is_empty, true, false, Option, none, some, ok, ◌≡◌, refl, subst, ◌⊎◌,
  inl, inr, arith, includes, Bool-cases,
}
use by_framework_ts.Redis.Keys.{
  Key, control_plane_agent_circuit, control_plane_user_quota, control_plane_agent_fallback,
}
use by_framework_ts.Redis.Data.{Data}
use by_framework_ts.Redis.Env.{Env}
use by_framework_ts.Redis.Async.{Reply-cases}
use by_framework_ts.Registry.Members.{has_online_agent_type}
use by_framework_ts.Registry.Members.Online.{has_online_agent_type_lem}
use by_framework_ts.Availability.{
  DeliveryIntent, AvailabilityResult, reject, send_anyway, route_policies, deliver, rejection,
  unsupported, read_json, redirection, offline_delivery, find_fallback, route_delivery,
  admitted_delivery, charged_delivery, circuit_rejection, quota_rejection, circuit_refusal,
  quota_refusal, prepare_delivery, is_open, is_exceeded, selected_of,
}
use by_framework_ts.Availability.Policies.{
  IsServed, Promise, has_online_agent_type-IsServed, offline_delivery_lem, read_json-view,
}

module _ (env : Env) (spell : Key → Text) where
  open env use {Store, view, get, get_lem, xadd, xadd_lem}

  find_fallback_lem :
      (a : Text) (s : Store) (found : Option Text)
      → (find_fallback env spell a s).0 ≡ ok found
      → (view (find_fallback env spell a s).1 ≡ view s)
        × ((found ≡ none) ⊎ ((b : Text) × (found ≡ some b) × IsServed b (view s)))
  unfolding find_fallback
  find_fallback_lem a s found e =
      let k = control_plane_agent_fallback a in
      let s1 = (read_json env spell k s).1 in
      elim (Reply-cases (read_json env spell k s).0) [
        | inl (o, eo) ↦
            let b = selected_of o in
            elim (Bool-cases (is_empty b)) [
              | inl eb ↦ (
                ground (arith, eo, eb, read_json-view env spell k s),
                inl (ground (arith, eo, eb)),
              )
              | inr eb ↦ elim (Reply-cases (has_online_agent_type env b s1).0) [
                | inl ((true, ws), ef) ↦ (
                  ground (
                    arith,
                    eo,
                    eb,
                    ef,
                    has_online_agent_type_lem env b s1 true ws ef,
                    read_json-view env spell k s,
                  ),
                  inr (
                    b,
                    ground (arith, eo, eb, ef),
                    subst (IsServed b) (read_json-view env spell k s)
                        (has_online_agent_type-IsServed env spell b s1 ws ef),
                  ),
                )
                | inl ((false, ws), ef) ↦ (
                  ground (
                    arith,
                    eo,
                    eb,
                    ef,
                    has_online_agent_type_lem env b s1 false ws ef,
                    read_json-view env spell k s,
                  ),
                  inl (ground (arith, eo, eb, ef)),
                )
                | inr ef ↦ absurd (ground (arith, eo, eb, ef))
              ]
            ]
        | inr eo ↦ absurd (ground (arith, eo))
      ]

  -- A refusal before the route is looked for is a rejection, and nothing was written.
  circuit_refusal_lem :
      (i : DeliveryIntent) (s : Store) (x : Option AvailabilityResult)
      → (circuit_refusal env spell i s).0 ≡ ok x
      → (view (circuit_refusal env spell i s).1 ≡ view s)
        × ((x ≡ none) ⊎ ((r : AvailabilityResult) × (x ≡ some r) × (r.status ≡ reject)))
  unfolding circuit_refusal circuit_rejection rejection
  circuit_refusal_lem i s x e =
      let k = control_plane_agent_circuit i.target_agent_type in
      elim (Reply-cases (read_json env spell k s).0) [
        | inl (o, eo) ↦ elim (Bool-cases (is_open o)) [
          | inl b ↦ (
            ground (arith, eo, read_json-view env spell k s),
            inr (circuit_rejection o, ground (arith, eo, b, e), refl),
          )
          | inr b ↦ ground (arith, eo, b, read_json-view env spell k s)
        ]
        | inr eo ↦ absurd (ground (arith, eo))
      ]

  quota_refusal_lem :
      (i : DeliveryIntent) (s : Store) (x : Option AvailabilityResult)
      → (quota_refusal env spell i s).0 ≡ ok x
      → (view (quota_refusal env spell i s).1 ≡ view s)
        × ((x ≡ none) ⊎ ((r : AvailabilityResult) × (x ≡ some r) × (r.status ≡ reject)))
  unfolding quota_refusal quota_rejection rejection
  quota_refusal_lem i s x e =
      let k = control_plane_user_quota i.user_code in
      elim (Bool-cases (is_empty i.user_code)) [
        | inl c ↦ ground (arith, c)
        | inr c ↦ elim (Reply-cases (read_json env spell k s).0) [
          | inl (o, eo) ↦ elim (Bool-cases (is_exceeded o)) [
            | inl b ↦ (
              ground (arith, c, eo, read_json-view env spell k s),
              inr (quota_rejection o, ground (arith, c, eo, b, e), refl),
            )
            | inr b ↦ ground (arith, c, eo, b, read_json-view env spell k s)
          ]
          | inr eo ↦ absurd (ground (arith, c, eo))
        ]
      ]

  route_delivery_lem :
      (i : DeliveryIntent) (s : Store) (r : AvailabilityResult)
      → (route_delivery env spell i s).0 ≡ ok (some r)
      → Promise spell i (view s) (view (route_delivery env spell i s).1) r r.status
  unfolding route_delivery redirection deliver
  route_delivery_lem i s r e =
      let a = i.target_agent_type in
      let s1 = (has_online_agent_type env a s).1 in
      let s2 = (find_fallback env spell a s1).1 in
      elim (Reply-cases (has_online_agent_type env a s).0) [
        | inl ((true, ws), ef) ↦
            let x : r ≡ deliver a = ground (arith, ef) in
            let v : view (route_delivery env spell i s).1 ≡ view s =
              ground (arith, ef, has_online_agent_type_lem env a s true ws ef) in
            rw (x, v) (refl, refl, inr (has_online_agent_type-IsServed env spell a s ws ef))
        | inl ((false, ws), ef) ↦ elim (Reply-cases (find_fallback env spell a s1).0) [
          | inl (found, eb) ↦
              let same : view s1 ≡ view s =
                ground (arith, has_online_agent_type_lem env a s false ws ef) in
              let (kept, named) = find_fallback_lem a s1 found eb in
              elim named [
                | inl n ↦
                    let go : route_delivery env spell i s ≡ offline_delivery env spell i s2 =
                      ground (arith, ef, eb, n) in
                    let q : view s2 ≡ view s = ground (arith, same, kept) in
                    rw (go, ← q) (offline_delivery_lem env spell i s2 r (rw (← go) e))
                | inr (b, n, served) ↦
                    let x : r ≡ redirection b = ground (arith, ef, eb, n) in
                    let v : view (route_delivery env spell i s).1 ≡ view s =
                      ground (arith, ef, eb, n, same, kept) in
                    rw (x, v) (refl, refl, subst (IsServed b) same served)
              ]
          | inr eb ↦ absurd (ground (arith, ef, eb))
        ]
        | inr ef ↦ absurd (ground (arith, ef))
      ]

  admitted_delivery_lem :
      (i : DeliveryIntent) (s : Store) (r : AvailabilityResult)
      → (admitted_delivery env spell i s).0 ≡ ok (some r)
      → Promise spell i (view s) (view (admitted_delivery env spell i s).1) r r.status
  unfolding admitted_delivery deliver
  admitted_delivery_lem i s r e = elim (Bool-cases (text_eq i.policy send_anyway)) [
    | inl b ↦
        let x : r ≡ deliver i.target_agent_type = ground (arith, b) in
        let v : view (admitted_delivery env spell i s).1 ≡ view s = ground (arith, b) in
        rw (x, v) (refl, refl, inl (ground (arith, b, text_eq_iff i.policy send_anyway)))
    | inr b ↦
        let go : admitted_delivery env spell i s ≡ route_delivery env spell i s =
          ground (arith, b) in
        rw go (route_delivery_lem i s r (rw (← go) e))
  ]

  refused :
      (i : DeliveryIntent) (d e : Data) (r : AvailabilityResult)
      → r.status ≡ reject
      → e ≡ d
      → Promise spell i d e r r.status
  refused i d e r p v = rw p (inl v)

  charged_delivery_lem :
      (i : DeliveryIntent) (s : Store) (r : AvailabilityResult)
      → (charged_delivery env spell i s).0 ≡ ok (some r)
      → Promise spell i (view s) (view (charged_delivery env spell i s).1) r r.status
  unfolding charged_delivery
  charged_delivery_lem i s r e =
      let s1 = (quota_refusal env spell i s).1 in
      elim (Reply-cases (quota_refusal env spell i s).0) [
        | inl (x, ex) ↦
            let (v, asked) = quota_refusal_lem i s x ex in
            elim asked [
              | inl n ↦
                  let go : charged_delivery env spell i s ≡ admitted_delivery env spell i s1 =
                    ground (arith, ex, n) in
                  rw (go, ← v) (admitted_delivery_lem i s1 r (rw (← go) e))
              | inr (q, n, st) ↦
                  refused i _ _ r (ground (arith, ex, n, st)) (ground (arith, ex, n, v))
            ]
        | inr ex ↦ absurd (ground (arith, ex))
      ]

  -- Past an open circuit.
  unrefused_lem :
      (i : DeliveryIntent) (s : Store) (r : AvailabilityResult)
      → prepare_delivery env spell i s
        ≡ charged_delivery env spell i (circuit_refusal env spell i s).1
      → view (circuit_refusal env spell i s).1 ≡ view s
      → (prepare_delivery env spell i s).0 ≡ ok (some r)
      → Promise spell i (view s) (view (prepare_delivery env spell i s).1) r r.status
  unrefused_lem i s r go v e =
      rw (go, ← v) (charged_delivery_lem i (circuit_refusal env spell i s).1 r (rw (← go) e))

  -- What a verdict promises. A delivery that goes out at once goes to the target's stream, was asked for
  -- whether or not anybody is there or finds a worker of the target online, and one
  -- that goes to another agent type finds a worker of that one online; neither writes anything. A
  -- queued one is in the pending stream, once, with a wake-up before it exactly under that policy. One that waited
  -- was asked to, goes to the target's stream and finds a worker of the target online at its end; while
  -- it waits, others may write. A rejection wrote nothing, unless it is that of a wait that timed out.
  pub prepare_delivery_lem :
      (i : DeliveryIntent) (s : Store) (r : AvailabilityResult)
      → (prepare_delivery env spell i s).0 ≡ ok (some r)
      → Promise spell i (view s) (view (prepare_delivery env spell i s).1) r r.status
  unfolding prepare_delivery unsupported rejection
  prepare_delivery_lem i s r e = elim (Bool-cases (includes text_eq route_policies i.policy)) [
    | inr b ↦ refused i _ _ r (ground (arith, b)) (ground (arith, b))
    | inl b ↦ elim (Reply-cases (circuit_refusal env spell i s).0) [
      | inl (x, ex) ↦
          let (v, first) = circuit_refusal_lem i s x ex in
          elim first [
            | inl n ↦ unrefused_lem i s r (ground (arith, b, ex, n)) v e
            | inr (q, n, st) ↦
                refused i _ _ r (ground (arith, b, ex, n, st)) (ground (arith, b, ex, n, v))
          ]
      | inr ex ↦ absurd (ground (arith, b, ex))
    ]
  ]
