-- ===== src/Availability/Policies.antt =====
-- What each verdict on a delivery means, and what it has done to Redis.
pub mod Verdicts
use by_framework_ts.Common.{
  ℕ, zero, suc, ◌+◌, Text, text_eq, text_eq_iff, is_empty, true, false, List, [], ◌∷◌, Option, none,
  some, ok, ◌≡◌, refl, subst, ◌⊎◌, inl, inr, arith, includes, Bool-cases, ltb,
}
use by_framework_ts.Redis.Keys.{
  Key, ctrl_stream, agent_type_members, control_plane_agent_circuit, control_plane_user_quota,
  control_plane_agent_fallback, control_plane_wakeup_stream, control_plane_delivery_pending_stream,
}
use by_framework_ts.Redis.Values.{json}
use by_framework_ts.Redis.Data.{Data, add_stream}
use by_framework_ts.Redis.Env.{Env}
use by_framework_ts.Redis.Async.{Reply-cases}
use by_framework_ts.Registry.Members.{has_online_agent_type}
use by_framework_ts.Registry.Members.Online.{is_online_in, has_online_agent_type_lem}
use by_framework_ts.Availability.{
  DeliveryIntent, AvailabilityResult, AvailabilityStatus, deliver_now, wait_and_deliver,
  queue_pending, reject, fallback_to_other_agent_type, fail_fast, send_anyway, wake_and_wait_policy,
  wake_and_queue, queue_only, route_policies, wakeup_payload, pending_payload, deliver, rejection,
  unsupported, no_alive_worker, wakeup_timed_out, timeout_of, read_json, publish_wakeup,
  queue_delivery, pending_result, redirection, pause_until, await_online, wake_and_wait,
  offline_delivery, find_fallback, route_delivery, admitted_delivery, charged_delivery,
  circuit_rejection, quota_rejection, circuit_refusal, quota_refusal, prepare_delivery, is_open,
  is_exceeded, selected_of,
}

-- A worker that serves the agent type is online.
abbrev pub IsServed : Text → Data → Type 0
IsServed a d = (w : Text) × (d.members (agent_type_members a) w ≡ true) × (is_online_in d w ≡ true)

-- What a verdict promises, from the contents before to those after.
abbrev pub Promise :
    (Key → Text) → DeliveryIntent → Data → Data → AvailabilityResult → AvailabilityStatus → Type 0
Promise spell i d e r deliver_now =
    (r.stream_name ≡ some (ctrl_stream i.target_agent_type))
    × (e ≡ d)
    × ((i.policy ≡ send_anyway) ⊎ IsServed i.target_agent_type d)
Promise spell i d e r wait_and_deliver =
    (r.stream_name ≡ some (ctrl_stream i.target_agent_type))
    × (i.policy ≡ wake_and_wait_policy)
    × IsServed i.target_agent_type e
Promise spell i d e r queue_pending =
    (r.stream_name ≡ some control_plane_delivery_pending_stream)
    × (((i.policy ≡ queue_only)
          × (e
              ≡ add_stream control_plane_delivery_pending_stream (json (pending_payload spell i))
                  d))
        ⊎ ((i.policy ≡ wake_and_queue)
            × (e
                ≡ add_stream control_plane_delivery_pending_stream (json (pending_payload spell i))
                    (add_stream control_plane_wakeup_stream (json (wakeup_payload i)) d))))
Promise spell i d e r reject =
    (e ≡ d) ⊎ ((i.policy ≡ wake_and_wait_policy) × (r ≡ wakeup_timed_out i.target_agent_type))
Promise spell i d e r fallback_to_other_agent_type =
    (r.stream_name ≡ some (ctrl_stream r.selected_agent_type))
    × (e ≡ d)
    × IsServed r.selected_agent_type d

module _ (env : Env) (spell : Key → Text) where
  open env use {Store, view, get, get_lem, xadd, xadd_lem}

  has_online_agent_type-IsServed :
      (a : Text) (s : Store) (online : List Text)
      → (has_online_agent_type env a s).0 ≡ ok (true, online)
      → IsServed a (view s)
  has_online_agent_type-IsServed a s [] e =
      absurd (ground (arith, has_online_agent_type_lem env a s true [] e))
  has_online_agent_type-IsServed a s (w ∷ ws) e =
      let (listed, f, v) = has_online_agent_type_lem env a s true (w ∷ ws) e in
      (w, ground (arith, listed w, text_eq_iff w w), ground (arith, listed w, text_eq_iff w w))

  -- A delivery after a wait, to an agent type that is served.
  abbrev Arrives : Text → AvailabilityResult → Data → Type 0
  Arrives a r e = (r ≡ record (deliver a) { status = wait_and_deliver }) × IsServed a e

  -- The two ways in which the wait ends.
  await_online_cases :
      (fuel deadline : ℕ) (a : Text) (s : Store) (r : AvailabilityResult)
      → (await_online env spell fuel deadline a s).0 ≡ ok (some r)
      → (r ≡ wakeup_timed_out a) ⊎ Arrives a r (view (await_online env spell fuel deadline a s).1)
  unfolding await_online
  await_online_cases zero deadline a s r e = absurd (ground (arith, e))
  await_online_cases (suc fuel) deadline a s r e =
      let s1 = (has_online_agent_type env a s).1 in
      let s2 = (pause_until env spell deadline s1).1 in
      elim (Reply-cases (has_online_agent_type env a s).0) [
        | inl ((true, ws), ef) ↦ elim (Bool-cases (ltb (env.now s) deadline)) [
          | inl l ↦ inr (
            ground (arith, ef, l, e),
            subst (IsServed a) (ground (arith, ef, l, has_online_agent_type_lem env a s true ws ef))
                (has_online_agent_type-IsServed a s ws ef),
          )
          | inr l ↦ inl (ground (arith, ef, l, e))
        ]
        | inl ((false, ws), ef) ↦ ground (
          arith,
          ef,
          Reply-cases (pause_until env spell deadline s1).0,
          await_online_cases fuel deadline a s2 r,
        )
        | inr ef ↦ ground (arith, ef)
      ]

  wake_and_wait_cases :
      (i : DeliveryIntent) (s : Store) (r : AvailabilityResult)
      → (wake_and_wait env spell i s).0 ≡ ok (some r)
      → (r ≡ wakeup_timed_out i.target_agent_type)
        ⊎ Arrives i.target_agent_type r (view (wake_and_wait env spell i s).1)
  unfolding wake_and_wait publish_wakeup
  wake_and_wait_cases i s r e =
      let s1 = (xadd control_plane_wakeup_stream (json (wakeup_payload i)) s).1 in
      let timeout = timeout_of i.timeout_ms in
      ground
        (arith, await_online_cases (suc timeout) (env.now s1 + timeout) i.target_agent_type s1 r)

  wake_and_wait_lem :
      (i : DeliveryIntent) (d : Data) (s : Store) (r : AvailabilityResult)
      → i.policy ≡ wake_and_wait_policy
      → (wake_and_wait env spell i s).0 ≡ ok (some r)
      → Promise spell i d (view (wake_and_wait env spell i s).1) r r.status
  unfolding wakeup_timed_out rejection deliver
  wake_and_wait_lem i d s r p e = elim (wake_and_wait_cases i s r e) [
    | inl x ↦ rw x (inr (p, refl))
    | inr (x, served) ↦ rw x (refl, p, served)
  ]

  queue_delivery_lem :
      (i : DeliveryIntent) (s : Store) (r : AvailabilityResult)
      → (queue_delivery env spell i s).0 ≡ ok r
      → (r ≡ pending_result)
        × (view (queue_delivery env spell i s).1
            ≡ add_stream control_plane_delivery_pending_stream
                (json (pending_payload spell i))
                (view s))
  unfolding queue_delivery
  queue_delivery_lem i s r e =
      ground
        (arith, xadd_lem control_plane_delivery_pending_stream (json (pending_payload spell i)) s)

  offline_delivery_cases :
      (i : DeliveryIntent) (s : Store) (r : AvailabilityResult)
      → (offline_delivery env spell i s).0 ≡ ok (some r)
      → ((r.status ≡ reject) × (view (offline_delivery env spell i s).1 ≡ view s))
        ⊎ ((r ≡ pending_result)
            × (i.policy ≡ queue_only)
            × (view (offline_delivery env spell i s).1
                ≡ add_stream control_plane_delivery_pending_stream
                    (json (pending_payload spell i))
                    (view s)))
        ⊎ ((r ≡ pending_result)
            × (i.policy ≡ wake_and_queue)
            × (view (offline_delivery env spell i s).1
                ≡ add_stream control_plane_delivery_pending_stream
                    (json (pending_payload spell i))
                    (add_stream control_plane_wakeup_stream (json (wakeup_payload i)) (view s))))
        ⊎ ((i.policy ≡ wake_and_wait_policy)
            × ((r ≡ wakeup_timed_out i.target_agent_type)
                ⊎ Arrives i.target_agent_type r (view (offline_delivery env spell i s).1)))
  unfolding offline_delivery publish_wakeup no_alive_worker unsupported rejection
  offline_delivery_cases i s r e =
      let k = control_plane_wakeup_stream in
      let s1 = (xadd k (json (wakeup_payload i)) s).1 in
      ground (
        arith,
        text_eq_iff i.policy fail_fast,
        text_eq_iff i.policy queue_only,
        text_eq_iff i.policy wake_and_queue,
        text_eq_iff i.policy wake_and_wait_policy,
        xadd_lem k (json (wakeup_payload i)) s,
        Reply-cases (queue_delivery env spell i s).0,
        Reply-cases (queue_delivery env spell i s1).0,
        queue_delivery_lem i s r,
        queue_delivery_lem i s1 r,
        wake_and_wait_cases i s r,
      )

  offline_delivery_lem :
      (i : DeliveryIntent) (s : Store) (r : AvailabilityResult)
      → (offline_delivery env spell i s).0 ≡ ok (some r)
      → Promise spell i (view s) (view (offline_delivery env spell i s).1) r r.status
  unfolding pending_result wakeup_timed_out rejection deliver
  offline_delivery_lem i s r e = elim (offline_delivery_cases i s r e) [
    | inl (x, v) ↦ rw x (inl v)
    | inr (inl (x, p, v)) ↦ rw x (refl, inl (p, v))
    | inr (inr (inl (x, p, v))) ↦ rw x (refl, inr (p, v))
    | inr (inr (inr (p, inl x))) ↦ rw x (inr (p, refl))
    | inr (inr (inr (p, inr (x, served)))) ↦ rw x (refl, p, served)
  ]

  read_json-view : (k : Key) (s : Store) → view (read_json env spell k s).1 ≡ view s
  unfolding read_json
  read_json-view k s = ground (arith, get_lem k s)
