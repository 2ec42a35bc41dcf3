-- ===== src/Availability/Waiting.antt =====
-- The waiting for a worker that was woken ends.
use by_framework_ts.Common.{
  ℕ, zero, suc, ◌+◌, ◌-◌, ◌≤◌, ◌<◌, min, Text, true, false, List, [], ◌∷◌, none, some, ok, ◌≡◌, ◌≢◌,
  ◌⊎◌, inl, inr, arith, Bool-cases,
}
use by_framework_ts.Redis.Keys.{
  Key, worker_online_lease, agent_type_members, control_plane_wakeup_stream,
}
use by_framework_ts.Redis.Values.{Value, json}
use by_framework_ts.Redis.Env.{Env}
use by_framework_ts.Redis.Async.{Reply-cases}
use by_framework_ts.Registry.Leases.{is_worker_online}
use by_framework_ts.Registry.Members.{online_of, has_online_agent_type}
use by_framework_ts.Availability.{
  offline_delivery, route_delivery, charged_delivery, admitted_delivery, prepare_delivery,
  find_fallback, quota_refusal, circuit_refusal, queue_delivery, wakeup_timed_out, deliver,
  pause_until, await_online, wake_and_wait, DeliveryIntent, publish_wakeup,
  wakeup_online_poll_interval_ms, timeout_of, wakeup_payload,
}

module _ (env : Env) (spell : Key → Text) where
  open env use {Store, view, now, get, smembers, xadd, sleep, sleep_lem}

  -- The clock is not set back while a command runs.
  pub record IsSteady : Type 0 where
    pub smembers_steady : (k : Key) (s : Store) → now s ≤ now (smembers k s).1
    pub get_steady : (k : Key) (s : Store) → now s ≤ now (get k s).1
    pub xadd_steady : (k : Key) (v : Value) (s : Store) → now s ≤ now (xadd k v s).1

  module _ (steady : IsSteady) where
    open steady use {smembers_steady, get_steady, xadd_steady}

    is_worker_online-now : (w : Text) (s : Store) → now s ≤ now (is_worker_online env w s).1
    unfolding is_worker_online
    is_worker_online-now w s =
        ground (
          arith,
          get_steady (worker_online_lease w) s,
          Reply-cases (get (worker_online_lease w) s).0,
        )

    online_of-now : (ws : List Text) (s : Store) → now s ≤ now (online_of env ws s).1
    unfolding online_of
    online_of-now [] s = omega arith
    online_of-now (w ∷ ws) s =
        let s1 = (is_worker_online env w s).1 in
        ground (
          arith,
          is_worker_online-now w s,
          online_of-now ws s1,
          Reply-cases (is_worker_online env w s).0,
          Reply-cases (online_of env ws s1).0,
        )

    has_online_agent_type-now :
        (a : Text) (s : Store) → now s ≤ now (has_online_agent_type env a s).1
    unfolding has_online_agent_type
    has_online_agent_type-now a s =
        let k = agent_type_members a in
        let s1 = (smembers k s).1 in
        elim (Reply-cases (smembers k s).0) [
          | inl (ws, e) ↦ ground (
            arith,
            e,
            smembers_steady k s,
            online_of-now ws s1,
            Reply-cases (online_of env ws s1).0,
          )
          | inr e ↦ ground (arith, e, smembers_steady k s)
        ]

    pause_until-now :
        (deadline : ℕ) (s : Store)
        → ((pause_until env spell deadline s).0 ≡ ok tt)
          × ((deadline ≤ now (pause_until env spell deadline s).1)
              ⊎ (now s < now (pause_until env spell deadline s).1))
          × (now s ≤ now (pause_until env spell deadline s).1)
    unfolding pause_until
    pause_until-now deadline s =
        ground (arith, sleep_lem (min wakeup_online_poll_interval_ms (deadline - now s)) s)

    -- With more fuel than time is left, the loop ends.
    pub await_online-ends :
        (fuel deadline : ℕ) (a : Text) (s : Store)
        → 0 < fuel
        → deadline < now s + fuel
        → (await_online env spell fuel deadline a s).0 ≢ ok none
    unfolding await_online
    await_online-ends zero deadline a s h i = absurd (omega arith)
    await_online-ends (suc fuel) deadline a s h i =
        let s1 = (has_online_agent_type env a s).1 in
        let s2 = (pause_until env spell deadline s1).1 in
        elim (Reply-cases (has_online_agent_type env a s).0) [
          | inl (found, e) ↦ ground (
            arith,
            e,
            has_online_agent_type-now a s,
            pause_until-now deadline s1,
            Bool-cases found.0,
            await_online-ends fuel deadline a s2,
          )
          | inr e ↦ ground (arith, e)
        ]

    -- A loop that found nobody ends no earlier than its deadline.
    pub await_online-late :
        (fuel deadline : ℕ) (a : Text) (s : Store)
        → (await_online env spell fuel deadline a s).0 ≡ ok (some (wakeup_timed_out a))
        → deadline ≤ now (await_online env spell fuel deadline a s).1
    unfolding await_online wakeup_timed_out deliver
    await_online-late zero deadline a s h = absurd (ground (arith, h))
    await_online-late (suc fuel) deadline a s h =
        let s1 = (has_online_agent_type env a s).1 in
        let s2 = (pause_until env spell deadline s1).1 in
        elim (Reply-cases (has_online_agent_type env a s).0) [
          | inl (found, e) ↦ ground (
            arith,
            e,
            pause_until-now deadline s1,
            Bool-cases found.0,
            await_online-late fuel deadline a s2,
          )
          | inr e ↦ ground (arith, e)
        ]

    -- A delivery that wakes the target and waits always ends.
    pub wake_and_wait-ends :
        (i : DeliveryIntent) (s : Store) → (wake_and_wait env spell i s).0 ≢ ok none
    unfolding wake_and_wait publish_wakeup
    wake_and_wait-ends i s =
        let k = control_plane_wakeup_stream in
        let s1 = (xadd k (json (wakeup_payload i)) s).1 in
        let timeout = timeout_of i.timeout_ms in
        ground (
          arith,
          Reply-cases (xadd k (json (wakeup_payload i)) s).0,
          await_online-ends (suc timeout) (now s1 + timeout) i.target_agent_type s1,
        )

    -- A delivery that woke the target and gave up did so no earlier than its time-out after it started.
    pub wake_and_wait-patient :
        (i : DeliveryIntent) (s : Store)
        → (wake_and_wait env spell i s).0 ≡ ok (some (wakeup_timed_out i.target_agent_type))
        → now s + timeout_of i.timeout_ms ≤ now (wake_and_wait env spell i s).1
    unfolding wake_and_wait publish_wakeup
    wake_and_wait-patient i s h =
        let k = control_plane_wakeup_stream in
        let s1 = (xadd k (json (wakeup_payload i)) s).1 in
        let timeout = timeout_of i.timeout_ms in
        ground (
          arith,
          xadd_steady k (json (wakeup_payload i)) s,
          Reply-cases (xadd k (json (wakeup_payload i)) s).0,
          await_online-late (suc timeout) (now s1 + timeout) i.target_agent_type s1,
        )

    offline_delivery-ends :
        (i : DeliveryIntent) (s : Store) → (offline_delivery env spell i s).0 ≢ ok none
    unfolding offline_delivery
    offline_delivery-ends i s =
        let s1 = (publish_wakeup env spell i s).1 in
        ground (
          arith,
          Reply-cases (queue_delivery env spell i s).0,
          Reply-cases (publish_wakeup env spell i s).0,
          Reply-cases (queue_delivery env spell i s1).0,
          wake_and_wait-ends i s,
        )

    route_delivery-ends :
        (i : DeliveryIntent) (s : Store) → (route_delivery env spell i s).0 ≢ ok none
    unfolding route_delivery
    route_delivery-ends i s =
        let a = i.target_agent_type in
        let s1 = (has_online_agent_type env a s).1 in
        let s2 = (find_fallback env spell a s1).1 in
        elim (Reply-cases (has_online_agent_type env a s).0) [
          | inl ((true, ws), e) ↦ ground (arith, e)
          | inl ((false, ws), e) ↦ elim (Reply-cases (find_fallback env spell a s1).0) [
            | inl (none, f) ↦ ground (arith, e, f, offline_delivery-ends i s2)
            | inl (some b, f) ↦ ground (arith, e, f)
            | inr f ↦ ground (arith, e, f)
          ]
          | inr e ↦ ground (arith, e)
        ]

    charged_delivery-ends :
        (i : DeliveryIntent) (s : Store) → (charged_delivery env spell i s).0 ≢ ok none
    unfolding charged_delivery admitted_delivery
    charged_delivery-ends i s =
        let s1 = (quota_refusal env spell i s).1 in
        elim (Reply-cases (quota_refusal env spell i s).0) [
          | inl (none, e) ↦ ground (arith, e, route_delivery-ends i s1)
          | inl (some r, e) ↦ ground (arith, e)
          | inr e ↦ ground (arith, e)
        ]

    -- Routing a delivery always comes to a verdict, or throws because Redis fails: the polling for a woken worker
    -- ends.
    pub prepare_delivery-ends :
        (i : DeliveryIntent) (s : Store) → (prepare_delivery env spell i s).0 ≢ ok none
    unfolding prepare_delivery
    prepare_delivery-ends i s =
        let s1 = (circuit_refusal env spell i s).1 in
        elim (Reply-cases (circuit_refusal env spell i s).0) [
          | inl (none, e) ↦ ground (arith, e, charged_delivery-ends i s1)
          | inl (some r, e) ↦ ground (arith, e)
          | inr e ↦ ground (arith, e)
        ]
