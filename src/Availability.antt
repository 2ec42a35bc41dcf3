-- ===== src/Availability.antt =====
-- src/availability.ts: whether a command for an agent type goes out at once, waits for a worker, is
-- queued for later, goes to another agent type, or is refused.
mod Messages
pub mod Policies
pub mod Waiting
unfoldable pub use Messages.*
use by_framework_ts.Common.{
  ℕ, zero, suc, ◌+◌, ◌-◌, min, ltb, ◌==◌, Text, codes, text_eq, is_empty, Bool, true, false, not,
  List, [], ◌∷◌, ◌++◌, Option, none, some, ok, err, if◌then◌else◌, includes, lookup,
}
use by_framework_ts.Protocol.Json.{JsonValue, JsonRecord, text, num, bool, obj, fields}
use by_framework_ts.Protocol.Strings.{is_truthy_json, or_json, string_or, to_upper_case}
use by_framework_ts.Redis.Keys.{
  Key, ctrl_stream, control_plane_agent_circuit, control_plane_agent_fallback,
  control_plane_user_quota, control_plane_wakeup_stream, control_plane_delivery_pending_stream,
}
use by_framework_ts.Redis.Values.{Value, json}
use by_framework_ts.Redis.Env.{Env}
use by_framework_ts.Redis.Async.{Async, ◌>>=◌, ◌>>◌, return, reads}
use by_framework_ts.Registry.Members.{has_online_agent_type}

module _ (env : Env) (spell : Key → Text) where
  open env use {Store, now, get, xadd, sleep}

  unfoldable pub read_json : Key → Async Store JsonRecord
  unfolding parse_json
  read_json key = do raw ← get key; return (parse_json raw)

  unfoldable pub publish_wakeup : DeliveryIntent → Async Store (Unit {0})
  publish_wakeup i = xadd control_plane_wakeup_stream (json (wakeup_payload i))

  unfoldable pub queue_delivery : DeliveryIntent → Async Store AvailabilityResult
  queue_delivery i = do
    xadd control_plane_delivery_pending_stream (json (pending_payload spell i))
    return pending_result

  -- The wait before the next look, of at most the rest of the time.
  unfoldable pub pause_until : ℕ → Async Store (Unit {0})
  pause_until deadline = do
    clock ← reads now
    if ltb 0 (deadline - clock)
        then (λ s. (ok tt, sleep (min wakeup_online_poll_interval_ms (deadline - clock)) s))
        else return tt

  -- The loop of `wakeAndWait`, on fuel; `none` is a loop that did not end within its fuel.
  unfoldable pub await_online : ℕ → ℕ → Text → Async Store (Option AvailabilityResult)
  await_online zero deadline agent_type = return none
  await_online (suc fuel) deadline agent_type = do
    clock ← reads now
    elim (ltb clock deadline) [
      | false ↦ return (some (wakeup_timed_out agent_type))
      | true ↦ do
        found ← has_online_agent_type env agent_type
        elim found.0 [
          | true ↦ return (some (record (deliver agent_type) { status = wait_and_deliver }))
          | false ↦ do pause_until deadline; await_online fuel deadline agent_type
        ]
    ]

  unfoldable pub wake_and_wait : DeliveryIntent → Async Store (Option AvailabilityResult)
  unfolding await_online
  wake_and_wait i = do
    publish_wakeup i
    let timeout = timeout_of i.timeout_ms
    clock ← reads now
    elim (timeout == 0) [
      | true ↦ return (some (wakeup_timed_out i.target_agent_type))
      | false ↦ await_online (suc timeout) (clock + timeout) i.target_agent_type
    ]

  -- The `switch` of `prepareDelivery`.
  unfoldable pub offline_delivery : DeliveryIntent → Async Store (Option AvailabilityResult)
  offline_delivery i =
      if text_eq i.policy fail_fast
      then return (some (no_alive_worker i.target_agent_type))
      else if text_eq i.policy queue_only
      then (queue_delivery i >>= (λ r. return (some r)))
      else if text_eq i.policy wake_and_queue
      then (publish_wakeup i >> queue_delivery i >>= (λ r. return (some r)))
      else if text_eq i.policy wake_and_wait_policy
      then wake_and_wait i
      else return (some (unsupported i.policy))

  -- The fallback of the agent type, if it names one with a worker online.
  unfoldable pub find_fallback : Text → Async Store (Option Text)
  find_fallback agent_type = do
    fallback ← read_json (control_plane_agent_fallback agent_type)
    let selected = selected_of fallback
    elim (is_empty selected) [
      | true ↦ return none
      | false ↦ do
        found ← has_online_agent_type env selected
        return (if found.0 then some selected else none)
    ]

  -- `prepareDelivery` from the check of the online workers on.
  unfoldable pub route_delivery : DeliveryIntent → Async Store (Option AvailabilityResult)
  route_delivery i = do
    found ← has_online_agent_type env i.target_agent_type
    elim found.0 [
      | true ↦ return (some (deliver i.target_agent_type))
      | false ↦ do
        fallback ← find_fallback i.target_agent_type
        elim fallback [
          | some selected ↦ return (some (redirection selected))
          | none ↦ offline_delivery i
        ]
    ]

  -- `prepareDelivery` past its refusals.
  unfoldable pub admitted_delivery : DeliveryIntent → Async Store (Option AvailabilityResult)
  admitted_delivery i =
      if text_eq i.policy send_anyway
      then return (some (deliver i.target_agent_type))
      else route_delivery i

  -- The refusals by an open circuit and by a user's quota.
  unfoldable pub circuit_refusal : DeliveryIntent → Async Store (Option AvailabilityResult)
  circuit_refusal i = do
    circuit ← read_json (control_plane_agent_circuit i.target_agent_type)
    return (if is_open circuit then some (circuit_rejection circuit) else none)

  unfoldable pub quota_refusal : DeliveryIntent → Async Store (Option AvailabilityResult)
  quota_refusal i = elim (is_empty i.user_code) [
    | true ↦ return none
    | false ↦ do
      quota ← read_json (control_plane_user_quota i.user_code)
      return (if is_exceeded quota then some (quota_rejection quota) else none)
  ]

  -- `prepareDelivery` past the circuit.
  unfoldable pub charged_delivery : DeliveryIntent → Async Store (Option AvailabilityResult)
  charged_delivery i = do
    quota ← quota_refusal i
    elim quota [ some r ↦ return (some r) | none ↦ admitted_delivery i ]

  unfoldable pub prepare_delivery : DeliveryIntent → Async Store (Option AvailabilityResult)
  prepare_delivery i = elim (includes text_eq route_policies i.policy) [
    | false ↦ return (some (unsupported i.policy))
    | true ↦ do
      circuit ← circuit_refusal i
      elim circuit [ some r ↦ return (some r) | none ↦ charged_delivery i ]
  ]
