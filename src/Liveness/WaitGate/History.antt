-- ===== src/Liveness/WaitGate/History.antt =====
-- Histories of registrations and replies against one server: how often a wait can be claimed.
use by_framework_ts.Common.{
  ℕ, ◌+◌, ◌≤◌, Text, text_eq, text_eq_iff, Bool, true, false, ◌&&◌, List, [], ◌∷◌, ok, err, arith,
  inl, inr, if◌then◌else◌,
}
use by_framework_ts.Protocol.Header.{MessageHeader}
use by_framework_ts.Redis.Keys.{Key, key_eq, key_eq_iff}
use by_framework_ts.Redis.Data.{count_entry}
use by_framework_ts.Redis.Env.{Env, Reply}
use by_framework_ts.Redis.Async.{Reply-cases}
use by_framework_ts.Liveness.WaitGate.{
  WaitGateDecision, Reason, claimed, wait_index_key, consume_wait_entry,
}
use by_framework_ts.Liveness.WaitGate.Decisions.{
  consume_wait_entry-claims, consume_wait_entry-frame,
}
use by_framework_ts.Liveness.WaitRegistration.{RegisterWaitParams, registered_member, register_wait}
use by_framework_ts.Liveness.WaitRegistration.Reopening.{register_wait-frame}

-- What reaches the server: a caller registers a wait, or a worker runs the gate on a reply.
pub data Event : Type 0 where
  registers : RegisterWaitParams → Event
  replies : MessageHeader → Event

abbrev is_claimed : Reason → Bool
is_claimed claimed = true
is_claimed _ = false

-- Whether a decision claims the member `m` of the shard at `k`.
abbrev pub claim_count : Key → Text → MessageHeader → Reply WaitGateDecision → ℕ
claim_count k m header (ok d) =
    if is_claimed d.reason && text_eq d.member m && key_eq (wait_index_key header.session_id) k
    then 1
    else 0
claim_count k m header (err e) = 0

module _ (env : Env) where
  open env use {Store, view}

  abbrev pub after : Event → Store → Store
  after (registers p) s = (register_wait env p s).1
  after (replies header) s = (consume_wait_entry env header s).1

  -- How often the entry was claimed over a history, and how often it was registered.
  pub claims : Key → Text → List Event → Store → ℕ
  claims k m [] s = 0
  claims k m (registers p ∷ es) s = claims k m es (after (registers p) s)
  claims k m (replies header ∷ es) s =
      claim_count k m header (consume_wait_entry env header s).0
      + claims k m es (after (replies header) s)

  pub registrations : Key → Text → List Event → ℕ
  registrations k m [] = 0
  registrations k m (replies header ∷ es) = registrations k m es
  registrations k m (registers p ∷ es) =
      (if key_eq (wait_index_key p.session_id) k && text_eq (registered_member p) m then 1 else 0)
      + registrations k m es

  reply-le :
      (k : Key) (m : Text) (header : MessageHeader) (s : Store)
      → claim_count k m header (consume_wait_entry env header s).0
          + count_entry ((view (consume_wait_entry env header s).1).zset k m)
        ≤ count_entry ((view s).zset k m)
  reply-le k m header s = elim (Reply-cases (consume_wait_entry env header s).0) [
    | inl (d, e) ↦ ground (
      arith,
      consume_wait_entry-claims env header s d e,
      consume_wait_entry-frame env header s k m,
      text_eq_iff d.member m,
      key_eq_iff (wait_index_key header.session_id) k,
    )
    | inr e ↦ ground (arith, consume_wait_entry-frame env header s k m)
  ]

  -- Over every history of registrations and replies, and whatever fails on the way, a wait wakes
  -- its caller by a claim at most once for each time that it was registered.
  pub claims-le-registrations :
      (k : Key) (m : Text) (es : List Event) (s : Store)
      → claims k m es s ≤ registrations k m es + count_entry ((view s).zset k m)
  unfolding claims registrations
  claims-le-registrations k m [] s = omega arith
  claims-le-registrations k m (registers p ∷ es) s = ground (
    arith,
    claims-le-registrations k m es (after (registers p) s),
    register_wait-frame env p s k m,
    key_eq_iff (wait_index_key p.session_id) k,
    text_eq_iff (registered_member p) m,
  )
  claims-le-registrations k m (replies header ∷ es) s =
      omega
        (arith, claims-le-registrations k m es (after (replies header) s), reply-le k m header s)
