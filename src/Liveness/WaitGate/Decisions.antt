-- ===== src/Liveness/WaitGate/Decisions.antt =====
-- What each verdict of the gate says about the wait.
use by_framework_ts.Common.{
  Text, text_eq, ◌≡◌, refl, ◌⊎◌, true, false, List, [], ◌∷◌, none, ok, arith, includes, is_some,
  inl, inr, is_empty, Bool-cases,
}
use by_framework_ts.Protocol.Header.{MessageHeader}
use by_framework_ts.Redis.Keys.{Key}
use by_framework_ts.Redis.Env.{Env}
use by_framework_ts.Redis.Async.{Reply-cases}
use by_framework_ts.Liveness.WaitIndex.{member_from_resume}
use by_framework_ts.Liveness.WaitGate.{
  WaitGateDecision, ask_user_member, claimed, unregistered, gate_error, already_consumed,
  candidate_members, claim, consume_wait_entry,
}
use by_framework_ts.Liveness.WaitGate.Claims.{
  entry_of, is_marked, claim-denies, claim-claims, claim-unregistered_allow, claim-unregistered,
  claim-frame, claim-resolved, claim-resolved_frame,
}

-- A reply is dropped only if, for one of the members that it could be clearing, the wait's entry is
-- gone and its consumed marker is set.
pub consume_wait_entry-denies :
    (env : Env) (header : MessageHeader) (s : env.Store) (d : WaitGateDecision)
    → (consume_wait_entry env header s).0 ≡ ok d
    → d.allow ≡ false
    → (d.reason ≡ already_consumed)
      × (includes text_eq (candidate_members header) d.member ≡ true)
      × (entry_of env header.session_id d.member (consume_wait_entry env header s).1 ≡ none)
      × (is_marked env header.session_id d.member (consume_wait_entry env header s).1 ≡ true)
unfolding consume_wait_entry
consume_wait_entry-denies env header s d e h =
    ground (arith, claim-denies env header.session_id (candidate_members header) s d)

-- A reply claims a wait only if the wait is one that it could be clearing and its entry was in the
-- index; the reply is let through, and the entry is then gone.
pub consume_wait_entry-claims :
    (env : Env) (header : MessageHeader) (s : env.Store) (d : WaitGateDecision)
    → (consume_wait_entry env header s).0 ≡ ok d
    → d.reason ≡ claimed
    → (d.allow ≡ true)
      × (includes text_eq (candidate_members header) d.member ≡ true)
      × (is_some (entry_of env header.session_id d.member s) ≡ true)
      × (entry_of env header.session_id d.member (consume_wait_entry env header s).1 ≡ none)
unfolding consume_wait_entry
consume_wait_entry-claims env header s d e h =
    ground (arith, claim-claims env header.session_id (candidate_members header) s d)

-- A reply that is judged unregistered is let through, and none of the members that it could be
-- clearing had an entry or a consumed marker.
pub consume_wait_entry-unregistered :
    (env : Env) (header : MessageHeader) (s : env.Store) (d : WaitGateDecision) (x : Text)
    → (consume_wait_entry env header s).0 ≡ ok d
    → d.reason ≡ unregistered
    → includes text_eq (candidate_members header) x ≡ true
    → (d.allow ≡ true)
      × (entry_of env header.session_id x s ≡ none)
      × (is_marked env header.session_id x s ≡ false)
unfolding consume_wait_entry
consume_wait_entry-unregistered env header s d x e h c =
    let sid = header.session_id in
    let ms = candidate_members header in
    ground (arith, claim-unregistered_allow env sid ms s d, claim-unregistered env sid ms s d x)

-- The gate never throws, whatever Redis does: it reaches a decision, which lets the reply through
-- or refuses it for the reason that its wait was already consumed.
pub consume_wait_entry-fails_open :
    (env : Env) (header : MessageHeader) (s : env.Store)
    → (d : WaitGateDecision) × ((consume_wait_entry env header s).0 ≡ ok d)
      × ((d.allow ≡ true) ⊎ (d.reason ≡ already_consumed))
unfolding consume_wait_entry
consume_wait_entry-fails_open env header s =
    elim (Reply-cases (claim env header.session_id (candidate_members header) s).0) [
      | inl (d, e) ↦ elim (Bool-cases d.allow) [
        | inl allowed ↦ (d, ground arith, inl allowed)
        | inr refused ↦ (
          d,
          ground arith,
          inr (claim-denies env header.session_id (candidate_members header) s d e refused).0,
        )
      ]
      | inr e ↦ (record { allow = true; reason = gate_error; member = [] }, ground arith, inl refl)
    ]

candidate_members-cons :
    (header : MessageHeader)
    → (ms : List Text) × (candidate_members header ≡ member_from_resume header ∷ ms)
unfolding candidate_members
candidate_members-cons header = elim (Bool-cases (is_empty header.task_group_id)) [
  | inl alone ↦ elim (Bool-cases (text_eq (member_from_resume header) (ask_user_member header))) [
    | inl same ↦ ([], ground arith)
    | inr other ↦ (ask_user_member header ∷ [], ground arith)
  ]
  | inr grouped ↦ ([], ground arith)
]

-- Once a wait is resolved, with its entry gone and its marker set, every further copy of its reply
-- is refused, unless Redis fails; and no entry of any wait is touched, the live `askUser` wait of
-- the same caller included.
pub consume_wait_entry-resolved :
    (env : Env) (header : MessageHeader) (s : env.Store) (d : WaitGateDecision) (k : Key) (x : Text)
    → entry_of env header.session_id (member_from_resume header) s ≡ none
    → is_marked env header.session_id (member_from_resume header) s ≡ true
    → (consume_wait_entry env header s).0 ≡ ok d
    → ((d.allow ≡ false) ⊎ (d.reason ≡ gate_error))
      × ((env.view (consume_wait_entry env header s).1).zset k x ≡ (env.view s).zset k x)
unfolding consume_wait_entry
consume_wait_entry-resolved env header s d k x gone marked e =
    let (ms, c) = candidate_members-cons header in
    let m = member_from_resume header in
    ground (
      arith,
      c,
      claim-resolved env header.session_id m ms s d,
      claim-resolved_frame env header.session_id m ms s k x,
    )

-- No command of the gate adds an entry.
pub consume_wait_entry-frame :
    (env : Env) (header : MessageHeader) (s : env.Store) (k : Key) (x : Text)
    → ((env.view (consume_wait_entry env header s).1).zset k x ≡ (env.view s).zset k x)
      ⊎ ((env.view (consume_wait_entry env header s).1).zset k x ≡ none)
unfolding consume_wait_entry
consume_wait_entry-frame env header s k x =
    ground (arith, claim-frame env header.session_id (candidate_members header) s k x)
