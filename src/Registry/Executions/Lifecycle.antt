-- ===== src/Registry/Executions/Lifecycle.antt =====
-- The life of an execution record, as the sequence of the changes that the registry makes to it.
use by_framework_ts.Common.{
  ℕ, ◌≤◌, Text, codes, ◌≡◌, refl, ◌≢◌, ◌⊎◌, Bool, true, false, List, [], ◌∷◌, ◌++◌, Option, none,
  some, or_text-eq_of_ne, arith, ◌||◌,
}
use by_framework_ts.Protocol.State.{is_terminal_state}
use by_framework_ts.Protocol.AgentState
use by_framework_ts.Redis.Values.{Execution, TimelineEntry}
use by_framework_ts.Registry.Executions.{
  StatusFields, assign_fields, finished_record, updated_record, cancelling_record,
  cancel_requested_record, initial_record,
}

-- The status of the last entry, and the entries in the order of time up to a bound.
abbrev pub last_status : Text → List TimelineEntry → Text
last_status status [] = status
last_status status (t ∷ ts) = last_status t.status ts

abbrev pub IsOrdered : ℕ → List TimelineEntry → ℕ → Type 0
IsOrdered low [] high = low ≤ high
IsOrdered low (t ∷ ts) high = (low ≤ t.timestamp) × IsOrdered t.timestamp ts high

abbrev pub any_terminal : List TimelineEntry → Bool
any_terminal [] = false
any_terminal (t ∷ ts) = is_terminal_state t.status || any_terminal ts

pub record IsTimely (e : Execution) : Type 0 where
  -- The timeline ends in the record's status, and its times run from the creation to the update.
  pub current : last_status (codes "") e.timeline ≡ e.status
  pub ordered : IsOrdered e.created_at e.timeline e.updated_at
  pub started : e.started_at ≤ e.updated_at
  pub finished : e.finished_at ≤ e.updated_at
  -- Only an execution that was terminal at some time has a finish time.
  pub ended : (e.finished_at ≡ 0) ⊎ (any_terminal e.timeline ≡ true)

-- The changes that the registry writes, with the clock not behind the record's last update.
pub data Change (e : Execution) : Execution → Type 0 where
  update :
      (status : Text) (extra : Option StatusFields) (now : ℕ)
      → e.updated_at ≤ now
      → Change e (updated_record e status extra now)
  finish : (status : Text) (now : ℕ) → e.updated_at ≤ now → Change e (finished_record e status now)
  cancel :
      (reason : Text) (now : ℕ) → e.updated_at ≤ now → Change e (cancelling_record e reason now)
  ask_cancel :
      (reason : Text) (now : ℕ)
      → e.updated_at ≤ now
      → Change e (cancel_requested_record e reason now)

pub data Reaches (e : Execution) : Execution → Type 0 where
  here : Reaches e e
  next : {f g : Execution} → Reaches e f → Change f g → Reaches e g

last_status-append :
    (status : Text) (ts : List TimelineEntry) (t : TimelineEntry)
    → last_status status (ts ++ t ∷ []) ≡ t.status
last_status-append status [] t = refl
last_status-append status (u ∷ ts) t = last_status-append u.status ts t

IsOrdered-append :
    (low : ℕ) (ts : List TimelineEntry) (t : TimelineEntry) (high : ℕ)
    → IsOrdered low ts high
    → high ≤ t.timestamp
    → IsOrdered low (ts ++ t ∷ []) t.timestamp
IsOrdered-append low [] t high o h = omega arith
IsOrdered-append low (u ∷ ts) t high o h = (o.0, IsOrdered-append u.timestamp ts t high o.1 h)

IsOrdered-mono :
    (low : ℕ) (ts : List TimelineEntry) (high higher : ℕ)
    → IsOrdered low ts high
    → high ≤ higher
    → IsOrdered low ts higher
IsOrdered-mono low [] high higher o h = omega arith
IsOrdered-mono low (u ∷ ts) high higher o h = (o.0, IsOrdered-mono u.timestamp ts high higher o.1 h)

initial_record-IsTimely :
    (e : Execution) (now : ℕ) → e.status ≢ [] → IsTimely (initial_record e now)
unfolding initial_record
initial_record-IsTimely e now h = ground (arith, or_text-eq_of_ne e.status (codes "QUEUED"))

any_terminal-append :
    (ts : List TimelineEntry) (t : TimelineEntry)
    → any_terminal (ts ++ t ∷ []) ≡ (is_terminal_state t.status || any_terminal ts)
any_terminal-append [] t = refl
any_terminal-append (u ∷ ts) t = ground (arith, any_terminal-append ts t)

Change-IsTimely : {e f : Execution} → Change e f → IsTimely e → IsTimely f
unfolding assign_fields updated_record finished_record cancelling_record cancel_requested_record
Change-IsTimely {e} (update status extra now h) v =
    let t : TimelineEntry = record { status = status; timestamp = now } in
    ground (
      arith,
      last_status-append (codes "") e.timeline t,
      any_terminal-append e.timeline t,
      IsOrdered-append e.created_at e.timeline t e.updated_at v.ordered h,
    )
Change-IsTimely {e} (finish status now h) v =
    let t : TimelineEntry = record { status = status; timestamp = now } in
    ground (
      arith,
      last_status-append (codes "") e.timeline t,
      any_terminal-append e.timeline t,
      IsOrdered-append e.created_at e.timeline t e.updated_at v.ordered h,
    )
Change-IsTimely {e} (cancel reason now h) v =
    let t : TimelineEntry = record { status = AgentState.cancelling; timestamp = now } in
    ground (
      arith,
      last_status-append (codes "") e.timeline t,
      any_terminal-append e.timeline t,
      IsOrdered-append e.created_at e.timeline t e.updated_at v.ordered h,
    )
Change-IsTimely {e} (ask_cancel reason now h) v =
    ground (arith, IsOrdered-mono e.created_at e.timeline e.updated_at now v.ordered h)

-- A record that was initialised with a status stays in order through every sequence of changes, each
-- made at a time that is not before the record's last update: its
-- timeline ends in its status, its times run from its creation to its last update, and it has a
-- finish time only if it was in a terminal state at some time.
pub Reaches-IsTimely :
    (e : Execution) (now : ℕ) {f : Execution}
    → e.status ≢ []
    → Reaches (initial_record e now) f
    → IsTimely f
Reaches-IsTimely e now h here = initial_record-IsTimely e now h
Reaches-IsTimely e now h (next r c) = Change-IsTimely c (Reaches-IsTimely e now h r)

Change-cancel_requested :
    {e f : Execution} → Change e f → e.cancel_requested ≡ true → f.cancel_requested ≡ true
unfolding assign_fields updated_record finished_record cancelling_record cancel_requested_record
Change-cancel_requested (update status none now h) c = c
Change-cancel_requested (update status (some extra) now h) c = c
Change-cancel_requested (finish status now h) c = c
Change-cancel_requested (cancel reason now h) c = refl
Change-cancel_requested (ask_cancel reason now h) c = refl

-- A cancellation that was asked for is never forgotten, whatever the later changes.
pub Reaches-cancel_requested :
    {e f : Execution} → Reaches e f → e.cancel_requested ≡ true → f.cancel_requested ≡ true
Reaches-cancel_requested here c = c
Reaches-cancel_requested (next r ch) c = Change-cancel_requested ch (Reaches-cancel_requested r c)
