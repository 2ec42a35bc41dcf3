-- ===== src/Liveness/WaitSweeper/Deadlines.antt =====
-- src/liveness/wait_sweeper.ts, the constants, `extendDeadline`, `renewalOriginMs` and
-- `renewalCeilingMs`. Times are natural numbers; a difference that would be negative is tested for
-- before it is taken.
use by_framework_ts.Common.{
  ℕ, ◌+◌, ◌-◌, ◌*◌, max, Text, false, ◌||◌, Option, none, some, leb, ◌==◌, if◌then◌else◌,
}
use by_framework_ts.Redis.Keys.{Key, wait_renew_origin}
use by_framework_ts.Redis.Values.{Value, number, Execution}
use by_framework_ts.Redis.Env.{Env}
use by_framework_ts.Redis.Async.{Async, ◌>>=◌, ◌>>◌, return, reads, try_catch}
use by_framework_ts.Liveness.WaitIndex.{WaitIndexMember}

abbrev pub default_reply_timeout_ms : ℕ
default_reply_timeout_ms = 3_600_000

abbrev pub wait_renew_increment_ms : ℕ
wait_renew_increment_ms = 300_000

abbrev pub wait_renew_origin_ttl_seconds : ℕ
wait_renew_origin_ttl_seconds = 86400

pub record DueEntry : Type 0 where
  pub index_key : Key
  pub member : Text
  pub deadline_ms : ℕ
  pub entry : WaitIndexMember

-- `asInt`, of a value that was written as a number.
abbrev pub as_int : Option Value → ℕ
as_int (some (number n)) = n
as_int _ = 0

-- The end of the renewal budget: the caller's own timeout is the span from the sub-task's creation
-- to the original deadline, or the default where that span is of no use.
unfoldable pub reply_timeout : (origin_ms registered_ms : ℕ) → ℕ
reply_timeout origin_ms registered_ms =
    if leb registered_ms 0 || leb origin_ms registered_ms
    then default_reply_timeout_ms
    else origin_ms - registered_ms

unfoldable pub renewal_ceiling : (renew_max_multiple origin_ms registered_ms : ℕ) → ℕ
renewal_ceiling renew_max_multiple origin_ms registered_ms =
    origin_ms
    + max (reply_timeout origin_ms registered_ms * (renew_max_multiple - 1)) wait_renew_increment_ms

-- `asInt(stored) || deadlineMs`
unfoldable pub origin_or : ℕ → ℕ → ℕ
origin_or stored deadline_ms = if stored == 0 then deadline_ms else stored

module _ (env : Env) where
  open env use {Store, now, sha1, get, set_nx, zadd}

  unfoldable pub renew_origin_key : DueEntry → Key
  renew_origin_key due = wait_renew_origin due.entry.session_id (sha1 due.member)

  unfoldable pub renewal_origin_ms : DueEntry → Async Store ℕ
  renewal_origin_ms due = do
    stored ← try_catch (get (renew_origin_key due)) (return none)
    return (origin_or (as_int stored) due.deadline_ms)

  unfoldable pub renewal_ceiling_ms : ℕ → DueEntry → Execution → Async Store ℕ
  renewal_ceiling_ms renew_max_multiple due child = do
    origin_ms ← renewal_origin_ms due
    return (renewal_ceiling renew_max_multiple origin_ms child.created_at)

  -- The first renewal records the deadline that it overwrites; later ones leave that alone.
  unfoldable pub extend_deadline : DueEntry → Async Store (Unit {0})
  extend_deadline due = do
    try_catch (set_nx (renew_origin_key due) (number due.deadline_ms) wait_renew_origin_ttl_seconds)
        (return false)
    clock ← reads now
    zadd due.index_key (clock + wait_renew_increment_ms) due.member
