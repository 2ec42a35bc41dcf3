-- ===== src/Liveness/WaitSweeper/Renewal.antt =====
-- The budget of renewals that a live callee has.
use by_framework_ts.Common.{
  ℕ, suc, ◌+◌, ◌-◌, ◌*◌, ◌<◌, max, ◌≡◌, ◌≢◌, inl, inr, List, [], ◌∷◌, some, ok, err, arith,
}
use by_framework_ts.Redis.Keys.{Key, key_eq_iff}
use by_framework_ts.Redis.Values.{Value, number, Execution}
use by_framework_ts.Redis.Env.{Env}
use by_framework_ts.Redis.Async.{Reply-cases}
use by_framework_ts.Liveness.WaitSweeper.Deadlines.{
  DueEntry, extend_deadline, renew_origin_key, renewal_origin_ms, renewal_ceiling_ms,
  renewal_ceiling, reply_timeout, origin_or, wait_renew_increment_ms, wait_renew_origin_ttl_seconds,
}

-- A callee that was registered at a known time, before the original deadline, has as its budget the
-- given multiple of its caller's timeout from its registration, and never less than one renewal
-- after the original deadline.
pub renewal_ceiling_lem :
    (n origin_ms registered_ms : ℕ)
    → 0 < registered_ms
    → registered_ms < origin_ms
    → renewal_ceiling (suc n) origin_ms registered_ms
      ≡ max
          (registered_ms + (origin_ms - registered_ms) * suc n)
          (origin_ms + wait_renew_increment_ms)
unfolding renewal_ceiling reply_timeout
renewal_ceiling_lem n o r h i = ground arith

module _ (env : Env) where
  open env use {Store, view, now, set_nx, set_nx_lem, zadd, zadd_lem, get, get_lem, sleep}

  -- Something that happens to the waits of a session: an entry is renewed, or time passes.
  pub data Step : Type 0 where
    renews : (due : DueEntry) → Step
    passes : (ms : ℕ) → Step

  -- The state after such steps, one after the other.
  unfoldable pub renew_all : List Step → Store → Store
  renew_all [] s = s
  renew_all (renews due ∷ steps) s = renew_all steps (extend_deadline env due s).1
  renew_all (passes ms ∷ steps) s = renew_all steps (sleep ms s)

  -- The record `v` at `k` is not lost while time passes: it does not expire, nor does anybody else
  -- remove it.
  abbrev pub IsKept : Key → Value → List Step → Store → Type 0
  IsKept k v [] s = Unit
  IsKept k v (renews due ∷ steps) s = IsKept k v steps (extend_deadline env due s).1
  IsKept k v (passes ms ∷ steps) s =
      ((view (sleep ms s)).str k ≡ some v) × IsKept k v steps (sleep ms s)

  extend_deadline-str :
      (due : DueEntry) (s : Store) (k : Key) (v : Value)
      → (view s).str k ≡ some v
      → (view (extend_deadline env due s).1).str k ≡ some v
  unfolding extend_deadline
  extend_deadline-str due s k v h =
      let j = renew_origin_key env due in
      let r = set_nx j (number due.deadline_ms) wait_renew_origin_ttl_seconds s in
      ground (
        arith,
        set_nx_lem j (number due.deadline_ms) wait_renew_origin_ttl_seconds s,
        zadd_lem due.index_key (now r.1 + wait_renew_increment_ms) due.member r.1,
        key_eq_iff j k,
      )

  renew_all-str :
      (steps : List Step) (s : Store) (k : Key) (v : Value)
      → (view s).str k ≡ some v
      → IsKept k v steps s
      → (view (renew_all steps s)).str k ≡ some v
  unfolding renew_all
  renew_all-str [] s k v h kept = h
  renew_all-str (renews due ∷ steps) s k v h kept =
      renew_all-str steps (extend_deadline env due s).1 k v (extend_deadline-str due s k v h) kept
  renew_all-str (passes ms ∷ steps) s k v h kept =
      renew_all-str steps (sleep ms s) k v kept.0 kept.1

  renewal_origin_ms_lem :
      (due : DueEntry) (s : Store) (d o : ℕ)
      → d ≢ 0
      → (view s).str (renew_origin_key env due) ≡ some (number d)
      → (get (renew_origin_key env due) s).0 ≢ err tt
      → (renewal_origin_ms env due s).0 ≡ ok o
      → o ≡ d
  unfolding renewal_origin_ms origin_or
  renewal_origin_ms_lem due s d o ne h read e = ground (arith, get_lem (renew_origin_key env due) s)

  -- Once the original deadline of an entry is recorded, no sequence of renewals, with pauses in which
  -- the record is not lost, moves the ceiling of its renewals: wherever the record can be read, the
  -- ceiling is counted from that deadline, whatever the deadline that the sweep found.
  pub renewal_ceiling_ms-renew_all :
      (n : ℕ) (due : DueEntry) (child : Execution) (steps : List Step) (s : Store) (d limit : ℕ)
      → d ≢ 0
      → (view s).str (renew_origin_key env due) ≡ some (number d)
      → IsKept (renew_origin_key env due) (number d) steps s
      → (get (renew_origin_key env due) (renew_all steps s)).0 ≢ err tt
      → (renewal_ceiling_ms env n due child (renew_all steps s)).0 ≡ ok limit
      → limit ≡ renewal_ceiling n d child.created_at
  unfolding renewal_ceiling_ms
  renewal_ceiling_ms-renew_all n due child steps s d limit ne h kept read e =
      let s1 = renew_all steps s in
      let still = renew_all-str steps s (renew_origin_key env due) (number d) h kept in
      elim (Reply-cases (renewal_origin_ms env due s1).0) [
        | inl (o, eo) ↦ ground (arith, eo, renewal_origin_ms_lem due s1 d o ne still read eo)
        | inr eo ↦ ground (arith, eo)
      ]
