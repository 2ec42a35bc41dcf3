-- ===== src/Worker/Joining.antt =====
-- When the join of a task group resumes its caller.
use by_framework_ts.Common.{
  ℕ, suc, ◌+◌, ◌≤◌, ◌<◌, Text, text_eq_iff, is_empty_iff, ◌≡◌, refl, ◌≢◌, ◌⊎◌, Bool, true, false,
  ◌||◌, List, [], ◌∷◌, none, some, ok, arith, length, All,
}
use by_framework_ts.Protocol.Commands.{ResumeCommand}
use by_framework_ts.Redis.Keys.{key_eq_iff, task_group, task_group_results}
use by_framework_ts.Redis.Values.{number, result}
use by_framework_ts.Redis.Data.{Data, number_at}
use by_framework_ts.Redis.Env.{Env, Reply}
use by_framework_ts.Liveness.WaitSweeper.Triage.{
  task_group_field_total, task_group_field_aborted, is_truthy,
}
use by_framework_ts.Worker.Returns.{result_data, task_group_ttl_seconds}
use by_framework_ts.Worker.Groups.{
  Join, proceeds, count_reply, join_group, is_incomplete, task_group_field_completed,
}

-- The number of replies of a group that were counted.
abbrev pub counted : Text → Data → ℕ
counted g d = number_at (d.hash (task_group g) task_group_field_completed)

module _ (env : Env) where
  open env use {
    Store, view, hget, hget_lem, hset, hset_lem, hincrby, hincrby_lem, expire, expire_lem,
  }

  count_reply_lem :
      (c : ResumeCommand) (t : ℕ) (s : Store)
      → ((view (count_reply env c (some (number t)) s).1).hash
            (task_group c.header.task_group_id)
            task_group_field_total
          ≡ (view s).hash (task_group c.header.task_group_id) task_group_field_total)
        × (((count_reply env c (some (number t)) s).0 ≡ ok proceeds)
            → (t ≤ counted c.header.task_group_id (view (count_reply env c (some (number t)) s).1))
              × ((view (count_reply env c (some (number t)) s).1).hash
                    (task_group_results c.header.task_group_id)
                    c.header.parent_message_id
                  ≡ some (result (result_data c))))
        × (counted c.header.task_group_id (view (count_reply env c (some (number t)) s).1)
            ≤ suc (counted c.header.task_group_id (view s)))
  unfolding count_reply is_incomplete
  count_reply_lem c t s =
      let k = task_group_results c.header.task_group_id in
      let g = task_group c.header.task_group_id in
      let f = c.header.parent_message_id in
      let s1 = (hset k f (result (result_data c)) s).1 in
      let s2 = (expire k task_group_ttl_seconds s1).1 in
      ground (
        arith,
        hset_lem k f (result (result_data c)) s,
        expire_lem k task_group_ttl_seconds s1,
        hincrby_lem g task_group_field_completed 1 s2,
        key_eq_iff k g,
        key_eq_iff g k,
        key_eq_iff k k,
        key_eq_iff g g,
        text_eq_iff f f,
        text_eq_iff task_group_field_completed task_group_field_total,
        text_eq_iff task_group_field_completed task_group_field_completed,
      )

  -- A reply of a group with a total resumes the caller only if as many replies of the group as that
  -- were then counted, and this reply is stored under its sub-task for the caller to collect.
  pub join_group-proceeds :
      (c : ResumeCommand) (t : ℕ) (s : Store)
      → c.header.task_group_id ≢ []
      → (view s).hash (task_group c.header.task_group_id) task_group_field_total ≡ some (number t)
      → (join_group env c s).0 ≡ ok proceeds
      → (t ≤ counted c.header.task_group_id (view (join_group env c s).1))
        × ((view (join_group env c s).1).hash
              (task_group_results c.header.task_group_id)
              c.header.parent_message_id
            ≡ some (result (result_data c)))
  unfolding join_group
  join_group-proceeds c t s ne total e =
      let g = task_group c.header.task_group_id in
      let s1 = (hget g task_group_field_total s).1 in
      let s2 = (hget g task_group_field_aborted s1).1 in
      ground (
        arith,
        hget_lem g task_group_field_total s,
        hget_lem g task_group_field_aborted s1,
        is_empty_iff c.header.task_group_id,
        count_reply_lem c t s2,
      )

  -- A reply to a group that is gone or aborted does not resume the caller and changes nothing.
  pub join_group-closed :
      (c : ResumeCommand) (s : Store)
      → c.header.task_group_id ≢ []
      → ((view s).hash (task_group c.header.task_group_id) task_group_field_total ≡ none)
        ⊎ (is_truthy ((view s).hash (task_group c.header.task_group_id) task_group_field_aborted)
            ≡ true)
      → (view (join_group env c s).1 ≡ view s) × ((join_group env c s).0 ≢ ok proceeds)
  unfolding join_group
  join_group-closed c s ne closed =
      let g = task_group c.header.task_group_id in
      let s1 = (hget g task_group_field_total s).1 in
      ground (
        arith,
        hget_lem g task_group_field_total s,
        hget_lem g task_group_field_aborted s1,
        is_empty_iff c.header.task_group_id,
      )

  join_group_lem :
      (c : ResumeCommand) (t : ℕ) (s : Store)
      → c.header.task_group_id ≢ []
      → (view s).hash (task_group c.header.task_group_id) task_group_field_total ≡ some (number t)
      → ((view (join_group env c s).1).hash
            (task_group c.header.task_group_id)
            task_group_field_total
          ≡ some (number t))
        × (counted c.header.task_group_id (view (join_group env c s).1)
            ≤ suc (counted c.header.task_group_id (view s)))
  unfolding join_group
  join_group_lem c t s ne total =
      let g = task_group c.header.task_group_id in
      let s1 = (hget g task_group_field_total s).1 in
      let s2 = (hget g task_group_field_aborted s1).1 in
      ground (
        arith,
        hget_lem g task_group_field_total s,
        hget_lem g task_group_field_aborted s1,
        is_empty_iff c.header.task_group_id,
        count_reply_lem c t s2,
      )

  abbrev is_proceeds : Reply Join → Bool
  is_proceeds (ok proceeds) = true
  is_proceeds _ = false

  -- Whether one of the replies, joined one after the other, resumes the caller.
  unfoldable pub any_proceeds : List ResumeCommand → Store → Bool
  any_proceeds [] s = false
  any_proceeds (c ∷ cs) s =
      is_proceeds (join_group env c s).0 || any_proceeds cs (join_group env c s).1

  -- Fewer replies than a group still lacks never resume its caller, in whatever order they come and
  -- whatever fails on the way.
  pub any_proceeds-false :
      (g : Text) (t : ℕ) (cs : List ResumeCommand) (s : Store)
      → g ≢ []
      → All (λ c. c.header.task_group_id ≡ g) cs
      → (view s).hash (task_group g) task_group_field_total ≡ some (number t)
      → counted g (view s) + length cs < t
      → any_proceeds cs s ≡ false
  unfolding any_proceeds
  any_proceeds-false g t [] s ne mine total few = refl
  any_proceeds-false g t (c ∷ cs) s ne mine total few =
      let s1 = (join_group env c s).1 in
      ground (
        arith,
        mine.0,
        join_group-proceeds c t s,
        join_group_lem c t s,
        any_proceeds-false g t cs s1 ne mine.1,
      )
