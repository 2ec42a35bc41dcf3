-- ===== src/Liveness/WaitIndex.antt =====
-- src/liveness/wait_index.ts: the members of the wait index, and the shard that holds them.
pub mod Escaping
pub mod RoundTrip
pub mod Shards
use by_framework_ts.Common.{
  ℕ, Text, Bool, true, false, List, [], ◌∷◌, ◌++◌, map, Option, none, some, Result, ok, err,
  if◌then◌else◌, ◌==◌, length,
}
use by_framework_ts.Protocol.Header.{MessageHeader}

abbrev pub separator : ℕ
separator = b'|'

abbrev pub escape : ℕ
escape = 92

pub record WaitIndexMember : Type 0 where
  pub session_id : Text
  pub parent_message_id : Text
  pub child_message_id : Text
  pub task_group_id : Text

-- `WaitIndexMemberError` without its text.
pub data MemberError : Type 0 where
  dangling_escape : MemberError
  field_count : ℕ → MemberError

-- `String.prototype.split` by one character, and `Array.prototype.join`.
abbrev cons_head : ℕ → List Text → List Text
cons_head c [] = (c ∷ []) ∷ []
cons_head c (s ∷ ss) = (c ∷ s) ∷ ss

unfoldable pub split_on : ℕ → Text → List Text
split_on c [] = [] ∷ []
split_on c (x ∷ s) = let rest = split_on c s in if x == c then [] ∷ rest else cons_head x rest

unfoldable pub join : Text → List Text → Text
join sep [] = []
join sep (s ∷ []) = s
join sep (s ∷ t ∷ ts) = s ++ (sep ++ join sep (t ∷ ts))

unfoldable pub escape_field : Text → Text
unfolding split_on join
escape_field value =
    join (escape ∷ separator ∷ [])
      (split_on separator (join (escape ∷ escape ∷ []) (split_on escape value)))

-- The scan of `splitEscaped`: the fields so far, the current one, and whether the last character
-- was an escape.
unfoldable pub split_loop : List Text → Text → Bool → Text → Result MemberError (List Text)
split_loop fields current true [] = err dangling_escape
split_loop fields current false [] = ok (fields ++ current ∷ [])
split_loop fields current true (char ∷ s) = split_loop fields (current ++ char ∷ []) false s
split_loop fields current false (char ∷ s) =
    let escaped = split_loop fields current true s in
    let closed = split_loop (fields ++ current ∷ []) [] false s in
    let longer = split_loop fields (current ++ char ∷ []) false s in
    if char == escape then escaped else if char == separator then closed else longer

unfoldable pub split_escaped : Text → Result MemberError (List Text)
unfolding split_loop
split_escaped encoded = split_loop [] [] false encoded

-- The parameter of `encodeMember`, whose group may be left out.
pub record MemberParams : Type 0 where
  pub session_id : Text
  pub parent_message_id : Text
  pub child_message_id : Text
  pub task_group_id : Option Text

-- `field ?? ''`
abbrev pub or_blank : Option Text → Text
or_blank none = []
or_blank (some s) = s

unfoldable pub encode_member : MemberParams → Text
unfolding join escape_field
encode_member p = join (separator ∷ []) (
    map escape_field
      (p.session_id ∷ p.parent_message_id ∷ p.child_message_id ∷ or_blank p.task_group_id ∷ []))

-- The test `fields.length !== 4`, and the member of four fields.
unfoldable pub member_of : List Text → Result MemberError WaitIndexMember
member_of (a ∷ b ∷ c ∷ d ∷ []) =
    ok (record { session_id = a; parent_message_id = b; child_message_id = c; task_group_id = d })
member_of fields = err (field_count (length fields))

unfoldable pub decode_fields : Result MemberError (List Text) → Result MemberError WaitIndexMember
decode_fields (ok fields) = member_of fields
decode_fields (err e) = err e

unfoldable pub decode_member : Text → Result MemberError WaitIndexMember
unfolding split_escaped decode_fields member_of
decode_member member = decode_fields (split_escaped member)

-- The member that a reply clears: the reply's own message id is the caller's, and its parent
-- message id is the sub-task's.
unfoldable pub member_from_resume : MessageHeader → Text
member_from_resume header = encode_member (record {
  session_id = header.session_id;
  parent_message_id = header.message_id;
  child_message_id = header.parent_message_id;
  task_group_id = some header.task_group_id;
})
