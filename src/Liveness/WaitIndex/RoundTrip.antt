-- ===== src/Liveness/WaitIndex/RoundTrip.antt =====
-- Decoding undoes encoding.
use by_framework_ts.Common.{Text, ◌≡◌, ◌∙◌, ap, false, List, [], ◌∷◌, ◌++◌, map, ok, arith}
use mathlib.Core.List.{append-nil}
use by_framework_ts.Liveness.WaitIndex.{
  separator, WaitIndexMember, MemberParams, or_blank, join, escape_field, split_loop, split_escaped,
  encode_member, decode_member, decode_fields,
}
use by_framework_ts.Liveness.WaitIndex.Escaping.{split_loop-escape_field}

-- What a member stands for.
abbrev pub member_value : MemberParams → WaitIndexMember
member_value p = record {
  session_id = p.session_id;
  parent_message_id = p.parent_message_id;
  child_message_id = p.child_message_id;
  task_group_id = or_blank p.task_group_id;
}

split_loop-separator :
    (fields : List Text) (v rest : Text)
    → split_loop fields [] false (escape_field v ++ separator ∷ rest)
      ≡ split_loop (fields ++ v ∷ []) [] false rest
unfolding split_loop
split_loop-separator fields v rest =
    ground (arith, split_loop-escape_field fields [] v (separator ∷ rest))

split_loop-last :
    (fields : List Text) (v : Text)
    → split_loop fields [] false (escape_field v) ≡ ok (fields ++ v ∷ [])
unfolding split_loop
split_loop-last fields v =
    ground (arith, split_loop-escape_field fields [] v [], append-nil (escape_field v))

split_escaped-join :
    (a b c d : Text)
    → split_escaped (join (separator ∷ []) (map escape_field (a ∷ b ∷ c ∷ d ∷ [])))
      ≡ ok (a ∷ b ∷ c ∷ d ∷ [])
unfolding split_escaped join
split_escaped-join a b c d =
    split_loop-separator [] a _
    ∙ split_loop-separator (a ∷ []) b _
    ∙ split_loop-separator (a ∷ b ∷ []) c _
    ∙ split_loop-last (a ∷ b ∷ c ∷ []) d

-- Every encoded member decodes to the four fields that were encoded, whatever characters the ids
-- hold, the separator and the escape included.
pub decode_member-encode_member :
    (p : MemberParams) → decode_member (encode_member p) ≡ ok (member_value p)
unfolding decode_member encode_member
decode_member-encode_member p =
    ap (λ r. decode_fields r)
      (split_escaped-join p.session_id p.parent_message_id p.child_message_id
        (or_blank p.task_group_id))

-- So two waits share an entry only if all their four ids agree.
pub encode_member-injective :
    (p q : MemberParams) → encode_member p ≡ encode_member q → member_value p ≡ member_value q
encode_member-injective p q e =
    cc (decode_member-encode_member p, decode_member-encode_member q, ap decode_member e)
