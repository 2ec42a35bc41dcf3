-- ===== src/Examples/Wire.antt =====
-- Runs of the encodings: wait index members, hashes, resume metadata, stand-in replies.
use by_framework_ts.Common.{
  ℕ, Text, codes, ◌≡◌, refl, List, [], ◌∷◌, none, some, ok, lookup, or_else, if◌then◌else◌, text_eq,
  is_empty, or_text,
}
use by_framework_ts.Protocol.Json.{text}
use by_framework_ts.Protocol.Commands.{ResumeCommand, resume_command}
use by_framework_ts.Liveness.WaitIndex.{
  MemberParams, encode_member, decode_member, member_from_resume,
}
use by_framework_ts.Liveness.WaitIndex.RoundTrip.{member_value, decode_member-encode_member}
use by_framework_ts.Liveness.WaitRegistration.{RegisterWaitParams, registered_member}
use by_framework_ts.Liveness.WaitReply.{StandInReplyParams, stand_in_reply, stand_in_header}
use by_framework_ts.Liveness.WaitReply.Addressing.{stand_in_reply-member}
use by_framework_ts.ResumeMetadata.{merge_resume_metadata, is_hop_key, lookup-merge_resume_metadata}

-- Ids that hold the separator and the escape.
abbrev tricky : MemberParams
tricky = record {
  session_id = codes "a|b";
  parent_message_id = codes "\\";
  child_message_id = codes "c|\\d";
  task_group_id = none;
}

decode_member-encode_member_example :
    decode_member (encode_member tricky) ≡ ok (member_value tricky)
decode_member-encode_member_example = decode_member-encode_member tricky

abbrev stored : List (Text × ℕ)
stored = (codes "tenant", 1) ∷ (codes "trace_parent_span_id", 2) ∷ []

abbrev incoming : List (Text × ℕ)
incoming = (codes "tenant", 3) ∷ []

lookup-merge_resume_metadata_example :
    lookup (codes "trace_parent_span_id") (merge_resume_metadata (some stored) (some incoming))
    ≡ or_else (lookup (codes "trace_parent_span_id") incoming) (
        if is_hop_key (codes "trace_parent_span_id")
        then none
        else lookup (codes "trace_parent_span_id") stored)
unfolding lookup text_eq
lookup-merge_resume_metadata_example =
    lookup-merge_resume_metadata (codes "trace_parent_span_id") stored incoming (refl, (refl, tt))
      (refl, tt)

abbrev wait : RegisterWaitParams
wait = record {
  session_id = codes "s";
  parent_message_id = codes "p";
  child_message_id = codes "c";
  task_group_id = none;
  timeout_ms = 10;
}

abbrev failure : StandInReplyParams
failure = record {
  session_id = codes "s";
  caller_message_id = codes "p";
  caller_agent_type = codes "planner";
  child_message_id = codes "c";
  child_agent_type = codes "search";
  task_group_id = [];
  trace_id = codes "t";
  status = codes "FAILED";
  content = text [];
  reply_data = text (codes "no reply");
  extra_payload = [];
  metadata = [];
  error_code = codes "CHILD_TIMEOUT";
  synthesized_by = codes "wait_sweeper";
  user_code = [];
  user_name = [];
}

abbrev failure_reply : ResumeCommand
failure_reply = record {
  header = stand_in_header failure (codes "u");
  content = text [];
  status = codes "FAILED";
  reply_data = text (codes "no reply");
  extra_payload = [];
}

stand_in_reply-member_example :
    (member_from_resume failure_reply.header ≡ registered_member wait)
    × (failure_reply.header.message_id ≡ codes "p")
    × (failure_reply.header.target_agent_type ≡ codes "planner")
unfolding stand_in_reply resume_command stand_in_header member_from_resume registered_member
    is_empty or_text
stand_in_reply-member_example =
    stand_in_reply-member wait failure (codes "u") failure_reply refl refl refl refl refl
