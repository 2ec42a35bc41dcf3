-- ===== src/Liveness/WaitReply/Addressing.antt =====
-- A stand-in is addressed like the reply that it replaces.
use by_framework_ts.Common.{Text, ◌≡◌, some, arith}
use by_framework_ts.Protocol.Commands.{ResumeCommand, resume_command}
use by_framework_ts.Liveness.WaitIndex.{or_blank, member_from_resume}
use by_framework_ts.Liveness.WaitRegistration.{RegisterWaitParams, registered_member}
use by_framework_ts.Liveness.WaitReply.{StandInReplyParams, stand_in_reply}

-- A stand-in for the reply to a registered wait, if it can be built, clears that wait's entry: the
-- gate rebuilds from its header the very member that was registered, and it goes to the caller's
-- message and agent type.
pub stand_in_reply-member :
    (w : RegisterWaitParams) (p : StandInReplyParams) (fresh : Text) (r : ResumeCommand)
    → p.session_id ≡ w.session_id
    → p.caller_message_id ≡ w.parent_message_id
    → p.child_message_id ≡ w.child_message_id
    → p.task_group_id ≡ or_blank w.task_group_id
    → stand_in_reply p fresh ≡ some r
    → (member_from_resume r.header ≡ registered_member w)
      × (r.header.message_id ≡ w.parent_message_id)
      × (r.header.target_agent_type ≡ p.caller_agent_type)
unfolding stand_in_reply member_from_resume registered_member resume_command
stand_in_reply-member w p fresh r a b c d e = ground arith
