-- ===== src/Protocol/Commands.antt =====
-- src/protocol/commands.ts: the two commands that carry work and replies.
use by_framework_ts.Common.{
  Text, Bool, true, false, not, ◌&&◌, Option, none, some, is_empty, if◌then◌else◌,
}
use by_framework_ts.Protocol.Json.{JsonValue, JsonRecord, null, text, arr, nil}
use by_framework_ts.Protocol.State.{trim}
use by_framework_ts.Protocol.Header.{MessageHeader}

pub record AskAgentCommand : Type 0 where
  pub header : MessageHeader
  pub content : JsonValue
  pub wait_for_reply : Bool
  pub extra_payload : JsonRecord

pub record ResumeCommand : Type 0 where
  pub header : MessageHeader
  pub content : JsonValue
  pub status : Text
  pub reply_data : JsonValue
  pub extra_payload : JsonRecord

-- The commands that a worker hands to its handler.
pub data GatewayCommand : Type 0 where
  ask_agent : AskAgentCommand → GatewayCommand
  resume : ResumeCommand → GatewayCommand

abbrev pub header_of : GatewayCommand → MessageHeader
header_of (ask_agent c) = c.header
header_of (resume c) = c.header

-- `hasContent`
unfoldable pub has_content : JsonValue → Bool
has_content null = false
has_content (text s) = not (is_empty (trim s))
has_content (arr nil) = false
has_content _ = true

-- The constructor of `ResumeCommand`, which throws where there is neither a status nor content.
unfoldable pub resume_command :
    MessageHeader → JsonValue → Text → JsonValue → JsonRecord → Option ResumeCommand
unfolding has_content
resume_command header content status reply_data extra_payload =
    if is_empty status && not (has_content content)
    then none
    else some (record {
      header = header;
      content = content;
      status = status;
      reply_data = reply_data;
      extra_payload = extra_payload;
    })
