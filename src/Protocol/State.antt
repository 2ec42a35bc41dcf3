-- ===== src/Protocol/State.antt =====
-- src/protocol/agent_state.ts, and `baseStatus` of src/liveness/wait_sweeper.ts.
use by_framework_ts.Common.{
  ℕ, Text, codes, text_eq, Bool, ◌||◌, List, [], ◌∷◌, if◌then◌else◌, ◌==◌, leb, ◌&&◌, includes, ◌≡◌,
  refl,
}
use mathlib.Core.List.{reverse}
use by_framework_ts.Protocol.AgentState

-- `TERMINAL_STATES`
abbrev pub terminal_states : List Text
terminal_states = AgentState.completed ∷ AgentState.failed ∷ AgentState.cancelled ∷ []

unfoldable pub is_terminal_state : Text → Bool
unfolding text_eq
is_terminal_state state = includes text_eq terminal_states state

-- `SUSPENDED_STATES` of the sweeper.
abbrev pub suspended_states : List Text
suspended_states = AgentState.waiting_agent ∷ AgentState.waiting_user ∷ []

unfoldable pub is_suspended_state : Text → Bool
unfolding text_eq
is_suspended_state state = includes text_eq suspended_states state

-- The white space that `String.prototype.trim` removes.
is_space : ℕ → Bool
is_space c =
    (leb 9 c && leb c 13)
    || c == 32
    || c == 0xa0
    || c == 0x1680
    || (leb 0x2000 c && leb c 0x200a)
    || c == 0x2028
    || c == 0x2029
    || c == 0x202f
    || c == 0x205f
    || c == 0x3000
    || c == 0xfeff

drop_spaces : Text → Text
drop_spaces [] = []
drop_spaces (c ∷ s) = if is_space c then drop_spaces s else c ∷ s

unfoldable pub trim : Text → Text
unfolding drop_spaces is_space
trim s = reverse (drop_spaces (reverse (drop_spaces s)))

-- `split(':')[0]`
until_colon : Text → Text
until_colon [] = []
until_colon (c ∷ s) = if c == b':' then [] else c ∷ until_colon s

unfoldable pub base_status : Text → Text
unfolding until_colon trim
base_status value = trim (until_colon value)

base_status_decorated :
    base_status (codes "WAITING_AGENT: waiting_for_group") ≡ AgentState.waiting_agent
unfolding base_status
base_status_decorated = refl
