-- ===== src/Context/Examples.antt =====
-- The policies at concrete limits and histories.
use bauhinia_agent.Common.{◌↔◌, ◌≡◌, refl, true, some, List, [], ◌∷◌, ok}
use bauhinia_agent.Context.Retry.{CompactRetryPolicy, fail, decide}
use bauhinia_agent.Context.ToolSequence.{
  AgentMessage, required_id, add_calls, settle_results, check_message, check_messages,
  validate_tool_call_sequence,
}
use bauhinia_agent.Context.Histories.{IsPaired}
use bauhinia_agent.Context.Accepted.{validate_tool_call_sequence_iff}

abbrev defaults : CompactRetryPolicy
defaults = record {
  max_prompt_too_long_retries = 1;
  max_timeout_retries = 2;
  max_no_summary_retries = 1;
}

third_timeout_fails :
    ((decide defaults "timeout" 2).should_retry ≡ true)
    × ((decide defaults "timeout" 3).action ≡ fail)
unfolding decide
third_timeout_fails = (refl, refl)

-- A call of a tool, and its result.
abbrev answered : List AgentMessage
answered =
    record {
      role = "assistant";
      parts = record { kind = "tool_call"; tool_call_id = some "c1" } ∷ [];
    }
    ∷ record {
      role = "tool";
      parts = record { kind = "tool_result"; tool_call_id = some "c1" } ∷ [];
    }
    ∷ []

answered_is_accepted : validate_tool_call_sequence answered ≡ ok tt
unfolding required_id add_calls settle_results check_message check_messages
    validate_tool_call_sequence
answered_is_accepted = refl

validate_tool_call_sequence_iff_example :
    (validate_tool_call_sequence answered ≡ ok tt) ↔ IsPaired answered
validate_tool_call_sequence_iff_example = validate_tool_call_sequence_iff answered
