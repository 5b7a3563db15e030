-- ===== src/Context/Retry.antt =====
-- context/retry_policy.py: whether a failed compaction is tried again. context/triggers.py: whether the
-- context is compacted at all.
use bauhinia_agent.Common.{
  ℕ, ◌≤◌, ◌<◌, String, ◌≡◌, ◌≢◌, Bool, true, false, ◌==◌, string_eq, leb, if◌then◌else◌, arith,
}

pub data RetryAction : Type 0 where
  stronger_compaction backoff retry fail : RetryAction

pub record CompactRetryDecision : Type 0 where
  pub should_retry : Bool
  pub action : RetryAction
  pub reason : String

pub record CompactRetryPolicy : Type 0 where
  pub max_prompt_too_long_retries : ℕ
  pub max_timeout_retries : ℕ
  pub max_no_summary_retries : ℕ

abbrev pub retry_decision : (limit attempt : ℕ) → RetryAction → String → CompactRetryDecision
retry_decision limit attempt action reason = record {
  should_retry = leb attempt limit;
  action = if leb attempt limit then action else fail;
  reason = reason;
}

unfoldable pub decide : CompactRetryPolicy → String → (attempt : ℕ) → CompactRetryDecision
decide p reason attempt =
    if reason == "prompt_too_long"
    then retry_decision p.max_prompt_too_long_retries attempt stronger_compaction reason
    else if reason == "timeout"
    then retry_decision p.max_timeout_retries attempt backoff reason
    else if reason == "no_summary"
    then retry_decision p.max_no_summary_retries attempt retry reason
    else record { should_retry = false; action = fail; reason = reason }

-- No failure is retried for ever: an attempt beyond all three limits is not, whatever the reason.
decide_gives_up :
    (p : CompactRetryPolicy) (reason : String) (attempt : ℕ)
    → p.max_prompt_too_long_retries < attempt
    → p.max_timeout_retries < attempt
    → p.max_no_summary_retries < attempt
    → (decide p reason attempt).should_retry ≡ false
unfolding decide
decide_gives_up p reason attempt a b c = ground arith

-- If an attempt is tried again then every earlier one is, and the action is not to fail.
decide_consistent :
    (p : CompactRetryPolicy) (reason : String) (attempt earlier : ℕ)
    → earlier ≤ attempt
    → (decide p reason attempt).should_retry ≡ true
    → ((decide p reason earlier).should_retry ≡ true) × ((decide p reason attempt).action ≢ fail)
unfolding decide
decide_consistent p reason attempt earlier less again = ground arith

pub record ContextTriggerDecision : Type 0 where
  pub should_compact : Bool
  pub reason : String
  pub estimated_tokens : ℕ
  pub target_tokens : ℕ

unfoldable pub evaluate_context_triggers :
    (input_tokens high_watermark low_watermark : ℕ) → ContextTriggerDecision
evaluate_context_triggers input high low =
    if leb high input
    then record {
      should_compact = true;
      reason = "token_threshold";
      estimated_tokens = input;
      target_tokens = low;
    }
    else record {
      should_compact = false;
      reason = "under_threshold";
      estimated_tokens = input;
      target_tokens = low;
    }
