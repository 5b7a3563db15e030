-- ===== src/Context.antt =====
-- Policies of bauhinia_agent/context.
pub mod Retry
pub mod ToolSequence
pub mod Pairs
pub mod Results
pub mod Histories
pub mod Accepted
mod Examples
