-- ===== src/Evo.antt =====
-- bauhinia_agent/planning/evo.py: the plan graphs of the evolution loop and their event log.
pub mod Graph
pub mod Store
mod Examples
