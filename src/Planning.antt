-- ===== src/Planning.antt =====
-- bauhinia_agent/planning and the parts of bauhinia_agent/context that store its plans.
pub mod Values
pub mod Errors
pub mod Models
pub mod Projection
pub mod Validation
pub mod Views
pub mod Commands
pub mod Reducer
pub mod Session
pub mod Service
mod Samples
mod Examples
