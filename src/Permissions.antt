-- ===== src/Permissions.antt =====
-- bauhinia_agent/permissions: what an agent may do without asking, and what an answer allows.
pub mod Types
pub mod Commands
pub mod Policy
pub mod Grants
pub mod Manager
pub mod Dialog
mod Examples
