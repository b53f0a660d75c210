-- ===== src/Agent.antt =====
-- The restricted Agent (agent/src/nodeconductor_agent): its journal of actions, its policies, its
-- inventory of Docker resources, and the service that acts on them.
pub mod Schema
pub mod Journal
pub mod Aggregate
pub mod Policies
pub mod Inventory
pub mod Actions
pub mod Gateway
pub mod Middleware
pub mod Registry
pub mod Status
mod Tests
