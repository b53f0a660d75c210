-- ===== src/Backend.antt =====
-- The orchestrator (backend/src/nodeconductor): its tables, the job repository, the worker and the
-- services above them.
pub mod Schema
pub mod Jobs
pub mod Executors
pub mod Worker
pub mod Actions
pub mod Inventory
pub mod Written
pub mod Targets
pub mod Synchronization
pub mod Catalogue
pub mod Loop
pub mod Middleware
pub mod Client
mod Tests
