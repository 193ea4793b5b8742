-- ===== src/Scheduler.antt =====
-- data_manager/scheduler.py: one fetch of a proxied feed, and the entity types that it records.
pub mod EntityTypes
pub mod Fetching
pub mod Kept
pub mod Retried
pub mod Examples
